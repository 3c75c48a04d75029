-- ===== src/Schema/Builder/Build/Again.antt =====
-- What the cache of `Build` keeps.
use dorm.Prelude.{
  ℕ, false, Option, none, some, List, [], ◌∷◌, ◌≡◌, refl, ap, ◌∙◌, arith, All, All-append, Text,
  text_eq, text_eq_refl, is_nil, Bool-cases, Option-cases, inl, inr, if◌then◌else◌,
}
use dorm.Errors.{Result, ok, err, Result-cases}
use dorm.Schema.Types.{Schema}
use dorm.Schema.Keys.{entry}
use dorm.Schema.Keys.Entries.{entry-append_one}
use dorm.Schema.Validate.{validate}
use dorm.Schema.Cache.{
  CachedSchema, SchemaCache, load_cached_schema, store_cached_schema, source_fingerprint,
}
use dorm.Schema.Builder.Build.{World, parsed_schema, stored, build, assemble_schema, build_packages}

-- Under a root that is not empty: what is loaded after a schema has been stored is that schema for its
-- root and fingerprint, nothing for its root and another fingerprint, and what it was before for another
-- root.
pub load-store :
    (root fingerprint : Text) (s : Schema) (cache : SchemaCache) (other wanted : Text)
    → is_nil root ≡ false
    → load_cached_schema other wanted (store_cached_schema root fingerprint s cache) ≡ (
        if text_eq root other
        then if text_eq fingerprint wanted then some s else none
        else load_cached_schema other wanted cache)
unfolding load_cached_schema store_cached_schema
load-store root fingerprint s cache other wanted h =
    let made : Text × CachedSchema = (root, record { fingerprint = fingerprint; schema = s }) in
    let last = entry-append_one (λ (e : Text × CachedSchema). e.0) other cache made in
    elim (Bool-cases (text_eq root other)) [
      | inl e ↦ rw (h, load_cached_schema, last, e) refl
      | inr e ↦ rw (h, load_cached_schema, last, e) refl
    ]

-- Every schema in the cache passes `Validate`.
abbrev pub IsSound : (Text → Text) → SchemaCache → Type 0
IsSound quote = All (λ (e : Text × CachedSchema). validate quote e.1.schema ≡ none)

-- A result that is a schema passes `Validate`.
abbrev pub IsValidResult : (Text → Text) → Option (Result Schema) → Type 0
IsValidResult quote (some (ok s)) = validate quote s ≡ none
IsValidResult quote r = Unit

entry-All {ℓ} :
    {A : Type 0} (P : A → Type ℓ) (name : A → Text) (k : Text) (xs : List A) (x : A)
    → All P xs
    → entry name k xs ≡ some x
    → P x
unfolding entry
entry-All P name k [] x h e = absurd (ground (arith, e))
entry-All P name k (y ∷ xs) x h e = elim (Option-cases (entry name k xs)) [
  | inl none_ ↦ elim (Bool-cases (text_eq (name y) k)) [
    | inl same ↦ let here_ : y ≡ x = ground (arith, e, none_, same) in rw (← here_) (h.0)
    | inr other ↦ absurd (ground (arith, e, none_, other))
  ]
  | inr (z, found) ↦
      let later : z ≡ x = ground (arith, e, found) in
      entry-All P name k xs x h.1 (found ∙ ap some later)
]

parsed_schema-IsValidResult :
    (fuel : ℕ) (w : World) (root : Text) → IsValidResult w.quote (parsed_schema fuel w root)
unfolding parsed_schema
parsed_schema-IsValidResult fuel w root = elim (Result-cases (w.parse_dir root)) [
  | inr (e, unread) ↦ rw (parsed_schema, unread) tt
  | inl (pkgs, read) ↦ elim (Result-cases (w.resolver root)) [
    | inr (e, lost) ↦ rw (parsed_schema, read, lost) tt
    | inl (load, found) ↦ elim (Option-cases (build_packages fuel w load pkgs)) [
      | inl out ↦ rw (parsed_schema, read, found, out) tt
      | inr (built, in_) ↦
          elim (Option-cases (validate w.quote (assemble_schema (w.base root) built))) [
            | inl fine ↦ rw (parsed_schema, read, found, in_, fine) fine
            | inr (e, bad) ↦ rw (parsed_schema, read, found, in_, bad) tt
          ]
    ]
  ]
]

load_cached_schema-valid :
    (quote : Text → Text) (root fingerprint : Text) (cache : SchemaCache) (s : Schema)
    → IsSound quote cache
    → load_cached_schema root fingerprint cache ≡ some s
    → validate quote s ≡ none
unfolding load_cached_schema
load_cached_schema-valid quote root fingerprint cache s sound h =
    elim (Option-cases (entry (λ (e : Text × CachedSchema). e.0) root cache)) [
      | inl e ↦ absurd (ground (arith, h, e))
      | inr (held, e) ↦ elim (Bool-cases (text_eq held.1.fingerprint fingerprint)) [
        | inr other ↦ absurd (ground (arith, h, e, other))
        | inl same ↦
            let it : held.1.schema ≡ s = ground (arith, h, e, same) in
            rw (← it) (
              entry-All (λ (e : Text × CachedSchema). validate quote e.1.schema ≡ none) _ root cache
                held sound e)
      ]
    ]

stored-IsSound :
    (quote : Text → Text) (root fingerprint : Text) (cache : SchemaCache)
    (r : Option (Result Schema))
    → IsSound quote cache
    → IsValidResult quote r
    → IsSound quote (stored root fingerprint cache r)
unfolding stored store_cached_schema
stored-IsSound quote root fingerprint cache none sound h = sound
stored-IsSound quote root fingerprint cache (some (err e)) sound h = sound
stored-IsSound quote root fingerprint cache (some (ok s)) sound h =
    elim (Bool-cases (is_nil root)) [
      | inl e ↦ rw e sound
      | inr e ↦ rw e (
          All-append (λ (e : Text × CachedSchema). validate quote e.1.schema ≡ none) cache _ sound
            (h, tt))
    ]

-- From a cache of schemas that pass Validate, Build leaves such a cache, and a schema that it returns,
-- parsed or from the cache, passes Validate.
pub build-IsSound :
    (fuel : ℕ) (w : World) (root : Option Text) (cache : SchemaCache)
    → IsSound w.quote cache
    → let r = build fuel w root cache in IsValidResult w.quote (r.0) × IsSound w.quote (r.1)
unfolding build
build-IsSound fuel w none cache sound = (tt, sound)
build-IsSound fuel w (some root) cache sound = elim (Bool-cases (is_nil root)) [
  | inl e ↦ rw e (tt, sound)
  | inr e ↦ elim (Result-cases (source_fingerprint w.sha256 (w.read_dir root))) [
    | inr (x, failed) ↦ rw (e, failed) (tt, sound)
    | inl (fingerprint, read) ↦ elim (Option-cases (load_cached_schema root fingerprint cache)) [
      | inr (s, held) ↦
          rw (e, read, held)
            (load_cached_schema-valid w.quote root fingerprint cache s sound held, sound)
      | inl missed ↦
          let valid = parsed_schema-IsValidResult fuel w root in
          rw (e, read, missed)
            (
              valid,
              stored-IsSound w.quote root fingerprint cache (parsed_schema fuel w root) sound valid,
            )
    ]
  ]
]

build_cached :
    (fuel : ℕ) (w : World) (root fingerprint : Text) (cache : SchemaCache) (s : Schema)
    → is_nil root ≡ false
    → source_fingerprint w.sha256 (w.read_dir root) ≡ ok fingerprint
    → load_cached_schema root fingerprint cache ≡ some s
    → build fuel w (some root) cache ≡ (some (ok s), cache)
unfolding build
build_cached fuel w root fingerprint cache s named read held = rw (named, read, held) refl

-- What a successful build leaves in the cache.
build_leaves :
    (fuel : ℕ) (w : World) (root : Text) (cache : SchemaCache) (s : Schema)
    → (build fuel w (some root) cache).0 ≡ some (ok s)
    → (is_nil root ≡ false)
      × ((fingerprint : Text) × (source_fingerprint w.sha256 (w.read_dir root) ≡ ok fingerprint)
          × (load_cached_schema root fingerprint (build fuel w (some root) cache).1 ≡ some s))
unfolding build
build_leaves fuel w root cache s h = elim (Bool-cases (is_nil root)) [
  | inl e ↦ absurd (ground (arith, h, e))
  | inr e ↦ elim (Result-cases (source_fingerprint w.sha256 (w.read_dir root))) [
    | inr (x, failed) ↦ absurd (ground (arith, h, e, failed))
    | inl (fingerprint, read) ↦ elim (Option-cases (load_cached_schema root fingerprint cache)) [
      | inr (t, held) ↦
          let it : t ≡ s = ground (arith, h, e, read, held) in
          (e, (fingerprint, read, rw (build, e, read, held) (held ∙ ap some it)))
      | inl missed ↦
          let it : parsed_schema fuel w root ≡ some (ok s) = ground (arith, h, e, read, missed) in
          (
            e,
            (
              fingerprint,
              read,
              rw (build, e, read, missed, it)
                  (load-store root fingerprint s cache root fingerprint e
                    ∙ rw (text_eq_refl root, text_eq_refl fingerprint) refl),
            ),
          )
    ]
  ]
]

-- When a build has returned a schema, a second one with the cache that it left, in a world where the
-- directory has the same fingerprint, returns that schema and leaves the cache as it is, whatever the
-- parser or the packages that are imported would give.
pub build_again :
    (fuel more : ℕ) (w v : World) (root : Text) (cache : SchemaCache) (s : Schema)
    → (build fuel w (some root) cache).0 ≡ some (ok s)
    → source_fingerprint v.sha256 (v.read_dir root) ≡ source_fingerprint w.sha256 (w.read_dir root)
    → let left = (build fuel w (some root) cache).1 in
      build more v (some root) left ≡ (some (ok s), left)
build_again fuel more w v root cache s h same =
    let (named, (fingerprint, read, held)) = build_leaves fuel w root cache s h in
    build_cached more v root fingerprint (build fuel w (some root) cache).1 s named (same ∙ read)
      held
