-- ===== src/Schema/Cache.antt =====
-- schema/cache.go: the cache of built schemas, by root and fingerprint. A clone is the schema itself
-- here, since nothing is written through a schema. `sha256` is the hexadecimal digest of a text.
use dorm.Prelude.{
  ℕ, Bool, not, ◌||◌, Option, none, some, List, [], ◌∷◌, ◌++◌, Text, txt, text_eq, text_le, is_nil,
  join, itoa, if◌then◌else◌,
}
use dorm.Errors.{Result, ok, err}
use dorm.Schema.Types.{Schema}
use dorm.Schema.Names.{ends_with}
use dorm.Schema.Keys.{entry, sort_by}

pub record CachedSchema : Type 0 where
  pub fingerprint : Text
  pub schema : Schema

-- `schemaBuildCache`: the list of what was stored, of which the last under a root counts.
abbrev pub SchemaCache : Type 0
SchemaCache = List (Text × CachedSchema)

unfoldable pub load_cached_schema : Text → Text → SchemaCache → Option Schema
unfolding entry text_eq
load_cached_schema root fingerprint cache =
    elim (entry (λ (e : Text × CachedSchema). e.0) root cache) [
      | none ↦ none
      | some e ↦ if text_eq e.1.fingerprint fingerprint then some e.1.schema else none
    ]

unfoldable pub store_cached_schema : Text → Text → Schema → SchemaCache → SchemaCache
store_cached_schema root fingerprint schema cache =
    if is_nil root
    then cache
    else cache ++ (root, record { fingerprint = fingerprint; schema = schema }) ∷ []

-- `os.DirEntry`: the size and the time of the last change, or an error.
pub record DirEntry : Type 0 where
  pub name : Text
  pub is_dir : Bool
  pub info : Result (ℕ × ℕ)

fingerprint_part : Text → ℕ × ℕ → Text
unfolding itoa
fingerprint_part name info = name ++ txt ":" ++ itoa (info.0) ++ txt ":" ++ itoa (info.1)

-- The loop over the entries of the directory.
fingerprint_loop : List DirEntry → Result (List Text)
unfolding ends_with fingerprint_part
fingerprint_loop [] = ok []
fingerprint_loop (e ∷ es) =
    let skipped =
      e.is_dir || not (ends_with (txt ".go") e.name) || ends_with (txt "_test.go") e.name in
    let rest = fingerprint_loop es in
    if skipped then rest else elim e.info [
      | err x ↦ err x
      | ok info ↦ elim rest [ err x ↦ err x | ok parts ↦ ok (fingerprint_part e.name info ∷ parts) ]
    ]

unfoldable pub fingerprint_parts : (Text → Text) → List Text → Text
unfolding join
fingerprint_parts sha256 parts = sha256 (join (10 ∷ []) parts)

unfoldable pub source_fingerprint : (Text → Text) → Result (List DirEntry) → Result Text
unfolding fingerprint_loop fingerprint_parts sort_by text_le
source_fingerprint sha256 (err x) = err x
source_fingerprint sha256 (ok entries) = elim (fingerprint_loop entries) [
  | err x ↦ err x
  | ok parts ↦ ok (fingerprint_parts sha256 (sort_by text_le parts))
]
