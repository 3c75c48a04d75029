-- ===== src/Schema/Traits/Ends.antt =====
-- The recursion over embedded structs by reflection ends: no type is entered twice.
use dorm.Prelude.{
  ℕ, zero, suc, ◌+◌, ◌<◌, true, Option, none, some, is_some, List, [], ◌∷◌, ◌++◌, ◌≡◌, refl, arith,
  All, Text, text_eq_iff, text_eq_refl, unseen, unseen_lt, is_among, Bool-cases, Option-cases, inl,
  inr,
}
use dorm.Schema.GoTypes.{GoType, TypeName, GoField, elem_of, name_of, same_type}
use dorm.Schema.Columns.Reflected.{column_from_reflect_field}
use dorm.Schema.Traits.{
  TypeMetadata, Reflection, Collect, is_embedded, is_struct, collect_field, join_metadata,
  collect_fields, is_seen_type, collect_type_metadata, discover_type_metadata,
  struct_field_index_map,
}
use dorm.Schema.Traits.Paths.{Leads, struct_field_index_map-Leads}

same_type_sound : (a b : TypeName) → same_type a b ≡ true → a ≡ b
unfolding same_type
same_type_sound a b h =
    let p = (text_eq_iff a.pkg_path b.pkg_path).0 (ground (arith, h)) in
    let n = (text_eq_iff a.name b.name).0 (ground (arith, h)) in rw (p, n) refl

same_type_refl : (a : TypeName) → same_type a a ≡ true
unfolding same_type
same_type_refl a = rw (text_eq_refl a.pkg_path, text_eq_refl a.name) refl

-- The structs that a struct of the list embeds are in the list.
abbrev pub IsClosed : Reflection → List TypeName → Type 0
IsClosed r types =
    (n : TypeName)
    → is_among same_type types n ≡ true
    → All
        (λ (f : GoField).
          is_embedded f ≡ true → is_among same_type types (name_of (elem_of f.type_)) ≡ true)
        (r.fields_of n)

join_metadata-some :
    (a b : Option TypeMetadata)
    → is_some a ≡ true
    → is_some b ≡ true
    → is_some (join_metadata a b) ≡ true
unfolding join_metadata
join_metadata-some none b h i = absurd (ground (arith, h))
join_metadata-some (some a) none h i = absurd (ground (arith, i))
join_metadata-some (some a) (some b) h i = refl

module _ (nested : Collect) (r : Reflection) (types : List TypeName) (traits : List Text)
    (ends : (m : TypeName) (up : List Text) (q : List ℕ)
      → is_among same_type types m ≡ true
      → is_some (nested m up q) ≡ true) where
  collect_field-ends :
      (path : List ℕ) (f : GoField)
      → (is_embedded f ≡ true → is_among same_type types (name_of (elem_of f.type_)) ≡ true)
      → is_some (collect_field nested r traits path f) ≡ true
  unfolding collect_field
  collect_field-ends path f inside = elim (Bool-cases f.exported) [
    | inr hidden ↦ rw (collect_field, hidden) refl
    | inl exported ↦ elim (Bool-cases (is_embedded f)) [
      | inl e ↦ rw (collect_field, exported, e) (ends _ _ path (inside e))
      | inr e ↦ elim (Option-cases (column_from_reflect_field r.text r.registry f traits)) [
        | inl none_ ↦ rw (collect_field, exported, e, none_) refl
        | inr (c, some_) ↦ rw (collect_field, exported, e, some_) refl
      ]
    ]
  ]

  collect_fields-ends :
      (path : List ℕ) (i : ℕ) (fields : List GoField)
      → All
          (λ (f : GoField).
            is_embedded f ≡ true → is_among same_type types (name_of (elem_of f.type_)) ≡ true)
          fields
      → is_some (collect_fields nested r traits path i fields) ≡ true
  unfolding collect_fields
  collect_fields-ends path i [] h = refl
  collect_fields-ends path i (f ∷ rest) h =
      join_metadata-some _ _ (collect_field-ends (path ++ i ∷ []) f (h.0))
        (collect_fields-ends path (i + 1) rest (h.1))

collect_type_metadata-ends :
    (fuel : ℕ) (r : Reflection) (types : List TypeName) (n : TypeName) (traits : List Text)
    (path : List ℕ) (seen : List TypeName)
    → IsClosed r types
    → is_among same_type types n ≡ true
    → unseen same_type types seen < fuel
    → is_some (collect_type_metadata fuel r n traits path seen) ≡ true
unfolding collect_type_metadata is_seen_type
collect_type_metadata-ends zero r types n traits path seen closed i f = absurd (ground (arith, f))
collect_type_metadata-ends (suc fuel) r types n traits path seen closed i f =
    elim (Bool-cases (is_seen_type seen n)) [
      | inl again ↦ rw again refl
      | inr first ↦ rw first (
          collect_fields-ends _ r types traits
            (λ m up q j. collect_type_metadata-ends fuel r types m up q (n ∷ seen) closed j (
              omega (
                arith,
                f,
                unseen_lt same_type same_type_sound same_type_refl types seen n i first,
              )))
            path 0 (r.fields_of n) (closed n i))
    ]

-- For a type that is a struct, or pointers to one, of a list that has every struct which a struct of the
-- list embeds: with more fuel than the list has types, the map of the paths is made, and every entry has
-- a path that leads from the struct, through embedded structs and pointers, to an exported field, whose
-- name in snake case and lower case is the key.
pub struct_field_index_map-finds :
    (fuel : ℕ) (r : Reflection) (types : List TypeName) (t : GoType)
    → IsClosed r types
    → is_among same_type types (name_of (elem_of t)) ≡ true
    → unseen same_type types [] < fuel
    → (paths : List (Text × List ℕ)) × (struct_field_index_map fuel r (some t) ≡ some paths)
      × All (Leads r (name_of (elem_of t)) []) paths
unfolding struct_field_index_map discover_type_metadata
struct_field_index_map-finds fuel r types t closed i f =
    let (paths, e) = made in (paths, e, struct_field_index_map-Leads fuel r t paths e)
  where
    made : (paths : List (Text × List ℕ)) × (struct_field_index_map fuel r (some t) ≡ some paths)
    made = elim (Bool-cases (is_struct (elem_of t))) [
      | inr other ↦ ([], rw (struct_field_index_map, discover_type_metadata, other) refl)
      | inl struct ↦
          elim (Option-cases (collect_type_metadata fuel r (name_of (elem_of t)) [] [] [])) [
            | inl out ↦ absurd (
                ground (
                  arith,
                  out,
                  collect_type_metadata-ends fuel r types (name_of (elem_of t)) [] [] [] closed i f,
                ))
            | inr (m, e) ↦
                (m.field_paths, rw (struct_field_index_map, discover_type_metadata, struct, e) refl)
          ]
    ]
