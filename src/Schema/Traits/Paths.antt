-- ===== src/Schema/Traits/Paths.antt =====
-- The path of a field leads to that field.
use dorm.Prelude.{
  ℕ, zero, suc, true, Option, none, some, List, [], ◌∷◌, ◌++◌, length, length-append, append_assoc,
  ◌≡◌, refl, sym, ap, ◌∙◌, arith, All, All-append, Text, is_nil, Bool-cases, Option-cases, inl, inr,
}
use mathlib.Core.Path.{subst}
use dorm.Schema.Types.{Column}
use dorm.Schema.Names.{to_snake_case}
use dorm.Schema.GoTypes.{GoType, TypeName, GoField, elem_of, name_of}
use dorm.Schema.Columns.Reflected.{column_from_reflect_field, value_column, field_value}
use dorm.Schema.Traits.{
  TypeMetadata, Reflection, field_key, Collect, is_embedded, collect_field, join_metadata,
  collect_fields, is_seen_type, collect_type_metadata, discover_type_metadata,
  struct_field_index_map, is_struct,
}

abbrev pub nth : ℕ → List GoField → Option GoField
nth i [] = none
nth zero (x ∷ xs) = some x
nth (suc i) (x ∷ xs) = nth i xs

-- The field at a path, as `FieldByIndex` of reflect walks it through pointers and embedded structs.
unfoldable pub field_at : (TypeName → List GoField) → TypeName → List ℕ → Option GoField
unfolding name_of elem_of
field_at fields_of n [] = none
field_at fields_of n (i ∷ []) = nth i (fields_of n)
field_at fields_of n (i ∷ j ∷ rest) = elim (nth i (fields_of n)) [
  | none ↦ none
  | some field ↦ field_at fields_of (name_of (elem_of field.type_)) (j ∷ rest)
]

-- Behind a prefix, the path of the entry leads from the type to an exported field of the entry's key.
abbrev pub Leads : Reflection → TypeName → List ℕ → Text × List ℕ → Type 0
Leads r n path e =
    (p : List ℕ) × (field : GoField) × (e.1 ≡ path ++ p)
    × (field_at r.fields_of n p ≡ some field)
    × (field.exported ≡ true)
    × (e.0 ≡ field_key r field.name)

abbrev LeadsAll : Reflection → TypeName → List ℕ → Option TypeMetadata → Type 0
LeadsAll r n path none = Unit
LeadsAll r n path (some m) = All (Leads r n path) m.field_paths

join_metadata-Leads :
    (r : Reflection) (n : TypeName) (path : List ℕ) (a b : Option TypeMetadata)
    → LeadsAll r n path a
    → LeadsAll r n path b
    → LeadsAll r n path (join_metadata a b)
unfolding join_metadata
join_metadata-Leads r n path none b h i = tt
join_metadata-Leads r n path (some a) none h i = tt
join_metadata-Leads r n path (some a) (some b) h i = All-append _ a.field_paths b.field_paths h i

nth-append :
    (before : List GoField) (x : GoField) (after : List GoField)
    → nth (length before) (before ++ x ∷ after) ≡ some x
nth-append [] x after = refl
nth-append (y ∷ before) x after = nth-append before x after

-- A column has the name of its field.
column_from_reflect_field-go_name :
    (r : Reflection) (field : GoField) (traits : List Text) (c : Column)
    → column_from_reflect_field r.text r.registry field traits ≡ some c
    → c.go_name ≡ field.name
unfolding column_from_reflect_field value_column field_value
column_from_reflect_field-go_name r field traits c h =
    elim (Bool-cases (is_nil (to_snake_case r.text.unicode field.name))) [
      | inl e ↦ absurd (ground (arith, h, e))
      | inr e ↦
          let it : value_column r.text (field_value r.text r.registry field traits) ≡ c =
            ground (arith, h, e) in
          ap (λ (d : Column). d.go_name) (sym it)
    ]

-- Behind one more index, what leads from the embedded struct leads from the struct around it.
module _ (r : Reflection) (n : TypeName) (path : List ℕ) (i : ℕ) (field : GoField)
    (at_ : nth i (r.fields_of n) ≡ some field) where
  field_at-embedded :
      (p : List ℕ) (found : GoField)
      → field_at r.fields_of (name_of (elem_of field.type_)) p ≡ some found
      → field_at r.fields_of n (i ∷ p) ≡ some found
  unfolding field_at
  field_at-embedded [] found h = absurd (ground (arith, h))
  field_at-embedded (j ∷ rest) found h = rw (field_at, at_) h

  onwards :
      (es : List (Text × List ℕ))
      → All (Leads r (name_of (elem_of field.type_)) (path ++ i ∷ [])) es
      → All (Leads r n path) es
  onwards [] h = tt
  onwards (e ∷ es) ((p, found, apart, leads, exported, key), hs) = (
    (
      i ∷ p,
      found,
      apart ∙ append_assoc path (i ∷ []) p,
      field_at-embedded p found leads,
      exported,
      key,
    ),
    onwards es hs,
  )

  lifted :
      (m : Option TypeMetadata)
      → LeadsAll r (name_of (elem_of field.type_)) (path ++ i ∷ []) m
      → LeadsAll r n path m
  lifted none h = tt
  lifted (some m) h = onwards m.field_paths h

collect_field-Leads :
    (nested : Collect) (r : Reflection) (n : TypeName) (traits : List Text) (path : List ℕ) (i : ℕ)
    (field : GoField)
    → ((m : TypeName) (up : List Text) (q : List ℕ) → LeadsAll r m q (nested m up q))
    → nth i (r.fields_of n) ≡ some field
    → LeadsAll r n path (collect_field nested r traits (path ++ i ∷ []) field)
unfolding collect_field field_at
collect_field-Leads nested r n traits path i field ih at_ = elim (Bool-cases field.exported) [
  | inr hidden ↦ rw (collect_field, hidden) tt
  | inl exported ↦ elim (Bool-cases (is_embedded field)) [
    | inl inside ↦
        rw (collect_field, exported, inside)
          (lifted r n path i field at_ _ (ih _ _ (path ++ i ∷ [])))
    | inr plain ↦ elim (Option-cases (column_from_reflect_field r.text r.registry field traits)) [
      | inl e ↦ rw (collect_field, exported, plain, e) tt
      | inr (c, e) ↦
          rw (collect_field, exported, plain, e)
            (
              (
                i ∷ [],
                field,
                refl,
                at_,
                exported,
                ap (field_key r) (column_from_reflect_field-go_name r field traits c e),
              ),
              tt,
            )
    ]
  ]
]

collect_fields-Leads :
    (nested : Collect) (r : Reflection) (n : TypeName) (traits : List Text) (path : List ℕ)
    (before fields : List GoField)
    → ((m : TypeName) (up : List Text) (q : List ℕ) → LeadsAll r m q (nested m up q))
    → r.fields_of n ≡ before ++ fields
    → LeadsAll r n path (collect_fields nested r traits path (length before) fields)
unfolding collect_fields
collect_fields-Leads nested r n traits path before [] ih e = tt
collect_fields-Leads nested r n traits path before (field ∷ rest) ih e =
    join_metadata-Leads r n path _ _
      (collect_field-Leads nested r n traits path (length before) field ih
        (ap (nth (length before)) e ∙ nth-append before field rest))
      (subst (λ k. LeadsAll r n path (collect_fields nested r traits path k rest))
        (length-append before (field ∷ []))
        (collect_fields-Leads nested r n traits path (before ++ field ∷ []) rest ih
          (e ∙ sym (append_assoc before (field ∷ []) rest))))

collect_type_metadata-Leads :
    (fuel : ℕ) (r : Reflection) (n : TypeName) (traits : List Text) (path : List ℕ)
    (seen : List TypeName)
    → LeadsAll r n path (collect_type_metadata fuel r n traits path seen)
unfolding collect_type_metadata
collect_type_metadata-Leads zero r n traits path seen = tt
collect_type_metadata-Leads (suc fuel) r n traits path seen =
    elim (Bool-cases (is_seen_type seen n)) [
      | inl again ↦ rw (collect_type_metadata, again) tt
      | inr first ↦
          rw (collect_type_metadata, first)
            (collect_fields-Leads _ r n traits path [] (r.fields_of n)
              (λ m up q. collect_type_metadata-Leads fuel r m up q (n ∷ seen)) refl)
    ]

-- Every entry of the map that is made for a type, pointers to it included, has a path that leads from
-- the struct, through embedded structs and pointers, to an exported field, and its key is the name of
-- that field in snake case and lower case.
pub struct_field_index_map-Leads :
    (fuel : ℕ) (r : Reflection) (t : GoType) (paths : List (Text × List ℕ))
    → struct_field_index_map fuel r (some t) ≡ some paths
    → All (Leads r (name_of (elem_of t)) []) paths
unfolding struct_field_index_map discover_type_metadata
struct_field_index_map-Leads fuel r t paths h = elim (Bool-cases (is_struct (elem_of t))) [
  | inr other ↦
      let e : [] ≡ paths = ground (arith, h, other) in
      subst (All (Leads r (name_of (elem_of t)) [])) e tt
  | inl struct ↦ elim (Option-cases (collect_type_metadata fuel r (name_of (elem_of t)) [] [] [])) [
    | inl out ↦ absurd (ground (arith, h, struct, out))
    | inr (m, e) ↦
        let it : m.field_paths ≡ paths = ground (arith, h, struct, e) in
        subst (All (Leads r (name_of (elem_of t)) [])) it (
          subst (LeadsAll r (name_of (elem_of t)) []) e
            (collect_type_metadata-Leads fuel r (name_of (elem_of t)) [] [] []))
  ]
]
