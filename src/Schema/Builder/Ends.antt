-- ===== src/Schema/Builder/Ends.antt =====
-- The recursion over embedded structs ends: no name is entered twice.
use dorm.Prelude.{
  ℕ, zero, suc, ◌<◌, true, Option, none, some, is_some, List, [], ◌∷◌, ◌++◌, ◌≡◌, refl, arith, Text,
  text_eq, text_eq_iff, text_eq_refl, unseen, unseen_lt, is_nil, is_one_of, Bool-cases,
  Option-cases, inl, inr,
}
use dorm.Schema.GoTypes.{Expr, AstField}
use dorm.Schema.Builder.{
  StructType, StructMap, EmbeddedTypeRef, struct_of, import_of, parse_embedded_type_ref,
  resolve_embedded_struct, in_package,
}
use dorm.Schema.Builder.Columns.{
  Source, Parts, Nested, field_parts, fields_parts, join_parts, build_columns_from_struct,
  embedded_columns,
}

-- Each struct type of the package has one of the names.
abbrev pub Covers : List Text → StructMap → Type 0
Covers names types = (n : Text) → is_some (struct_of n types) ≡ true → is_one_of names n ≡ true

in_package-names :
    (names : List Text) (name : Text) (types : Option StructMap) (found : StructType × StructMap)
    → ((own : StructMap) → types ≡ some own → Covers names own)
    → in_package name types ≡ some found
    → (is_one_of names name ≡ true) × Covers names (found.1)
unfolding in_package
in_package-names names name none found covers h = absurd (ground (arith, h))
in_package-names names name (some types) found covers h =
    elim (Option-cases (struct_of name types)) [
      | inl e ↦ absurd (ground (arith, h, e))
      | inr (st, e) ↦
          let same : found.1 ≡ types = ground (arith, h, e) in
          (covers types refl name (rw e refl), rw same (covers types refl))
    ]

-- What an embedded struct resolves to has one of the names, and so has its package.
resolve_embedded_struct-names :
    (names : List Text) (load : Text → Option StructMap) (ref : EmbeddedTypeRef) (local : StructMap)
    (imports : List (Text × Text)) (found : StructType × StructMap)
    → Covers names local
    → ((path : Text) (types : StructMap) → load path ≡ some types → Covers names types)
    → resolve_embedded_struct load ref local imports ≡ some found
    → (is_one_of names ref.name ≡ true) × Covers names (found.1)
unfolding resolve_embedded_struct
resolve_embedded_struct-names names load ref local imports found own others h =
    elim (Bool-cases (is_nil ref.name)) [
      | inl e ↦ absurd (ground (arith, h, e))
      | inr named ↦ elim (Bool-cases (is_nil ref.package_)) [
        | inl here_ ↦
            in_package-names names ref.name (some local) found
              (λ types e. let same : local ≡ types = ground (arith, e) in rw (← same) own)
              (ground (arith, h, named, here_))
        | inr away ↦ elim (Bool-cases (is_nil (import_of ref.package_ imports))) [
          | inl e ↦ absurd (ground (arith, h, named, away, e))
          | inr known ↦
              in_package-names names ref.name (load (import_of ref.package_ imports)) found
                (others _) (ground (arith, h, named, away, known))
        ]
      ]
    ]

join_parts-some :
    (a b : Option Parts) → is_some a ≡ true → is_some b ≡ true → is_some (join_parts a b) ≡ true
unfolding join_parts
join_parts-some none b h i = absurd (ground (arith, h))
join_parts-some (some a) none h i = absurd (ground (arith, i))
join_parts-some (some a) (some b) h i = refl

-- The loop over the fields ends when what is nested ends.
module _ (names : List Text) (nested : Nested) (s : Source) (local : StructMap) (traits : List Text)
    (own : Covers names local)
    (others : (path : Text) (types : StructMap) → s.load path ≡ some types → Covers names types)
    (ends : (n : Text) (st : StructType) (types : StructMap) (up : List Text)
      → is_one_of names n ≡ true
      → Covers names types
      → is_some (nested n st types up) ≡ true) where
  embedded_columns-ends : (e : Expr) → is_some (embedded_columns nested s local traits e) ≡ true
  unfolding embedded_columns
  embedded_columns-ends e = elim (Option-cases (parse_embedded_type_ref e)) [
    | inl none_ ↦ rw (embedded_columns, none_) refl
    | inr (ref, some_) ↦ elim (Option-cases (resolve_embedded_struct s.load ref local s.imports)) [
      | inl lost ↦ rw (embedded_columns, some_, lost) refl
      | inr (found, held) ↦
          let (n, covers) =
            resolve_embedded_struct-names names s.load ref local s.imports found own others held in
          rw (embedded_columns, some_, held)
            (ends ref.name (found.0) (found.1) (traits ++ ref.name ∷ []) n covers)
    ]
  ]

  field_parts-ends :
      (field : AstField) (ns : List Text)
      → is_some (field_parts nested s local traits field ns) ≡ true
  unfolding field_parts
  field_parts-ends field [] = embedded_columns-ends field.type_
  field_parts-ends field (n ∷ ns) = refl

  fields_parts-ends :
      (fields : StructType) → is_some (fields_parts nested s local traits fields) ≡ true
  unfolding fields_parts
  fields_parts-ends [] = refl
  fields_parts-ends (field ∷ rest) =
      join_parts-some _ _ (field_parts-ends field field.names) (fields_parts-ends rest)

-- A table of names that is known to be finite is enough: with more fuel than names that have not been
-- seen, the columns are built.
pub build_columns_from_struct-ends :
    (names : List Text) (s : Source) (fuel : ℕ) (name : Text) (st : StructType) (local : StructMap)
    (traits seen : List Text)
    → is_one_of names name ≡ true
    → Covers names local
    → ((path : Text) (types : StructMap) → s.load path ≡ some types → Covers names types)
    → unseen text_eq names seen < fuel
    → is_some (build_columns_from_struct fuel s name st local traits seen) ≡ true
unfolding build_columns_from_struct
build_columns_from_struct-ends names s zero name st local traits seen n own others f =
    absurd (ground (arith, f))
build_columns_from_struct-ends names s (suc fuel) name st local traits seen n own others f =
    elim (Bool-cases (is_one_of seen name)) [
      | inl again ↦ rw again refl
      | inr first ↦ rw first (
          fields_parts-ends names _ s local traits own others
            (λ m nested types up h covers.
              build_columns_from_struct-ends names s fuel m nested types up (name ∷ seen) h covers
                others
                (omega (
                  arith,
                  f,
                  unseen_lt text_eq (λ a b. (text_eq_iff a b).0) text_eq_refl names seen name n
                      first,
                )))
            st)
    ]
