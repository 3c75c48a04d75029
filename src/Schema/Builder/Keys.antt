-- ===== src/Schema/Builder/Keys.antt =====
-- The constraints of the table that is built are those of its key columns.
mod Loop
use dorm.Prelude.{
  ℕ, ◌<◌, Option-cases, unseen, is_one_of, Option, some, none, text_eq, arith, inl, inr, Bool-cases,
  ◌+◌, ◌≡◌, ◌⊎◌, ◌↔◌, refl, sym, ap, ◌∙◌, append_assoc, Bool, true, false, not, ◌||◌, List, [], ◌∷◌,
  ◌++◌, length, length-append, In, here, there, All, All-In, In-append_left, In-append_right,
  In-append_split, In-single, Text, txt, text_eq_iff, text_eq_refl, is_nil, if◌then◌else◌, any,
}
use mathlib.Core.Path.{subst, subst⁻¹}
use dorm.Schema.Builder.{StructType, StructMap}
use dorm.Schema.Builder.Columns.{Source, Parts, build_columns_from_struct}
use dorm.Schema.Builder.Ends.{Covers, build_columns_from_struct-ends}
use dorm.Schema.Types.{Column, Constraint, ConstraintKind, Table, primary_key, unique}
use dorm.Schema.Columns.{GoText}
use dorm.Schema.Builder.Tables.{
  has_primary_key, primary_key_columns, constraint_exists, make_id_key, constraint_of, unique_name,
  table_name, unique_constraints, key_constraints, keyed_columns, assemble_table,
  build_table_from_type,
}
use dorm.Schema.Builder.Keys.Loop.{
  IsNamed, unique_of, key_of, unique_constraints-keeps, unique_constraints-has,
  unique_constraints-origin,
}

-- Why a constraint is there: it is that of a primary key with a column, or of a unique column that is
-- not of the key.
abbrev pub IsKeyConstraint : Table → Constraint → Type 0
IsKeyConstraint t k =
    ((is_nil (primary_key_columns t.columns) ≡ false) × (k ≡ key_of t.name t.columns))
    ⊎ ((c : Column) × In c t.columns
        × ((not c.unique || c.primary_key) ≡ false)
        × (k ≡ unique_of t.name c))

key_constraints-IsNamed :
    (table : Text) (cols : List Column) → All (IsNamed table cols) (key_constraints table cols)
unfolding key_constraints
key_constraints-IsNamed table cols = elim (Bool-cases (is_nil (primary_key_columns cols))) [
  | inl e ↦ rw (key_constraints, e) tt
  | inr e ↦ rw (key_constraints, e) (inl refl, tt)
]

not-In : {A : Type 0} {x : A} → In x [] → ⊥
not-In i = elim i [ ]

key_constraints-origin :
    (table : Text) (cols : List Column) {k : Constraint}
    → In k (key_constraints table cols)
    → (is_nil (primary_key_columns cols) ≡ false) × (k ≡ key_of table cols)
unfolding key_constraints
key_constraints-origin table cols {k} i = elim (Bool-cases (is_nil (primary_key_columns cols))) [
  | inl e ↦ absurd (not-In (subst (λ l. In k l) (rw (key_constraints, e) refl) i))
  | inr e ↦ (e, In-single (subst (λ l. In k l) (rw (key_constraints, e) refl) i))
]

key_constraints-has :
    (table : Text) (cols : List Column)
    → is_nil (primary_key_columns cols) ≡ false
    → In (key_of table cols) (key_constraints table cols)
unfolding key_constraints
key_constraints-has table cols e = rw (key_constraints, e) here

-- The constraints of a table are exactly those of its key columns.
pub assemble_table-constraints :
    (g : GoText) (directives : Text → List (Text × Text)) (type_name package_name doc : Text)
    (parts : Parts) (k : Constraint)
    → let t = assemble_table g directives type_name package_name doc parts in
      In k t.constraints ↔ IsKeyConstraint t k
unfolding assemble_table
assemble_table-constraints g directives type_name package_name doc parts k = (
  λ i. elim (unique_constraints-origin table keys cols i) [
    | inl j ↦ inl (key_constraints-origin table cols j)
    | inr h ↦ inr h
  ],
  λ h. elim h [
    | inl (filled, e) ↦
        subst⁻¹ (λ x. In x made) e
          (unique_constraints-keeps table keys cols (key_constraints-has table cols filled))
    | inr (c, i, wanted, e) ↦
        subst⁻¹ (λ x. In x made) e
          (unique_constraints-has table cols keys cols (key_constraints-IsNamed table cols) i
            wanted)
  ],
)
  where
    table : Text
    table = table_name g directives doc type_name

    cols : List Column
    cols = keyed_columns (parts.0)

    keys : List Constraint
    keys = key_constraints table cols

    made : List Constraint
    made = unique_constraints table keys cols

-- For a struct whose package, and each package that the resolver loads, has only struct types of a list
-- of names that has the struct's: with more fuel than the list has names, the table is built, and a
-- constraint is one of its own exactly when it is that of the primary key, which lists the names of the
-- key columns in order and is there when there is one, or that of a unique column outside the key.
pub build_table_from_type-constraints :
    (names : List Text) (fuel : ℕ) (directives : Text → List (Text × Text)) (s : Source)
    (type_name : Text) (st : StructType) (package_name doc : Text) (types : StructMap)
    → is_one_of names type_name ≡ true
    → Covers names types
    → ((path : Text) (loaded : StructMap) → s.load path ≡ some loaded → Covers names loaded)
    → unseen text_eq names [] < fuel
    → (t : Table) × (build_table_from_type fuel directives s type_name st package_name doc types
        ≡ some t)
      × ((k : Constraint) → In k t.constraints ↔ IsKeyConstraint t k)
unfolding build_table_from_type
build_table_from_type-constraints names fuel directives s type_name st package_name doc types n own
      others f =
    let named = record s { table = table_name s.text directives doc type_name } in
    let ends =
      build_columns_from_struct-ends names named fuel type_name st types [] [] n own others f in
    elim (Option-cases (build_columns_from_struct fuel named type_name st types [] [])) [
      | inl out ↦ absurd (ground (arith, ends, out))
      | inr (parts, e) ↦ (
        assemble_table s.text directives type_name package_name doc parts,
        rw (build_table_from_type, e) refl,
        assemble_table-constraints s.text directives type_name package_name doc parts,
      )
    ]
