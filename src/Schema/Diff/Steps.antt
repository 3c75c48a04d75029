-- ===== src/Schema/Diff/Steps.antt =====
-- Where the operations of a comparison come from.
use dorm.Prelude.{
  Bool, Option, none, some, Option-cases, List, [], ◌∷◌, ◌++◌, flat, ◌≡◌, refl, Text, text_eq, All,
  In, here, there, Bool-cases, inl, inr,
}
use dorm.Schema.Types.{Schema, Table, Column, Index, Constraint}
use dorm.Schema.Keys.{entry, insert_by, sort_by, sorted_keys}
use dorm.Schema.Diff.{
  Operation, on_table, create_table, drop_table, add_column, drop_column, alter_column,
  create_index, drop_index, create_constraint, drop_constraint, kept, gone, compare_parts,
  changed_column, changed_index, changed_constraint, changed_table, compare_table, sort_schema,
  compare_schemas, operation_le, columns_equal, indexes_equal, constraints_equal,
}

-- The operations that lead to a list of tables: a created table and a created constraint are theirs.
pub data IsStepTo (tables : List Table) : Operation → Type 0 where
  creates_table :
      (t : Table)
      → In t tables
      → IsStepTo tables (record (on_table create_table t.name) { table_def = some t })
  drops_table :
      (t : Table) → IsStepTo tables (record (on_table drop_table t.name) { table_def = some t })
  adds_column :
      (n : Text) (c : Column) → IsStepTo tables (record (on_table add_column n) { column = some c })
  drops_column :
      (n : Text) (c : Column)
      → IsStepTo tables (record (on_table drop_column n) { column = some c })
  alters_column :
      (n : Text) (c p : Column)
      → IsStepTo tables (record (on_table alter_column n) { column = some c; previous = some p })
  creates_index :
      (n : Text) (i : Index) → IsStepTo tables (record (on_table create_index n) { index = some i })
  drops_index :
      (n : Text) (i : Index) → IsStepTo tables (record (on_table drop_index n) { index = some i })
  creates_constraint :
      (t : Table) (c : Constraint)
      → In t tables
      → In c t.constraints
      → IsStepTo tables (record (on_table create_constraint t.name) { constraint = some c })
  drops_constraint :
      (n : Text) (c : Constraint)
      → IsStepTo tables (record (on_table drop_constraint n) { constraint = some c })

module _ {A : Type 0} (P : A → Type 0) where
  All-append : (xs ys : List A) → All P xs → All P ys → All P (xs ++ ys)
  All-append [] ys h g = g
  All-append (x ∷ xs) ys h g = (h.0, All-append xs ys h.1 g)

  All-flat : (f : Text → List A) (ks : List Text) → ((k : Text) → All P (f k)) → All P (flat f ks)
  All-flat f [] h = tt
  All-flat f (k ∷ ks) h = All-append (f k) (flat f ks) (h k) (All-flat f ks h)

  All-insert_by :
      (le : A → A → Bool) (x : A) (xs : List A) → P x → All P xs → All P (insert_by le x xs)
  unfolding insert_by
  All-insert_by le x [] h g = (h, tt)
  All-insert_by le x (y ∷ ys) h g = elim (Bool-cases (le x y)) [
    | inl e ↦ rw e (h, g)
    | inr e ↦ rw e (g.0, All-insert_by le x ys h g.1)
  ]

  pub All-sort_by : (le : A → A → Bool) (xs : List A) → All P xs → All P (sort_by le xs)
  unfolding sort_by
  All-sort_by le [] h = tt
  All-sort_by le (x ∷ xs) h = All-insert_by le x (sort_by le xs) h.0 (All-sort_by le xs h.1)

some_injective : {A : Type 0} {y x : A} → some y ≡ some x → y ≡ x
some_injective p = cc

In-first : {A : Type 0} {x y : A} {ys : List A} → some y ≡ some x → In x (y ∷ ys)
In-first {A = A} {x = x} {y = y} {ys = ys} p = rw (← some_injective p) here

In-entry :
    {A : Type 0} (name : A → Text) (k : Text) (xs : List A) {x : A}
    → entry name k xs ≡ some x
    → In x xs
unfolding entry
In-entry name k [] h = cc
In-entry name k (y ∷ ys) h = elim (Option-cases (entry name k ys)) [
  | inr (w, e) ↦ there (In-entry name k ys (rw e (rw e at h)))
  | inl e ↦ elim (Bool-cases (text_eq (name y) k)) [
    | inl same ↦ In-first (rw (e, same) at h)
    | inr other ↦ cc (rw (e, other) at h)
  ]
]

module _ {A : Type 0} (name : A → Text) (changed : A → Option A → List Operation)
    (dropped : A → Operation) (P : Operation → Type 0) (expected : List A)
    (due : (e : A) → In e expected → (x : Option A) → All P (changed e x))
    (undone : (a : A) → P (dropped a)) where
  kept-All :
      (x y : Option A)
      → ((e : A) → x ≡ some e → In e expected)
      → All P (kept name changed dropped x y)
  unfolding kept
  kept-All none y h = tt
  kept-All (some e) y h = due e (h e refl) y

  gone-All : (x y : Option A) → All P (gone name changed dropped x y)
  unfolding gone
  gone-All none none = tt
  gone-All none (some a) = (undone a, tt)
  gone-All (some e) y = tt

  compare_parts-All : (actual : List A) → All P (compare_parts name changed dropped expected actual)
  unfolding compare_parts
  compare_parts-All actual =
      All-append P _ _
        (All-flat P _ (sorted_keys name expected) (λ k.
          kept-All (entry name k expected) (entry name k actual)
            (λ e h. In-entry name k expected h)))
        (All-flat P _ (sorted_keys name actual)
          (λ k. gone-All (entry name k expected) (entry name k actual)))

module _ (tables : List Table) (e : Table) (known : In e tables) where
  changed_column-IsStepTo :
      (c : Column) (x : Option Column) → All (IsStepTo tables) (changed_column e.name c x)
  unfolding changed_column
  changed_column-IsStepTo c none = (adds_column e.name c, tt)
  changed_column-IsStepTo c (some p) = elim (Bool-cases (columns_equal c p)) [
    | inl same ↦ rw same tt
    | inr other ↦ rw other (alters_column e.name c p, tt)
  ]

  changed_index-IsStepTo :
      (c : Index) (x : Option Index) → All (IsStepTo tables) (changed_index e.name c x)
  unfolding changed_index
  changed_index-IsStepTo c none = (creates_index e.name c, tt)
  changed_index-IsStepTo c (some p) = elim (Bool-cases (indexes_equal c p)) [
    | inl same ↦ rw same tt
    | inr other ↦ rw other (creates_index e.name c, tt)
  ]

  changed_constraint-IsStepTo :
      (c : Constraint)
      → In c e.constraints
      → (x : Option Constraint) → All (IsStepTo tables) (changed_constraint e.name c x)
  unfolding changed_constraint
  changed_constraint-IsStepTo c i none = (creates_constraint e c known i, tt)
  changed_constraint-IsStepTo c i (some p) = elim (Bool-cases (constraints_equal c p)) [
    | inl same ↦ rw same tt
    | inr other ↦ rw other (creates_constraint e c known i, tt)
  ]

-- The operations of two tables, of which the expected one is among `tables`.
compare_table-IsStepTo :
    (tables : List Table) (e a : Table) → In e tables → All (IsStepTo tables) (compare_table e a)
unfolding compare_table
compare_table-IsStepTo tables e a i =
    let P = IsStepTo tables in
    All-append P _ _
      (compare_parts-All (λ c. c.name) (changed_column e.name) _ P e.columns
        (λ c j x. changed_column-IsStepTo tables e i c x) (λ c. drops_column e.name c) a.columns)
      (All-append P _ _
        (compare_parts-All (λ c. c.name) (changed_index e.name) _ P e.indexes
          (λ c j x. changed_index-IsStepTo tables e i c x) (λ c. drops_index e.name c) a.indexes)
        (compare_parts-All (λ c. c.name) (changed_constraint e.name) _ P e.constraints
          (λ c j x. changed_constraint-IsStepTo tables e i c j x) (λ c. drops_constraint e.name c)
          a.constraints))

changed_table-IsStepTo :
    (tables : List Table) (e : Table)
    → In e tables
    → (x : Option Table) → All (IsStepTo tables) (changed_table e x)
unfolding changed_table
changed_table-IsStepTo tables e i none = (creates_table e i, tt)
changed_table-IsStepTo tables e i (some a) = compare_table-IsStepTo tables e a i

-- Every operation of the comparison has one of nine forms, with the parts that its kind needs; the
-- tables and constraints that are created are the expected schema's.
pub compare_schemas-IsStepTo :
    (e a : Schema) → All (IsStepTo (sort_schema e).tables) (compare_schemas e a)
unfolding compare_schemas
compare_schemas-IsStepTo e a =
    let tables = (sort_schema e).tables in
    All-sort_by (IsStepTo tables) operation_le _ (
      compare_parts-All (λ t. t.name) changed_table _ (IsStepTo tables) tables
        (changed_table-IsStepTo tables) drops_table (sort_schema a).tables)
