-- ===== src/Dialect/Postgres/Migration/Complete.antt =====
-- The difference of two schemas can be rendered.
use dorm.Prelude.{
  suc, Bool, true, false, some, List, [], ◌∷◌, map, ◌≡◌, refl, ap, arith, Text, is_nil, length, All,
  All-In, Bool-cases, inl, inr,
}
use dorm.Errors.{Result, ok, err, Result-cases}
use dorm.Schema.Types.{ConstraintKind, Constraint, Table, Schema}
use dorm.Schema.Names.{Unicode}
use dorm.Schema.Keys.{insert_by, sort_by}
use dorm.Schema.Diff.{Operation, sort_table, sort_schema, compare_schemas, compare}
use dorm.Schema.Diff.Steps.{
  IsStepTo, creates_table, drops_table, adds_column, drops_column, alters_column, creates_index,
  drops_index, creates_constraint, drops_constraint, All-sort_by, compare_schemas-IsStepTo,
}
use dorm.Dialect.Postgres.Migration.{
  table_constraints, render_table_constraint, render_create_table, render_operation,
  render_migration, with_part,
}

abbrev is_ok : {A : Type 0} → Result A → Bool
is_ok (ok a) = true
is_ok (err e) = false

abbrev is_supported : ConstraintKind → Bool
is_supported (ConstraintKind.other k) = false
is_supported _ = true

-- A table with a name and a column, whose constraints are of the four known kinds.
pub record IsRenderable (t : Table) : Type 0 where
  pub named : is_nil t.name ≡ false
  pub filled : is_nil t.columns ≡ false
  pub supported : All (λ c. is_supported c.kind ≡ true) t.constraints

module _ (quote : Text → Text) (u : Unicode) where
  render_constraint-is_ok :
      (c : Constraint) → is_supported c.kind ≡ true → is_ok (render_table_constraint quote c) ≡ true
  unfolding render_table_constraint
  render_constraint-is_ok c h = ground arith

  table_constraints-is_ok :
      (cs : List Constraint)
      → All (λ c. is_supported c.kind ≡ true) cs
      → is_ok (table_constraints quote cs) ≡ true
  unfolding table_constraints
  table_constraints-is_ok [] h = refl
  table_constraints-is_ok (c ∷ cs) h =
      ground (arith, render_constraint-is_ok c h.0, table_constraints-is_ok cs h.1)

  create_table-is_ok :
      (t : Table) → IsRenderable t → is_ok (render_create_table quote u t.name (some t)) ≡ true
  unfolding render_create_table
  create_table-is_ok t h =
      ground (arith, h.named, h.filled, table_constraints-is_ok t.constraints h.supported)

  step-is_ok :
      (tables : List Table) {op : Operation}
      → All IsRenderable tables
      → IsStepTo tables op
      → is_ok (render_operation quote u op) ≡ true
  unfolding render_operation with_part
  step-is_ok tables h (creates_table t i) = create_table-is_ok t (All-In IsRenderable tables h i)
  step-is_ok tables h (drops_table t) = refl
  step-is_ok tables h (adds_column n c) = refl
  step-is_ok tables h (drops_column n c) = refl
  step-is_ok tables h (alters_column n c p) = refl
  step-is_ok tables h (creates_index n i) = refl
  step-is_ok tables h (drops_index n i) = refl
  step-is_ok tables h (creates_constraint t c i j) =
      let fine = render_constraint-is_ok c (
        All-In (λ (x : Constraint). is_supported x.kind ≡ true) t.constraints
          (All-In IsRenderable tables h i).supported j) in
      ground (arith, fine)
  step-is_ok tables h (drops_constraint n c) = refl

  migration-is_ok :
      (tables : List Table) (ops : List Operation)
      → All IsRenderable tables
      → All (IsStepTo tables) ops
      → (out : List Text) × (render_migration quote u ops ≡ ok out) × (length out ≡ length ops)
  unfolding render_migration
  migration-is_ok tables [] h g = ([], refl, refl)
  migration-is_ok tables (op ∷ ops) h g = elim (Result-cases (render_operation quote u op)) [
    | inl (sql, e) ↦
        let (out, f, n) = migration-is_ok tables ops h g.1 in (sql ∷ out, rw (e, f) refl, ap suc n)
    | inr (x, e) ↦ cc (rw e at (step-is_ok tables h g.0))
  ]

insert_by-is_nil :
    {A : Type 0} (le : A → A → Bool) (x : A) (xs : List A) → is_nil (insert_by le x xs) ≡ false
unfolding insert_by
insert_by-is_nil le x [] = refl
insert_by-is_nil le x (y ∷ ys) = elim (Bool-cases (le x y)) [
  | inl e ↦ rw e refl
  | inr e ↦ rw e refl
]

sort_by-is_nil : {A : Type 0} (le : A → A → Bool) (xs : List A) → is_nil (sort_by le xs) ≡ is_nil xs
unfolding sort_by
sort_by-is_nil le [] = refl
sort_by-is_nil le (x ∷ xs) = insert_by-is_nil le x (sort_by le xs)

sort_table-IsRenderable : (t : Table) → IsRenderable t → IsRenderable (sort_table t)
unfolding sort_table
sort_table-IsRenderable t h = record {
  named = h.named;
  filled = rw (sort_by-is_nil _ t.columns) h.filled;
  supported = All-sort_by (λ c. is_supported c.kind ≡ true) _ t.constraints h.supported;
}

sort_tables-IsRenderable :
    (ts : List Table) → All IsRenderable ts → All IsRenderable (map sort_table ts)
sort_tables-IsRenderable [] h = tt
sort_tables-IsRenderable (t ∷ ts) h =
    (sort_table-IsRenderable t h.0, sort_tables-IsRenderable ts h.1)

-- Where each table of the expected schema has a name, a column, and constraints of the known kinds
-- only, the comparison with any schema succeeds, and its operations are rendered as a migration with
-- one statement for each.
pub render-compare :
    (quote : Text → Text) (u : Unicode) (e a : Schema)
    → All IsRenderable e.tables
    → (ops : List Operation) × (out : List Text) × (compare (some e) (some a) ≡ ok ops)
      × (render_migration quote u ops ≡ ok out)
      × (length out ≡ length ops)
unfolding compare sort_schema
render-compare quote u e a h =
    let tables =
      All-sort_by IsRenderable _ (map sort_table e.tables) (sort_tables-IsRenderable e.tables h) in
    let (out, f, n) =
      migration-is_ok quote u (sort_schema e).tables (compare_schemas e a) tables
        (compare_schemas-IsStepTo e a) in
    (compare_schemas e a, out, refl, f, n)
