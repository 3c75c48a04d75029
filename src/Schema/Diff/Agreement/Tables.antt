-- ===== src/Schema/Diff/Agreement/Tables.antt =====
-- compareTable of schema/diff.go: when two tables have no difference, before and after they are sorted.
use dorm.Prelude.{Bool, true, false, some, [], ◌≡◌, ◌↔◌, refl, arith, Text, text_eq_refl}
use dorm.Schema.Types.{Table, Column, Index, Constraint}
use dorm.Schema.Keys.{entry}
use dorm.Schema.Keys.Entries.{entry-sort_by}
use dorm.Schema.Diff.{
  columns_equal, indexes_equal, constraints_equal, changed_column, changed_index, same_flag,
  changed_constraint, compare_table, sort_table,
}
use dorm.Schema.Diff.Agreement.Parts.{
  Agree, append_nil, cons_nil, nil_append, compare_parts_iff, Agree-refl,
}

-- What two tables share that the comparison cannot tell apart.
pub record SameTable (e a : Table) : Type 0 where
  pub columns :
      (k : Text)
      → Agree
          (λ x y. columns_equal x y ≡ true)
          (entry (λ c. c.name) k e.columns)
          (entry (λ c. c.name) k a.columns)
  pub indexes :
      (k : Text)
      → Agree
          (λ x y. indexes_equal x y ≡ true)
          (entry (λ i. i.name) k e.indexes)
          (entry (λ i. i.name) k a.indexes)
  pub constraints :
      (k : Text)
      → Agree
          (λ x y. constraints_equal x y ≡ true)
          (entry (λ c. c.name) k e.constraints)
          (entry (λ c. c.name) k a.constraints)

changed_column_iff :
    (t : Text) (e a : Column) → (changed_column t e (some a) ≡ []) ↔ (columns_equal e a ≡ true)
unfolding changed_column
changed_column_iff t e a = ground arith

changed_index_iff :
    (t : Text) (e a : Index) → (changed_index t e (some a) ≡ []) ↔ (indexes_equal e a ≡ true)
unfolding changed_index
changed_index_iff t e a = ground arith

changed_constraint_iff :
    (t : Text) (e a : Constraint)
    → (changed_constraint t e (some a) ≡ []) ↔ (constraints_equal e a ≡ true)
unfolding changed_constraint
changed_constraint_iff t e a = ground arith

pub compare_table_iff : (e a : Table) → (compare_table e a ≡ []) ↔ SameTable e a
unfolding compare_table changed_column changed_index changed_constraint
compare_table_iff e a =
    let t = e.name in
    let cols =
      compare_parts_iff (λ c. c.name) (changed_column t) _ _ (λ c. cons_nil) (changed_column_iff t)
        e.columns a.columns in
    let ixs =
      compare_parts_iff (λ c. c.name) (changed_index t) _ _ (λ c. cons_nil) (changed_index_iff t)
        e.indexes a.indexes in
    let cons =
      compare_parts_iff (λ c. c.name) (changed_constraint t) _ _ (λ c. cons_nil)
        (changed_constraint_iff t) e.constraints a.constraints in
    (
      λ h.
          let (first, rest) = append_nil _ _ h in
          let (second, third) = append_nil _ _ rest in
          record { columns = cols.0 first; indexes = ixs.0 second; constraints = cons.0 third },
      λ h. nil_append (cols.1 h.columns) (nil_append (ixs.1 h.indexes) (cons.1 h.constraints)),
    )

pub SameTable-sorted : (e a : Table) → SameTable e a → SameTable (sort_table e) (sort_table a)
unfolding sort_table
SameTable-sorted e a h = record {
  columns = λ k.
      rw (entry-sort_by (λ c. c.name) k e.columns, entry-sort_by (λ c. c.name) k a.columns)
        (h.columns k);
  indexes = λ k.
      rw (entry-sort_by (λ c. c.name) k e.indexes, entry-sort_by (λ c. c.name) k a.indexes)
        (h.indexes k);
  constraints = λ k.
      rw (entry-sort_by (λ c. c.name) k e.constraints, entry-sort_by (λ c. c.name) k a.constraints)
        (h.constraints k);
}

-- The same table, sorted on one side only.
pub SameTable-half : (e a : Table) → SameTable e a → SameTable e (sort_table a)
unfolding sort_table
SameTable-half e a h = record {
  columns = λ k. rw (entry-sort_by (λ c. c.name) k a.columns) (h.columns k);
  indexes = λ k. rw (entry-sort_by (λ c. c.name) k a.indexes) (h.indexes k);
  constraints = λ k. rw (entry-sort_by (λ c. c.name) k a.constraints) (h.constraints k);
}

pub SameTable-unsorted : (e a : Table) → SameTable (sort_table e) (sort_table a) → SameTable e a
unfolding sort_table
SameTable-unsorted e a h = record {
  columns = λ k.
      rw (entry-sort_by (λ c. c.name) k e.columns, entry-sort_by (λ c. c.name) k a.columns) at
        (h.columns k);
  indexes = λ k.
      rw (entry-sort_by (λ c. c.name) k e.indexes, entry-sort_by (λ c. c.name) k a.indexes) at
        (h.indexes k);
  constraints = λ k.
      rw (entry-sort_by (λ c. c.name) k e.constraints, entry-sort_by (λ c. c.name) k a.constraints)
        at (h.constraints k);
}

same_flag_refl : (b : Bool) → same_flag b b ≡ true
same_flag_refl true = refl
same_flag_refl false = refl

columns_equal_refl : (c : Column) → columns_equal c c ≡ true
unfolding columns_equal
columns_equal_refl c = simp (text_eq_refl, same_flag_refl)

indexes_equal_refl : (i : Index) → indexes_equal i i ≡ true
unfolding indexes_equal
indexes_equal_refl i = simp (text_eq_refl, same_flag_refl)

constraints_equal_refl : (c : Constraint) → constraints_equal c c ≡ true
unfolding constraints_equal
constraints_equal_refl c = simp text_eq_refl

pub SameTable-refl : (t : Table) → SameTable t t
SameTable-refl t = record {
  columns = λ k. Agree-refl _ columns_equal_refl (entry (λ c. c.name) k t.columns);
  indexes = λ k. Agree-refl _ indexes_equal_refl (entry (λ i. i.name) k t.indexes);
  constraints = λ k. Agree-refl _ constraints_equal_refl (entry (λ c. c.name) k t.constraints);
}
