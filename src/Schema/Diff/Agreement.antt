-- ===== src/Schema/Diff/Agreement.antt =====
-- When the comparison of two schemas finds nothing: an independent description of what it compares.
mod Parts
mod Tables
use dorm.Prelude.{
  Bool, true, false, Option, none, some, is_some, List, [], ◌∷◌, ◌++◌, map, flat, ◌≡◌, ◌≢◌, ◌↔◌,
  refl, sym, ◌∙◌, ap, arith, Text, text_eq_refl, In, here, there, Bool-cases, Option-cases, ◌⊎◌,
  inl, inr,
}
use dorm.Errors.{ok}
use dorm.Schema.Types.{Schema, Table, Column, Index, Constraint}
use dorm.Schema.Keys.{entry, sort_by, insert_by, sorted_keys}
use dorm.Schema.Keys.Entries.{entry-sort_by, entry-map, In-sorted_keys}
use dorm.Schema.Diff.{
  Operation, kept, gone, compare_parts, columns_equal, indexes_equal, constraints_equal,
  changed_column, changed_index, same_flag, changed_constraint, changed_table, compare_table,
  sort_table, sort_schema, compare_schemas, compare, operation_le,
}
pub use dorm.Schema.Diff.Agreement.Parts.{Agree}
use dorm.Schema.Diff.Agreement.Parts.{cons_nil, some_inj, compare_parts_iff, Agree-refl}
pub use dorm.Schema.Diff.Agreement.Tables.{SameTable}
use dorm.Schema.Diff.Agreement.Tables.{
  compare_table_iff, SameTable-sorted, SameTable-unsorted, SameTable-half, SameTable-refl,
}

-- The entries of the sorted tables, against those of the tables as given.
sorted_entry : (s : Schema) (k : Text) → Option Table
unfolding entry sort_schema
sorted_entry s k = entry (λ t. t.name) k (sort_schema s).tables

sorted_entry-cases :
    (s : Schema) (k : Text)
    → ((entry (λ t. t.name) k s.tables ≡ none) × (sorted_entry s k ≡ none))
      ⊎ ((t : Table) × (entry (λ t. t.name) k s.tables ≡ some t)
          × (sorted_entry s k ≡ some (sort_table t)))
unfolding sorted_entry sort_schema sort_table
sorted_entry-cases s k =
    let (absent, present) = entry-map (λ t. t.name) sort_table k s.tables (λ t. refl) in
    let sorted = entry-sort_by (λ t. t.name) k (map sort_table s.tables) in
    elim (Option-cases (entry (λ t. t.name) k s.tables)) [
      | inl e ↦ inl (e, sorted ∙ absent e)
      | inr (t, e) ↦ inr (t, e, sorted ∙ present t e)
    ]

Agree-sorted :
    (e a : Schema) (k : Text)
    → Agree SameTable (entry (λ t. t.name) k e.tables) (entry (λ t. t.name) k a.tables)
    → Agree SameTable (sorted_entry e k) (sorted_entry a k)
Agree-sorted e a k h = elim (sorted_entry-cases e k) [
  | inl (n, m) ↦ elim (sorted_entry-cases a k) [
    | inl (p, q) ↦ record { both = rw (m, q); related = λ x y u v. cc }
    | inr (t, p, q) ↦ cc (h.both)
  ]
  | inr (t, n, m) ↦ elim (sorted_entry-cases a k) [
    | inl (p, q) ↦ cc (h.both)
    | inr (t', p, q) ↦ record {
      both = rw (m, q);
      related = λ x y u v.
          rw (← some_inj (sym m ∙ u), ← some_inj (sym q ∙ v))
            (SameTable-sorted t t' (h.related t t' n p));
    }
  ]
]

Agree-unsorted :
    (e a : Schema) (k : Text)
    → Agree SameTable (sorted_entry e k) (sorted_entry a k)
    → Agree SameTable (entry (λ t. t.name) k e.tables) (entry (λ t. t.name) k a.tables)
Agree-unsorted e a k h = elim (sorted_entry-cases e k) [
  | inl (n, m) ↦ elim (sorted_entry-cases a k) [
    | inl (p, q) ↦ record { both = rw (n, p); related = λ x y u v. cc }
    | inr (t, p, q) ↦ cc (h.both)
  ]
  | inr (t, n, m) ↦ elim (sorted_entry-cases a k) [
    | inl (p, q) ↦ cc (h.both)
    | inr (t', p, q) ↦ record {
      both = rw (n, p);
      related = λ x y u v.
          rw (← some_inj (sym n ∙ u), ← some_inj (sym p ∙ v))
            (SameTable-unsorted t t' (h.related (sort_table t) (sort_table t') m q));
    }
  ]
]

insert_by-filled : {A : Type 0} (le : A → A → Bool) (x : A) (xs : List A) → insert_by le x xs ≢ []
unfolding insert_by
insert_by-filled le x [] h = cc
insert_by-filled le x (y ∷ ys) h = elim (Bool-cases (le x y)) [
  | inl e ↦ cons_nil (rw e at h)
  | inr e ↦ cons_nil (rw e at h)
]

sort_by-nil : {A : Type 0} (le : A → A → Bool) (xs : List A) → (sort_by le xs ≡ []) ↔ (xs ≡ [])
unfolding sort_by
sort_by-nil le [] = (λ h. refl, λ h. refl)
sort_by-nil le (x ∷ xs) =
    (λ h. absurd (insert_by-filled le x (sort_by le xs) h), λ h. absurd (cons_nil h))

compare_schemas_iff :
    (e a : Schema)
    → (compare_schemas e a ≡ [])
      ↔ ((k : Text) → Agree SameTable (sorted_entry e k) (sorted_entry a k))
unfolding compare_schemas changed_table sorted_entry
compare_schemas_iff e a =
    let parts =
      compare_parts_iff (λ t. t.name) changed_table _ SameTable (λ t. cons_nil) compare_table_iff
        (sort_schema e).tables (sort_schema a).tables in
    (
      λ h. parts.0 ((sort_by-nil operation_le _).0 h),
      λ h. (sort_by-nil operation_le _).1 (parts.1 h),
    )

-- The comparison of two schemas finds no operation exactly when, for each name, both have a table
-- of that name or neither does, and the two tables, if there are any, have columns, indexes and
-- constraints of the same names that pass the comparison of columns, indexes and constraints; where
-- a name occurs more than once the last one counts, and the order of the parts does not matter.
pub compare-iff_same :
    (e a : Schema)
    → (compare (some e) (some a) ≡ ok []) ↔ (
        (k : Text)
        → Agree SameTable (entry (λ t. t.name) k e.tables) (entry (λ t. t.name) k a.tables))
unfolding compare
compare-iff_same e a = (
  λ h k. Agree-unsorted e a k ((compare_schemas_iff e a).0 (ok_inj h) k),
  λ h. ap ok ((compare_schemas_iff e a).1 (λ k. Agree-sorted e a k (h k))),
)
  where
    ok_inj : {xs ys : List Operation} → ok xs ≡ ok ys → xs ≡ ys
    ok_inj p = cc

Agree-half :
    (e a : Schema) (k : Text)
    → Agree SameTable (entry (λ t. t.name) k e.tables) (entry (λ t. t.name) k a.tables)
    → Agree SameTable (entry (λ t. t.name) k e.tables) (sorted_entry a k)
Agree-half e a k h = elim (sorted_entry-cases a k) [
  | inl (p, q) ↦ record { both = h.both ∙ ap is_some (p ∙ sym q); related = λ x y u v. cc }
  | inr (t, p, q) ↦ record {
    both = h.both ∙ ap is_some p ∙ sym (ap is_some q);
    related = λ x y u v. rw (← some_inj (sym q ∙ v)) (SameTable-half x t (h.related x t u p));
  }
]

-- A schema that is compared with what sorting, once and again, makes of it needs no operation, even if
-- its names are not unique.
pub compare_sorted : (s : Schema) → compare (some s) (some (sort_schema (sort_schema s))) ≡ ok []
unfolding sorted_entry
compare_sorted s = (compare-iff_same s (sort_schema (sort_schema s))).1 (λ k.
    Agree-half s (sort_schema s) k
      (Agree-half s s k (Agree-refl SameTable SameTable-refl (entry (λ t. t.name) k s.tables))))
