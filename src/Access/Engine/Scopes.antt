-- ===== src/Access/Engine/Scopes.antt =====
-- What a statement gets from the engine: the row predicates and the written fields, against the
-- table's columns.
use dorm.Prelude.{
  true, none, some, List, [], ◌∷◌, ◌≡◌, ◌≢◌, refl, arith, In, here, there, In-append_right,
  In-append_split, In-single, ◌&&◌, ◌∙◌, Bool-cases, inl, inr, ap, Option-cases,
}
use dorm.Value.{Any, Value}
use dorm.Schema.Types.{Column, Table}
use dorm.Errors.{ok}
use dorm.Access.Policy.{
  Context, Ctx, Policy, allows_scope, from_context, policy_from_context, allows_scope-not_system,
}
use dorm.Access.Engine.{
  Operation, Predicate, FieldValue, scope_value, reads_rows, scope_predicate, scope_predicates,
  apply_columns, validate_context_for_operation, apply,
}
use dorm.Access.Engine.Checks.{validate-iff_IsServed}

-- Inversion of a successful call.
pub apply_inv :
    (ctx : Ctx) (table : Table) (op : Operation) {r : List Predicate × List FieldValue}
    → apply ctx (some table) op ≡ ok r
    → let policy = policy_from_context ctx in
      let ac = (from_context ctx).0 in
      (validate_context_for_operation ac table op policy ≡ none)
      × (r ≡ apply_columns ac op policy table.columns)
unfolding apply policy_from_context
apply_inv ctx table op h = ground arith

non_nil : (a : Any) → a ≢ none → (v : Value) × (a ≡ some v)
non_nil none h = absurd (h refl)
non_nil (some v) h = (v, refl)

module _ (ac : Context) (op : Operation) (policy : Policy) where
  own_predicate :
      (col : Column) (v : Any)
      → reads_rows op ≡ true
      → allows_scope policy col.scope ≡ true
      → scope_value ac col.scope ≡ some v
      → scope_predicates ac op policy col ≡ scope_predicate col v ∷ []
  unfolding scope_predicates
  own_predicate col v r s e = ground arith

  predicate-In_loop :
      (cols : List Column) {col : Column} (v : Any)
      → reads_rows op ≡ true
      → allows_scope policy col.scope ≡ true
      → scope_value ac col.scope ≡ some v
      → In col cols
      → In (scope_predicate col v) (apply_columns ac op policy cols).0
  unfolding apply_columns
  predicate-In_loop [] v r s e i = elim i [ ]
  predicate-In_loop (c ∷ cols) v r s e here = rw (own_predicate c v r s e) here
  predicate-In_loop (c ∷ cols) v r s e (there i) =
      In-append_right (scope_predicates ac op policy c) (predicate-In_loop cols v r s e i)

-- On a query or a delete that the engine accepts, every column of the table whose scope the policy
-- lets through and whose scope names an identity has its predicate among the statement's, with
-- that identity, which is not nil.
pub apply-scopes_rows :
    (ctx : Ctx) (table : Table) (op : Operation) (preds : List Predicate) (writes : List FieldValue)
    (col : Column) (a : Any)
    → apply ctx (some table) op ≡ ok (preds, writes)
    → reads_rows op ≡ true
    → In col table.columns
    → allows_scope (policy_from_context ctx) col.scope ≡ true
    → scope_value (from_context ctx).0 col.scope ≡ some a
    → (v : Value) × (a ≡ some v) × In (scope_predicate col a) preds
apply-scopes_rows ctx table op preds writes col a h r i s e =
    let (valid, looped) = apply_inv ctx table op h in
    let policy = policy_from_context ctx in
    let ac = (from_context ctx).0 in
    let served =
      (validate-iff_IsServed ac table op policy (allows_scope-not_system policy _ s)).0 valid col
        i in
    let (v, held) = non_nil a (λ z. served.scoped s (e ∙ ap some z)) in
    (
      v,
      held,
      rw (ap (λ (q : List Predicate × List FieldValue). q.0) looped)
          (predicate-In_loop ac op policy table.columns a r s e i),
    )

module _ (ac : Context) (op : Operation) (policy : Policy) where
  -- What one column contributes.
  predicate_origin :
      (col : Column) {p : Predicate}
      → In p (scope_predicates ac op policy col)
      → (a : Any) × (reads_rows op ≡ true)
        × (allows_scope policy col.scope ≡ true)
        × (scope_value ac col.scope ≡ some a)
        × (p ≡ scope_predicate col a)
  unfolding scope_predicates
  predicate_origin col i = elim (Bool-cases (allows_scope policy col.scope && reads_rows op)) [
    | inl allowed ↦ elim (Option-cases (scope_value ac col.scope)) [
      | inl unnamed ↦ elim (rw (allowed, unnamed) at i) [ ]
      | inr (a, named) ↦
          (a, ground arith, ground arith, named, In-single (rw (allowed, named) at i))
    ]
    | inr refused ↦ elim (rw refused at i) [ ]
  ]

  loop_origin :
      (cols : List Column) {p : Predicate}
      → In p (apply_columns ac op policy cols).0
      → (col : Column) × (a : Any) × In col cols
        × (reads_rows op ≡ true)
        × (allows_scope policy col.scope ≡ true)
        × (scope_value ac col.scope ≡ some a)
        × (p ≡ scope_predicate col a)
  unfolding apply_columns
  loop_origin [] i = elim i [ ]
  loop_origin (c ∷ cols) i = elim (In-append_split (scope_predicates ac op policy c) i) [
    | inl own ↦ let (a, r, s, e, p) = predicate_origin c own in (c, a, here, r, s, e, p)
    | inr later ↦
        let (col, a, j, r, s, e, p) = loop_origin cols later in (col, a, there j, r, s, e, p)
  ]

-- Every predicate of the engine comes from a column of the table whose scope the policy lets
-- through, on a query or a delete, and compares that column with the context's identity.
pub apply-predicates_only :
    (ctx : Ctx) (table : Table) (op : Operation) (preds : List Predicate) (writes : List FieldValue)
    (p : Predicate)
    → apply ctx (some table) op ≡ ok (preds, writes)
    → In p preds
    → (col : Column) × (a : Any) × In col table.columns
      × (reads_rows op ≡ true)
      × (allows_scope (policy_from_context ctx) col.scope ≡ true)
      × (scope_value (from_context ctx).0 col.scope ≡ some a)
      × (p ≡ scope_predicate col a)
apply-predicates_only ctx table op preds writes p h i =
    let (valid, looped) = apply_inv ctx table op h in
    loop_origin (from_context ctx).0 op (policy_from_context ctx) table.columns
      (rw (ap (λ (q : List Predicate × List FieldValue). q.0) looped) at i)
