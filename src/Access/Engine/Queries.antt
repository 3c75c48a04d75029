-- ===== src/Access/Engine/Queries.antt =====
-- How the checks of a write compare with those of a query: the ORM checks a write once, and asks
-- for the row predicates of a query later.
use dorm.Prelude.{none, some, List, ◌≡◌, arith, Bool-cases, inl, inr}
use dorm.Schema.Types.{Column, Table}
use dorm.Errors.{ok}
use dorm.Access.Policy.{Context, Ctx, Policy, is_system, from_context, policy_from_context}
use dorm.Access.Engine.{
  Operation, query, Predicate, FieldValue, validate_context_for_operation, apply_columns, apply,
}
use dorm.Access.Engine.Checks.{IsServed, validate-iff_IsServed}
use dorm.Access.Engine.Scopes.{apply_inv}

IsServed-query :
    (ac : Context) (op : Operation) (policy : Policy) (col : Column)
    → IsServed ac op policy col
    → IsServed ac query policy col
IsServed-query ac op policy col h = record {
  scoped = h.scoped;
  on_insert = λ s e. cc;
  on_update = λ s e. cc;
  on_delete = λ s e. cc;
}

validate-query :
    (ac : Context) (table : Table) (op : Operation) (policy : Policy)
    → validate_context_for_operation ac table op policy ≡ none
    → validate_context_for_operation ac table query policy ≡ none
validate-query ac table op policy h = elim (Bool-cases (is_system policy)) [
  | inl s ↦ unfold validate_context_for_operation in rw s
  | inr s ↦ (validate-iff_IsServed ac table query policy s).1 (λ col i.
      IsServed-query ac op policy col ((validate-iff_IsServed ac table op policy s).0 h col i))
]

-- A context that the engine accepts for some operation on a table is accepted for a query on it.
pub apply-query_of_any :
    (ctx : Ctx) (table : Table) (op : Operation) {r : List Predicate × List FieldValue}
    → apply ctx (some table) op ≡ ok r
    → (q : List Predicate × List FieldValue) × (apply ctx (some table) query ≡ ok q)
unfolding apply policy_from_context
apply-query_of_any ctx table op h =
    let ac = (from_context ctx).0 in
    let policy = policy_from_context ctx in
    let valid = validate-query ac table op policy (apply_inv ctx table op h).0 in
    (apply_columns ac query policy table.columns, ground (arith, valid))
