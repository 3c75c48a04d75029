-- ===== src/Examples/Access.antt =====
-- The policy engine on the invoices.
use dorm.Prelude.{false, none, List, some, [], ◌∷◌, ◌≡◌, refl, In, here, there, ◌↔◌, txt}
use dorm.Value.{Value}
use dorm.Schema.Types.{Column}
use dorm.Errors.{ok}
use dorm.Access.Policy.{
  policy_name, is_default, empty, ignore_company, allows_scope, from_context, policy_from_context,
  is_system,
}
use dorm.Access.Engine.{
  query, insert, Predicate, FieldValue, apply, scope_value, scope_predicate,
  validate_context_for_operation,
}
use dorm.Access.Engine.Checks.{IsServed, validate-iff_IsServed}
use dorm.Access.Engine.Scopes.{apply-scopes_rows}
use dorm.Examples.Data.{invoices, tenant_column, ann_ctx, acme, ann}

abbrev tenant_filter : Predicate
tenant_filter = record { sql = txt "tenant_id = ?"; args = acme ∷ [] }

abbrev ann_edits : FieldValue
ann_edits = record { field = txt "editor"; value = ann }

query_filters_tenant : apply ann_ctx (some invoices) query ≡ ok (tenant_filter ∷ [], [])
unfolding apply
query_filters_tenant = refl

query_filters_tenant_example :
    (v : Value) × (acme ≡ some v) × In (scope_predicate tenant_column acme) (tenant_filter ∷ [])
unfolding apply scope_value allows_scope policy_from_context
query_filters_tenant_example =
    apply-scopes_rows ann_ctx invoices query (tenant_filter ∷ []) [] tenant_column acme refl refl
      (there here) refl refl

abbrev edits : List Predicate × List FieldValue
edits = ([], ann_edits ∷ [])

validate_example :
    (validate_context_for_operation
        (from_context ann_ctx).0
        invoices
        insert
        (policy_from_context ann_ctx)
      ≡ none)
    ↔ ((col : Column)
        → In col invoices.columns
        → IsServed (from_context ann_ctx).0 insert (policy_from_context ann_ctx) col)
unfolding is_system policy_from_context
validate_example =
    validate-iff_IsServed (from_context ann_ctx).0 invoices insert (policy_from_context ann_ctx)
      refl

policy_name_run : policy_name (record { level = empty }) ≡ txt "policy.default"
unfolding policy_name
policy_name_run = refl

ignore_company_is_not_default : is_default ignore_company ≡ false
unfolding is_default
ignore_company_is_not_default = refl
