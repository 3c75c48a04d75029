-- ===== src/Access/Engine.antt =====
-- access/engine.go and access/soft_delete.go: the predicates and the writes that a policy puts into
-- a statement, and the check of the context that comes first. `Apply` reads nothing of its
-- `values` argument.
pub mod Checks
pub mod Scopes
pub mod Writes
pub mod Queries
use dorm.Prelude.{
  Bool, true, false, not, ◌&&◌, ◌||◌, Option, none, some, List, [], ◌∷◌, ◌++◌, Text, txt, is_some,
  if◌then◌else◌,
}
use dorm.Value.{Any}
use dorm.Schema.Types.{
  Column, Table, ScopeKind, company, tenant, organization, workspace, warehouse, user,
}
use dorm.Errors.{Kind, Result, Error, ok, err, new, typed, access_error, missing_context_error}
use dorm.Access.Policy.{
  Context, Ctx, Policy, normalize, is_system, enforces_audit, allows_scope, from_context,
}

pub data Operation : Type 0 where
  query insert update delete : Operation

operation_text : Operation → Text
operation_text query = txt "query"
operation_text insert = txt "insert"
operation_text update = txt "update"
operation_text delete = txt "delete"

pub record Predicate : Type 0 where
  pub sql : Text
  pub args : List Any

pub record FieldValue : Type 0 where
  pub field : Text
  pub value : Any

-- The identity that a context holds for a scope; `none` where the scope names none.
unfoldable pub scope_value : Context → ScopeKind → Option Any
scope_value ac company = some ac.company_id
scope_value ac tenant = some ac.tenant_id
scope_value ac organization = some ac.organization_id
scope_value ac workspace = some ac.workspace_id
scope_value ac warehouse = some ac.warehouse_id
scope_value ac user = some ac.user_id
scope_value ac _ = none

-- The field that `newMissingContextError` names for a scope, and its reason.
scope_field : ScopeKind → Text
scope_field company = txt "CompanyID"
scope_field tenant = txt "TenantID"
scope_field organization = txt "OrganizationID"
scope_field workspace = txt "WorkspaceID"
scope_field warehouse = txt "WarehouseID"
scope_field user = txt "UserID"
scope_field _ = []

scope_reason : ScopeKind → Text
scope_reason company = txt "company-scoped model requires company context"
scope_reason tenant = txt "tenant-scoped model requires tenant context"
scope_reason organization = txt "organization-scoped model requires organization context"
scope_reason workspace = txt "workspace-scoped model requires workspace context"
scope_reason warehouse = txt "warehouse-scoped model requires warehouse context"
scope_reason user = txt "user-scoped model requires user context"
scope_reason _ = []

field_kind : ScopeKind → Kind
field_kind company = Kind.missing_company
field_kind _ = Kind.invalid_context

missing_message : Operation → Text → Text → Text
unfolding operation_text
missing_message op field reason =
    txt "access: " ++ operation_text op ++ txt " requires " ++ field ++ txt ": " ++ reason

missing_context : Kind → Operation → Text → Text → Error
unfolding missing_message operation_text
missing_context kind op field reason =
    typed (missing_context_error (operation_text op) field reason) (
      typed (access_error (operation_text op) (txt "default") field reason)
        (new kind (missing_message op field reason)))

abbrev pub reads_rows : Operation → Bool
reads_rows query = true
reads_rows delete = true
reads_rows _ = false

abbrev pub is_insert : Operation → Bool
is_insert insert = true
is_insert _ = false

-- One column of the first `switch`: a nil identity is an error.
scope_check : Context → Operation → Policy → Column → Option Error
unfolding allows_scope scope_value scope_field scope_reason field_kind missing_context
scope_check ac op policy col =
    if allows_scope policy col.scope
    then elim (scope_value ac col.scope) [
      | some none ↦ some (
          missing_context (field_kind col.scope) op (scope_field col.scope)
            (scope_reason col.scope))
      | _ ↦ none
    ]
    else none

-- Which audit fields of a column want a user, by operation, and the reason given.
audit_wants_user : Operation → Column → Bool
audit_wants_user insert col = col.created_by || col.updated_by || col.deleted_by
audit_wants_user update col = col.updated_by
audit_wants_user delete col = col.deleted_by
audit_wants_user query col = false

audit_reason : Operation → Text
audit_reason insert = txt "audit fields require user context"
audit_reason update = txt "updated_by requires user context"
audit_reason delete = txt "deleted_by requires user context"
audit_reason query = []

audit_check : Context → Operation → Policy → Column → Option Error
unfolding enforces_audit audit_wants_user audit_reason missing_context
audit_check ac op policy col =
    if enforces_audit policy && audit_wants_user op col && not (is_some ac.user_id)
    then some (missing_context Kind.invalid_context op (txt "UserID") (audit_reason op))
    else none

column_check : Context → Operation → Policy → Column → Option Error
unfolding scope_check audit_check
column_check ac op policy col = elim (scope_check ac op policy col) [
  | some e ↦ some e
  | none ↦ audit_check ac op policy col
]

validate_columns : Context → Operation → Policy → List Column → Option Error
validate_columns ac op policy [] = none
validate_columns ac op policy (col ∷ cols) = elim (column_check ac op policy col) [
  | some e ↦ some e
  | none ↦ validate_columns ac op policy cols
]

-- `none` is the nil error.
unfoldable pub validate_context_for_operation : Context → Table → Operation → Policy → Option Error
unfolding is_system validate_columns column_check
validate_context_for_operation ac table op policy =
    if is_system policy then none else validate_columns ac op policy table.columns

-- `col.Name + " = ?"`
unfoldable pub scope_predicate : Column → Any → Predicate
scope_predicate col v = record { sql = col.name ++ txt " = ?"; args = v ∷ [] }

scope_predicates : Context → Operation → Policy → Column → List Predicate
unfolding allows_scope scope_value scope_predicate
scope_predicates ac op policy col =
    if allows_scope policy col.scope && reads_rows op
    then elim (scope_value ac col.scope) [ some v ↦ scope_predicate col v ∷ [] | none ↦ [] ]
    else []

scope_writes : Context → Operation → Policy → Column → List FieldValue
unfolding allows_scope scope_value
scope_writes ac op policy col =
    if allows_scope policy col.scope && is_insert op
    then elim (scope_value ac col.scope) [
      | some v ↦ record { field = col.name; value = v } ∷ []
      | none ↦ []
    ]
    else []

-- On insert the three audit cases write the same; on update only `UpdatedBy` counts.
audit_column : Operation → Column → Bool
audit_column insert col = col.created_by || col.updated_by || col.deleted_by
audit_column update col = col.updated_by
audit_column _ col = false

audit_writes : Context → Operation → Policy → Column → List FieldValue
unfolding enforces_audit audit_column
audit_writes ac op policy col =
    if enforces_audit policy && audit_column op col && is_some ac.user_id
    then record { field = col.name; value = ac.user_id } ∷ []
    else []

-- The loop over the columns; both lists grow at their end.
pub apply_columns : Context → Operation → Policy → List Column → List Predicate × List FieldValue
apply_columns ac op policy [] = ([], [])
apply_columns ac op policy (col ∷ cols) =
    let (preds, writes) = apply_columns ac op policy cols in
    (
      scope_predicates ac op policy col ++ preds,
      scope_writes ac op policy col ++ audit_writes ac op policy col ++ writes,
    )

unfoldable pub apply : Ctx → Option Table → Operation → Result (List Predicate × List FieldValue)
unfolding from_context normalize validate_context_for_operation apply_columns scope_predicates
    scope_writes audit_writes
apply ctx none op = err (new Kind.configuration (txt "access: nil table"))
apply ctx (some table) op =
    let ac = (from_context ctx).0 in
    let policy = normalize ac.policy in
    elim (validate_context_for_operation ac table op policy) [
      | some e ↦ err e
      | none ↦ ok (apply_columns ac op policy table.columns)
    ]

-- The first column that is marked as soft deletion.
soft_delete_loop : List Column → Option Column
soft_delete_loop [] = none
soft_delete_loop (col ∷ cols) =
    let rest = soft_delete_loop cols in if col.soft_delete || col.deleted_at then some col else rest

unfoldable pub soft_delete_column : Option Table → Option Column
unfolding soft_delete_loop
soft_delete_column none = none
soft_delete_column (some table) = soft_delete_loop table.columns
