-- ===== src/Orm/DryRun/Events.antt =====
-- orm/orm.go: what the recorder of a dry run is told on the way of a write: the policy, the fields
-- that the engine injects, the timestamps, and the version. A change of the recorder is a function,
-- and the changes of one call stand in the order in which they are made.
pub mod Aside
use dorm.Prelude.{
  Bool, true, false, not, ◌&&◌, ◌||◌, Option, none, some, is_some, List, [], ◌∷◌, ◌++◌, flat, Text,
  txt, text_eq, if◌then◌else◌,
}
use dorm.Value.{Any}
use dorm.Schema.Types.{Column, Table}
use dorm.Errors.{ok, err}
use dorm.Access.Policy.{Policy, Ctx, policy_from_context, policy_name, is_default, enforces_audit}
use dorm.Access.Engine
use dorm.Access.Engine.{Operation, FieldValue, apply}
use dorm.Orm.Write.{
  Runtime, Model, Values, VersionInfo, lookup, field_by_column, is_zero_value, is_insert, is_delete,
  is_scoped, struct_column,
}
use dorm.Orm.DryRun.{
  Recorder, AccessPolicyEventKind, AccessPolicyEvent, AuditAction, record_access_policy,
  record_audit_action, record_optimistic_lock,
}

abbrev pub Change : Type 0
Change = Recorder → Recorder

unfoldable pub changed : List Change → Recorder → Recorder
changed [] r = r
changed (f ∷ fs) r = changed fs (f r)

policy_event : AccessPolicyEventKind → Text → Policy → AccessPolicyEvent
unfolding policy_name
policy_event kind description p = record {
  kind = kind;
  field = [];
  sql = [];
  arguments = [];
  policy = policy_name p;
  description = description;
}

-- `logPolicyOverride`
unfoldable pub policy_changes : Policy → List Change
unfolding policy_event is_default
policy_changes p =
    let inherited =
      policy_event AccessPolicyEventKind.inherited_policy (txt "active access policy from context")
        p in
    let override =
      policy_event AccessPolicyEventKind.policy_override (txt "policy override applied") p in
    record_access_policy inherited
    ∷ (if is_default p then [] else record_access_policy override ∷ [])

-- `columnByName`
column_by_name : Text → List Column → Option Column
unfolding text_eq
column_by_name name [] = none
column_by_name name (col ∷ cols) =
    if text_eq col.name name then some col else column_by_name name cols

injected : FieldValue → AccessPolicyEvent
injected w = record {
  kind = AccessPolicyEventKind.injected_field;
  field = w.field;
  sql = w.field ++ txt " = ?";
  arguments = w.value ∷ [];
  policy = [];
  description = txt "scoped field injected by access policy";
}

-- A field that the policy engine fills, in the column that it is.
found_changes : FieldValue → Option Column → List Change
unfolding injected is_scoped
found_changes w none = []
found_changes w (some col) =
    if is_scoped col.scope
    then record_access_policy (injected w) ∷ []
    else if col.created_by || col.updated_by || col.deleted_by
    then record_audit_action (record {
      field = w.field;
      value = w.value;
      kind = txt "user";
      description = txt "audit field injected by access policy";
    })
      ∷ []
    else []

field_changes : List Column → FieldValue → List Change
unfolding column_by_name found_changes
field_changes cols w = found_changes w (column_by_name w.field cols)

stamped : Text → Any → Text → Change
stamped name now description =
    record_audit_action
      (record { field = name; value = now; kind = txt "timestamp"; description = description })

-- The timestamps of one column, under the two conditions of the `switch`.
stamp_changes : Bool → Bool → Any → Column → List Change
unfolding stamped
stamp_changes creating deleting now col =
    if col.created_at && creating
    then stamped col.name now (txt "created timestamp injected") ∷ []
    else if col.updated_at
    then stamped col.name now (txt "updated timestamp injected") ∷ []
    else if col.deleted_at && deleting
    then stamped col.name now (txt "deleted timestamp injected") ∷ []
    else []

-- What `populateAuditAndScope` records; an error of the engine comes before all of it.
unfoldable pub populate_changes : Ctx → Table → Operation → Any → List Change
unfolding field_changes stamp_changes is_insert is_delete enforces_audit
populate_changes ctx table op now = elim (apply ctx (some table) op) [
  | err e ↦ []
  | ok found ↦
      flat (field_changes table.columns) found.1
      ++ (if enforces_audit (policy_from_context ctx)
          then flat (stamp_changes (is_insert op) (is_delete op) now) table.columns
          else [])
]

zero_changes : Any → Bool → Column → Option Any → List Change
unfolding stamp_changes is_zero_value
zero_changes now is_insert col none = []
zero_changes now is_insert col (some v) =
    if is_zero_value v then stamp_changes is_insert (not is_insert) now col else []

struct_column_changes : Runtime → Any → Bool → Column → Values × Model → List Change
unfolding zero_changes lookup field_by_column
struct_column_changes rt now is_insert col (values, m) =
    if col.version || is_some (lookup col.name values)
    then []
    else zero_changes now is_insert col (field_by_column rt m col.name)

struct_loop_changes : Runtime → Any → Bool → List Column → Values × Model → List Change
unfolding struct_column_changes struct_column
struct_loop_changes rt now is_insert [] s = []
struct_loop_changes rt now is_insert (col ∷ cols) s =
    struct_column_changes rt now is_insert col s
    ++ struct_loop_changes rt now is_insert cols (struct_column rt now is_insert col s)

-- What `applyStructFieldValues` records.
unfoldable pub struct_changes : Runtime → Ctx → Table → Any → Bool → Values × Model → List Change
unfolding struct_loop_changes enforces_audit
struct_changes rt ctx table now is_insert s =
    if enforces_audit (policy_from_context ctx)
    then struct_loop_changes rt now is_insert table.columns s
    else []

-- What `softDelete` records, where the engine accepts.
unfoldable pub soft_delete_changes : Ctx → Table → Column → Any → List Change
unfolding populate_changes stamped
soft_delete_changes ctx table soft now = elim (apply ctx (some table) Engine.delete) [
  | err e ↦ []
  | ok found ↦
      populate_changes ctx table Engine.delete now
      ++ stamped soft.name now (txt "soft delete timestamp injected") ∷ []
]

-- `recordOptimisticLock`, for a table with a version column.
unfoldable pub lock_changes : Option VersionInfo → Bool → List Change
lock_changes none conflict = []
lock_changes (some v) conflict =
    record_optimistic_lock (
      some (record {
        enabled = true;
        column = v.column;
        current = v.current;
        next = v.next;
        conflict = conflict;
      }))
    ∷ []
