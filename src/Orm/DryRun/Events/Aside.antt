-- ===== src/Orm/DryRun/Events/Aside.antt =====
-- What is recorded on the way of a write does not touch the statements.
use dorm.Prelude.{
  Bool, true, false, not, ◌&&◌, ◌||◌, Option, none, some, is_some, List, [], ◌∷◌, ◌++◌, flat, All,
  ◌≡◌, refl, ◌∙◌, inl, inr, Text, if◌then◌else◌,
}
use dorm.Value.{Any}
use dorm.Schema.Types.{Column, Table}
use dorm.Errors.{Result-cases}
use dorm.Access.Policy.{Policy, Ctx, policy_from_context, is_default, enforces_audit}
use dorm.Access.Engine.{Operation, FieldValue, apply}
use dorm.Orm.Write.{
  Runtime, Model, Values, VersionInfo, lookup, field_by_column, is_zero_value, is_insert, is_delete,
  is_scoped, struct_column,
}
use dorm.Orm.DryRun.{
  Recorder, AccessPolicyEvent, AuditAction, OptimisticLockingInfo, record_access_policy,
  record_audit_action, record_hook, record_optimistic_lock,
}
use dorm.Orm.DryRun.Events.{
  Change, changed, policy_changes, column_by_name, found_changes, field_changes, zero_changes,
  stamped, stamp_changes, populate_changes, struct_column_changes, struct_loop_changes,
  struct_changes, lock_changes,
}

-- A change that leaves the statements, the table and the operation as they are.
pub record IsAside (f : Change) : Type 0 where
  pub kept_statements : (r : Recorder) → (f r).statements ≡ r.statements
  pub kept_listed : (r : Recorder) → (f r).report.statements ≡ r.report.statements
  pub kept_table : (r : Recorder) → (f r).report.table ≡ r.report.table
  pub kept_operation : (r : Recorder) → (f r).report.operation ≡ r.report.operation

pub changed-IsAside : (fs : List Change) → All IsAside fs → IsAside (changed fs)
unfolding changed
changed-IsAside [] h = record {
  kept_statements = λ r. refl;
  kept_listed = λ r. refl;
  kept_table = λ r. refl;
  kept_operation = λ r. refl;
}
changed-IsAside (f ∷ fs) (h, hs) =
    let rest = changed-IsAside fs hs in
    record {
      kept_statements = λ r. rest.kept_statements (f r) ∙ h.kept_statements r;
      kept_listed = λ r. rest.kept_listed (f r) ∙ h.kept_listed r;
      kept_table = λ r. rest.kept_table (f r) ∙ h.kept_table r;
      kept_operation = λ r. rest.kept_operation (f r) ∙ h.kept_operation r;
    }

-- Changes one after the other, later ones on the outside.
pub changed-append :
    (fs gs : List Change) (r : Recorder) → changed gs (changed fs r) ≡ changed (fs ++ gs) r
unfolding changed
changed-append [] gs r = refl
changed-append (f ∷ fs) gs r = changed-append fs gs (f r)

access-IsAside : (e : AccessPolicyEvent) → IsAside (record_access_policy e)
unfolding record_access_policy
access-IsAside e = record {
  kept_statements = λ r. refl;
  kept_listed = λ r. refl;
  kept_table = λ r. refl;
  kept_operation = λ r. refl;
}

audit-IsAside : (a : AuditAction) → IsAside (record_audit_action a)
unfolding record_audit_action
audit-IsAside a = record {
  kept_statements = λ r. refl;
  kept_listed = λ r. refl;
  kept_table = λ r. refl;
  kept_operation = λ r. refl;
}

lock-IsAside : (i : OptimisticLockingInfo) → IsAside (record_optimistic_lock (some i))
unfolding record_optimistic_lock
lock-IsAside i = record {
  kept_statements = λ r. refl;
  kept_listed = λ r. refl;
  kept_table = λ r. refl;
  kept_operation = λ r. refl;
}

pub hook-IsAside : (name model : Text) → IsAside (record_hook name model)
unfolding record_hook
hook-IsAside name model = record {
  kept_statements = λ r. refl;
  kept_listed = λ r. refl;
  kept_table = λ r. refl;
  kept_operation = λ r. refl;
}

pub All-append : (fs gs : List Change) → All IsAside fs → All IsAside gs → All IsAside (fs ++ gs)
All-append [] gs h i = i
All-append (f ∷ fs) gs (h, hs) i = (h, All-append fs gs hs i)

All-flat :
    {A : Type 0} (f : A → List Change) (xs : List A)
    → ((x : A) → All IsAside (f x))
    → All IsAside (flat f xs)
All-flat f [] h = tt
All-flat f (x ∷ xs) h = All-append (f x) (flat f xs) (h x) (All-flat f xs h)

All-if :
    (b : Bool) (fs gs : List Change)
    → All IsAside fs
    → All IsAside gs
    → All IsAside (if b then fs else gs)
All-if true fs gs h i = h
All-if false fs gs h i = i

pub policy_changes-IsAside : (p : Policy) → All IsAside (policy_changes p)
unfolding policy_changes
policy_changes-IsAside p =
    (access-IsAside _, All-if (is_default p) [] (_ ∷ []) tt (access-IsAside _, tt))

found_changes-IsAside : (w : FieldValue) (col : Option Column) → All IsAside (found_changes w col)
unfolding found_changes
found_changes-IsAside w none = tt
found_changes-IsAside w (some col) =
    All-if (is_scoped col.scope) (_ ∷ []) _ (access-IsAside _, tt)
      (All-if (col.created_by || col.updated_by || col.deleted_by) (_ ∷ []) [] (audit-IsAside _, tt)
        tt)

stamp_changes-IsAside :
    (creating deleting : Bool) (now : Any) (col : Column)
    → All IsAside (stamp_changes creating deleting now col)
unfolding stamp_changes stamped
stamp_changes-IsAside creating deleting now col =
    All-if (col.created_at && creating) (_ ∷ []) _ (audit-IsAside _, tt)
      (All-if col.updated_at (_ ∷ []) _ (audit-IsAside _, tt)
        (All-if (col.deleted_at && deleting) (_ ∷ []) [] (audit-IsAside _, tt) tt))

pub populate_changes-IsAside :
    (ctx : Ctx) (table : Table) (op : Operation) (now : Any)
    → All IsAside (populate_changes ctx table op now)
unfolding populate_changes field_changes
populate_changes-IsAside ctx table op now = elim (Result-cases (apply ctx (some table) op)) [
  | inr (e, failed) ↦ rw (populate_changes, failed) tt
  | inl (found, accepted) ↦
      rw (populate_changes, accepted)
        (All-append (flat (field_changes table.columns) found.1) _
          (All-flat (field_changes table.columns) found.1
            (λ w. found_changes-IsAside w (column_by_name w.field table.columns)))
          (All-if (enforces_audit (policy_from_context ctx)) _ []
            (All-flat (stamp_changes (is_insert op) (is_delete op) now) table.columns
              (stamp_changes-IsAside (is_insert op) (is_delete op) now))
            tt))
]

zero_changes-IsAside :
    (now : Any) (creating : Bool) (col : Column) (held : Option Any)
    → All IsAside (zero_changes now creating col held)
unfolding zero_changes
zero_changes-IsAside now creating col none = tt
zero_changes-IsAside now creating col (some v) =
    All-if (is_zero_value v) _ [] (stamp_changes-IsAside creating (not creating) now col) tt

struct_loop-IsAside :
    (rt : Runtime) (now : Any) (creating : Bool) (cols : List Column) (s : Values × Model)
    → All IsAside (struct_loop_changes rt now creating cols s)
unfolding struct_loop_changes struct_column_changes
struct_loop-IsAside rt now creating [] s = tt
struct_loop-IsAside rt now creating (col ∷ cols) (values, m) =
    All-append (struct_column_changes rt now creating col (values, m)) _
      (All-if (col.version || is_some (lookup col.name values)) [] _ tt
        (zero_changes-IsAside now creating col (field_by_column rt m col.name)))
      (struct_loop-IsAside rt now creating cols (struct_column rt now creating col (values, m)))

pub struct_changes-IsAside :
    (rt : Runtime) (ctx : Ctx) (table : Table) (now : Any) (creating : Bool) (s : Values × Model)
    → All IsAside (struct_changes rt ctx table now creating s)
unfolding struct_changes
struct_changes-IsAside rt ctx table now creating s =
    All-if (enforces_audit (policy_from_context ctx)) _ []
      (struct_loop-IsAside rt now creating table.columns s) tt

pub lock_changes-IsAside :
    (info : Option VersionInfo) (conflict : Bool) → All IsAside (lock_changes info conflict)
unfolding lock_changes
lock_changes-IsAside none conflict = tt
lock_changes-IsAside (some v) conflict = (lock-IsAside _, tt)
