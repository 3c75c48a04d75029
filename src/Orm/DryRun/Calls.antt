-- ===== src/Orm/DryRun/Calls.antt =====
-- The calls of a recorder (orm/dryrun.go), and what each adds to its lists.
use dorm.Prelude.{
  none, some, Option, List, [], ◌∷◌, ◌++◌, map, map-append, flat, append-nil, append_assoc, ◌≡◌,
  sym, ◌∙◌, refl, ap, Text,
}
use dorm.Value.{Any}
use dorm.Orm.DryRun.{
  ExecutionStatement, AccessPolicyEvent, AuditAction, LifecycleHookEvent, QueryAdvisorFinding,
  OptimisticLockingInfo, MetaValue, Recorder, set_metadata, set_operation, set_table,
  record_statement, record_access_policy, record_audit_action, record_hook, record_advisor,
  record_optimistic_lock,
}

-- A call of a recorder.
pub data Call : Type 0 where
  metadata : (key : Text) (value : MetaValue) → Call
  operation : (name : Text) → Call
  table : (name : Text) → Call
  statement : (name sql : Text) (args : List Any) → Call
  access_policy : (event : AccessPolicyEvent) → Call
  audit_action : (action : AuditAction) → Call
  hook : (name model : Text) → Call
  advisor : (findings : List QueryAdvisorFinding) → Call
  optimistic_lock : (info : Option OptimisticLockingInfo) → Call

-- What a recorder does on a call, and on calls one after the other.
unfoldable pub call : Call → Recorder → Recorder
unfolding set_metadata set_operation set_table record_statement record_access_policy
    record_audit_action record_hook record_advisor record_optimistic_lock
call (metadata key value) r = set_metadata key value r
call (operation name) r = set_operation name r
call (table name) r = set_table name r
call (statement name sql args) r = record_statement name sql args r
call (access_policy event) r = record_access_policy event r
call (audit_action action) r = record_audit_action action r
call (hook name model) r = record_hook name model r
call (advisor findings) r = record_advisor findings r
call (optimistic_lock info) r = record_optimistic_lock info r

unfoldable pub calls : List Call → Recorder → Recorder
unfolding call
calls [] r = r
calls (c ∷ cs) r = calls cs (call c r)

-- What each call asks to record.
abbrev pub statements_of : Call → List ExecutionStatement
statements_of (statement name sql args) =
    record { operation = name; sql = sql; parameters = args } ∷ []
statements_of _ = []

abbrev pub policies_of : Call → List AccessPolicyEvent
policies_of (access_policy event) = event ∷ []
policies_of _ = []

abbrev pub audits_of : Call → List AuditAction
audits_of (audit_action action) = action ∷ []
audits_of _ = []

abbrev pub hooks_of : Call → List (Text × Text)
hooks_of (hook name model) = (name, model) ∷ []
hooks_of _ = []

abbrev pub advice_of : Call → List QueryAdvisorFinding
advice_of (advisor findings) = findings
advice_of _ = []

-- A list of the recorder to which each call appends what it asks for has, after calls, all of it.
pub calls-appends :
    {A : Type 0} (field : Recorder → List A) (asked : Call → List A)
    → ((c : Call) (r : Recorder) → field (call c r) ≡ field r ++ asked c)
    → (cs : List Call) (r : Recorder) → field (calls cs r) ≡ field r ++ flat asked cs
unfolding calls
calls-appends field asked step [] r = sym (append-nil (field r))
calls-appends field asked step (c ∷ cs) r =
    calls-appends field asked step cs (call c r)
    ∙ ap (λ l. l ++ flat asked cs) (step c r)
    ∙ append_assoc (field r) (asked c) (flat asked cs)

abbrev pub hook_names : Recorder → List (Text × Text)
hook_names r = map (λ (h : LifecycleHookEvent). (h.name, h.model)) r.report.lifecycle_hooks

pub call-statements :
    (c : Call) (r : Recorder) → (call c r).statements ≡ r.statements ++ statements_of c
unfolding call set_metadata set_operation set_table record_statement record_access_policy
    record_audit_action record_hook record_advisor record_optimistic_lock
call-statements (metadata key value) r = sym (append-nil (r.statements))
call-statements (operation name) r = sym (append-nil (r.statements))
call-statements (table name) r = sym (append-nil (r.statements))
call-statements (statement name sql args) r = refl
call-statements (access_policy event) r = sym (append-nil (r.statements))
call-statements (audit_action action) r = sym (append-nil (r.statements))
call-statements (hook name model) r = sym (append-nil (r.statements))
call-statements (advisor findings) r = sym (append-nil (r.statements))
call-statements (optimistic_lock none) r = sym (append-nil (r.statements))
call-statements (optimistic_lock (some info)) r = sym (append-nil (r.statements))

pub call-listed :
    (c : Call) (r : Recorder)
    → (call c r).report.statements ≡ r.report.statements ++ statements_of c
unfolding call set_metadata set_operation set_table record_statement record_access_policy
    record_audit_action record_hook record_advisor record_optimistic_lock
call-listed (metadata key value) r = sym (append-nil (r.report.statements))
call-listed (operation name) r = sym (append-nil (r.report.statements))
call-listed (table name) r = sym (append-nil (r.report.statements))
call-listed (statement name sql args) r = refl
call-listed (access_policy event) r = sym (append-nil (r.report.statements))
call-listed (audit_action action) r = sym (append-nil (r.report.statements))
call-listed (hook name model) r = sym (append-nil (r.report.statements))
call-listed (advisor findings) r = sym (append-nil (r.report.statements))
call-listed (optimistic_lock none) r = sym (append-nil (r.report.statements))
call-listed (optimistic_lock (some info)) r = sym (append-nil (r.report.statements))

pub call-policies :
    (c : Call) (r : Recorder)
    → (call c r).report.access_policies ≡ r.report.access_policies ++ policies_of c
unfolding call set_metadata set_operation set_table record_statement record_access_policy
    record_audit_action record_hook record_advisor record_optimistic_lock
call-policies (metadata key value) r = sym (append-nil (r.report.access_policies))
call-policies (operation name) r = sym (append-nil (r.report.access_policies))
call-policies (table name) r = sym (append-nil (r.report.access_policies))
call-policies (statement name sql args) r = sym (append-nil (r.report.access_policies))
call-policies (access_policy event) r = refl
call-policies (audit_action action) r = sym (append-nil (r.report.access_policies))
call-policies (hook name model) r = sym (append-nil (r.report.access_policies))
call-policies (advisor findings) r = sym (append-nil (r.report.access_policies))
call-policies (optimistic_lock none) r = sym (append-nil (r.report.access_policies))
call-policies (optimistic_lock (some info)) r = sym (append-nil (r.report.access_policies))

pub call-audits :
    (c : Call) (r : Recorder)
    → (call c r).report.audit_actions ≡ r.report.audit_actions ++ audits_of c
unfolding call set_metadata set_operation set_table record_statement record_access_policy
    record_audit_action record_hook record_advisor record_optimistic_lock
call-audits (metadata key value) r = sym (append-nil (r.report.audit_actions))
call-audits (operation name) r = sym (append-nil (r.report.audit_actions))
call-audits (table name) r = sym (append-nil (r.report.audit_actions))
call-audits (statement name sql args) r = sym (append-nil (r.report.audit_actions))
call-audits (access_policy event) r = sym (append-nil (r.report.audit_actions))
call-audits (audit_action action) r = refl
call-audits (hook name model) r = sym (append-nil (r.report.audit_actions))
call-audits (advisor findings) r = sym (append-nil (r.report.audit_actions))
call-audits (optimistic_lock none) r = sym (append-nil (r.report.audit_actions))
call-audits (optimistic_lock (some info)) r = sym (append-nil (r.report.audit_actions))

pub call-advice :
    (c : Call) (r : Recorder)
    → (call c r).report.query_advisor ≡ r.report.query_advisor ++ advice_of c
unfolding call set_metadata set_operation set_table record_statement record_access_policy
    record_audit_action record_hook record_advisor record_optimistic_lock
call-advice (metadata key value) r = sym (append-nil (r.report.query_advisor))
call-advice (operation name) r = sym (append-nil (r.report.query_advisor))
call-advice (table name) r = sym (append-nil (r.report.query_advisor))
call-advice (statement name sql args) r = sym (append-nil (r.report.query_advisor))
call-advice (access_policy event) r = sym (append-nil (r.report.query_advisor))
call-advice (audit_action action) r = sym (append-nil (r.report.query_advisor))
call-advice (hook name model) r = sym (append-nil (r.report.query_advisor))
call-advice (advisor findings) r = refl
call-advice (optimistic_lock none) r = sym (append-nil (r.report.query_advisor))
call-advice (optimistic_lock (some info)) r = sym (append-nil (r.report.query_advisor))

pub call-hooks : (c : Call) (r : Recorder) → hook_names (call c r) ≡ hook_names r ++ hooks_of c
unfolding call set_metadata set_operation set_table record_statement record_access_policy
    record_audit_action record_hook record_advisor record_optimistic_lock
call-hooks (metadata key value) r = sym (append-nil (hook_names r))
call-hooks (operation name) r = sym (append-nil (hook_names r))
call-hooks (table name) r = sym (append-nil (hook_names r))
call-hooks (statement name sql args) r = sym (append-nil (hook_names r))
call-hooks (access_policy event) r = sym (append-nil (hook_names r))
call-hooks (audit_action action) r = sym (append-nil (hook_names r))
call-hooks (hook name model) r = map-append _ r.report.lifecycle_hooks _
call-hooks (advisor findings) r = sym (append-nil (hook_names r))
call-hooks (optimistic_lock none) r = sym (append-nil (hook_names r))
call-hooks (optimistic_lock (some info)) r = sym (append-nil (hook_names r))
