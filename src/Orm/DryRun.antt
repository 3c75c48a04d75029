-- ===== src/Orm/DryRun.antt =====
-- orm/dryrun.go, orm/dryrun_session.go and orm/execution_report.go: dry runs. The recorder of a run is
-- shared by the handle and the connections of its identifier, and stands once in the store of the
-- states. Locks are left out: each function holds them throughout.
pub mod Report
pub mod Calls
pub mod Recording
pub mod Isolation
pub mod Sent
pub mod Sessions
pub mod Events
pub use Report.*
use dorm.Prelude.{
  ℕ, suc, ◌+◌, ◌%◌, Bool, true, false, Option, none, some, is_some, List, [], ◌∷◌, ◌++◌, map,
  length, Text, txt, itoa, trim, contains, is_nil, text_eq, if◌then◌else◌,
}
use dorm.Value.{Any, ℤ, pos}
use dorm.Schema.Keys.{entry}
use dorm.Schema.Names.{Unicode}
use dorm.Errors.{Kind, Result, Error, ok, err, new}
use dorm.Orm.Write.{Values}
use dorm.Orm.Exec.{Exec}

unfoldable pub new_recorder : Recorder
new_recorder = record {
  report = record {
    version = 1;
    operation = [];
    table = [];
    sql = [];
    parameters = [];
    statements = [];
    access_policies = [];
    audit_actions = [];
    lifecycle_hooks = [];
    query_advisor = [];
    optimistic_locking = none;
    execution_status = skipped;
    metadata = [];
  };
  hook_order = 0;
  statements = [];
}

unfoldable pub set_metadata : Text → MetaValue → Recorder → Recorder
set_metadata key value r = record r {
  report = record r.report { metadata = r.report.metadata ++ (key, value) ∷ [] };
}

unfoldable pub set_operation : Text → Recorder → Recorder
set_operation operation r = record r { report = record r.report { operation = operation } }

unfoldable pub set_table : Text → Recorder → Recorder
set_table table r = record r { report = record r.report { table = table } }

unfoldable pub record_statement : Text → Text → List Any → Recorder → Recorder
record_statement operation sql args r =
    let statement : ExecutionStatement = record {
      operation = operation;
      sql = sql;
      parameters = args;
    } in
    record r {
      statements = r.statements ++ statement ∷ [];
      report = record r.report {
        statements = r.report.statements ++ statement ∷ [];
        sql = sql;
        parameters = args;
      };
    }

unfoldable pub record_access_policy : AccessPolicyEvent → Recorder → Recorder
record_access_policy event r = record r {
  report = record r.report { access_policies = r.report.access_policies ++ event ∷ [] };
}

unfoldable pub record_audit_action : AuditAction → Recorder → Recorder
record_audit_action action r = record r {
  report = record r.report { audit_actions = r.report.audit_actions ++ action ∷ [] };
}

unfoldable pub record_hook : Text → Text → Recorder → Recorder
record_hook name model r = record r {
  hook_order = suc r.hook_order;
  report = record r.report {
    lifecycle_hooks =
        r.report.lifecycle_hooks
        ++ (record { order = suc r.hook_order; name = name; model = model }) ∷ [];
  };
}

unfoldable pub record_advisor : List QueryAdvisorFinding → Recorder → Recorder
record_advisor findings r = record r {
  report = record r.report { query_advisor = r.report.query_advisor ++ findings };
}

unfoldable pub record_optimistic_lock : Option OptimisticLockingInfo → Recorder → Recorder
record_optimistic_lock none r = r
record_optimistic_lock (some info) r = record r {
  report = record r.report { optimistic_locking = some info };
}

-- The report, whose metadata is the recorder's own map: the count is written to that too.
unfoldable pub finalize : Recorder → ExecutionReport
finalize r = record r.report {
  execution_status = skipped;
  metadata =
      r.report.metadata ++ (txt "statement_count", a_count (length r.report.statements)) ∷ [];
}

-- `dryRunStates` and `dryRunSeq`, an unsigned 64-bit counter.
pub record DryRunStates : Type 0 where
  pub states : List (Text × Recorder)
  pub seq : ℕ

-- `dryRunStates[id]`.
unfoldable pub state_of : Text → DryRunStates → Option Recorder
unfolding entry text_eq
state_of id w = elim (entry (λ (e : Text × Recorder). e.0) id w.states) [
  | some e ↦ some (e.1)
  | none ↦ none
]

-- A change of the recorder that the pointer of the identifier leads to.
unfoldable pub on_recorder : Text → (Recorder → Recorder) → DryRunStates → DryRunStates
unfolding text_eq
on_recorder id f w = record w {
  states = map (λ (e : Text × Recorder). (e.0, if text_eq (e.0) id then f (e.1) else e.1)) w.states;
}

unfoldable pub open_dry_run : DryRunStates → Text × DryRunStates
unfolding itoa set_metadata new_recorder
open_dry_run w =
    let seq = (w.seq + 1) % 18446744073709551616 in
    let id = txt "dryrun_" ++ itoa seq in
    (
      id,
      record {
        seq = seq;
        states = w.states ++ (id, set_metadata (txt "dryrun_id") (a_text id) new_recorder) ∷ [];
      },
    )

state_not_found : Error
state_not_found = new Kind.configuration (txt "orm: dry-run state not found")

-- The connection of a dry run: no row is affected.
unfoldable pub exec_context : Text → Text → List Any → Exec DryRunStates (Option ℤ)
unfolding state_of on_recorder record_statement state_not_found
exec_context id query args w =
    if is_some (state_of id w)
    then (ok (some (pos 0)), on_recorder id (record_statement (txt "exec") query args) w)
    else (err state_not_found, w)

-- One row with a null value for a statement that returns rows, and none for another.
unfoldable pub query_context : Unicode → Text → Text → List Any → Exec DryRunStates (List Values)
unfolding state_of on_recorder record_statement state_not_found trim contains
query_context u id query args w =
    let returning = contains (txt "returning") (map u.to_lower (trim query)) in
    if is_some (state_of id w)
    then (
      ok (if returning then ((txt "value", none) ∷ []) ∷ [] else []),
      on_recorder id (record_statement (txt "query") query args) w,
    )
    else (err state_not_found, w)

-- The advisor's input, without the schema, and its findings.
pub record QueryAdvisorInput : Type 0 where
  pub operation : Text
  pub table : Text
  pub sql : Text

abbrev pub QueryAdvisor : Type 0
QueryAdvisor = QueryAdvisorInput → Result (List QueryAdvisorFinding)

-- The advice on the report of a run, whose own error is `failed`.
advised : Option QueryAdvisor → Option Error → ExecutionReport → ExecutionReport × Option Error
advised none failed report = (report, failed)
advised (some inspect) failed report =
    if is_nil report.sql
    then (report, failed)
    else elim (inspect
        (record { operation = report.operation; table = report.table; sql = report.sql })) [
          | err e ↦ (report, some e)
          | ok [] ↦ (report, failed)
          | ok (f ∷ fs) ↦ (record report { query_advisor = f ∷ fs }, failed)
        ]

error_of : {A : Type 0} → Result A → Option Error
error_of (ok a) = none
error_of (err e) = some e

recorded : Option Recorder → Recorder
unfolding new_recorder
recorded (some r) = r
recorded none = new_recorder

-- The `run` of a dry-run session: the report, the error, and the states behind it. `fn` is given the
-- identifier of its connection.
unfoldable pub run :
    {A : Type 0}
    → Option QueryAdvisor
    → Text
    → (Text → Exec DryRunStates A)
    → DryRunStates
    → (ExecutionReport × Option Error) × DryRunStates
unfolding open_dry_run finalize advised error_of recorded state_of
run advisor operation fn w =
    let (id, opened) = open_dry_run w in
    let (r, w') = fn id opened in
    let report = record (finalize (recorded (state_of id w'))) { operation = operation } in
    (advised advisor (error_of r) report, w')
