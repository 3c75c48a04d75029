-- ===== src/Orm/DryRun/Report.antt =====
-- orm/execution_report.go and the recorder's record of orm/dryrun.go.
use dorm.Prelude.{ℕ, Bool, Option, List, Text}
use dorm.Value.{Any}

pub record ExecutionStatement : Type 0 where
  pub operation : Text
  pub sql : Text
  pub parameters : List Any

pub data AccessPolicyEventKind : Type 0 where
  injected_predicate injected_field inherited_policy policy_override : AccessPolicyEventKind
  soft_delete : AccessPolicyEventKind

pub record AccessPolicyEvent : Type 0 where
  pub kind : AccessPolicyEventKind
  pub field : Text
  pub sql : Text
  pub arguments : List Any
  pub policy : Text
  pub description : Text

pub record AuditAction : Type 0 where
  pub field : Text
  pub value : Any
  pub kind : Text
  pub description : Text

pub record LifecycleHookEvent : Type 0 where
  pub order : ℕ
  pub name : Text
  pub model : Text

pub record QueryAdvisorFinding : Type 0 where
  pub code_ : Text
  pub rule : Text
  pub severity : Text
  pub title : Text
  pub details : Text
  pub recommendation : Text
  pub table : Text
  pub columns : List Text

pub record OptimisticLockingInfo : Type 0 where
  pub enabled : Bool
  pub column : Text
  pub current : Any
  pub next : Any
  pub conflict : Bool

-- The one execution status is "Skipped".
pub data ExecutionStatus : Type 0 where
  skipped : ExecutionStatus

-- A value of the metadata: a text or a count.
pub data MetaValue : Type 0 where
  a_text : Text → MetaValue
  a_count : ℕ → MetaValue

pub record ExecutionReport : Type 0 where
  pub version : ℕ
  pub operation : Text
  pub table : Text
  pub sql : Text
  pub parameters : List Any
  pub statements : List ExecutionStatement
  pub access_policies : List AccessPolicyEvent
  pub audit_actions : List AuditAction
  pub lifecycle_hooks : List LifecycleHookEvent
  pub query_advisor : List QueryAdvisorFinding
  pub optimistic_locking : Option OptimisticLockingInfo
  pub execution_status : ExecutionStatus
  pub metadata : List (Text × MetaValue)

pub record Recorder : Type 0 where
  pub report : ExecutionReport
  pub hook_order : ℕ
  pub statements : List ExecutionStatement
