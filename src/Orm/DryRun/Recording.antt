-- ===== src/Orm/DryRun/Recording.antt =====
-- What a recorder holds after any sequence of its calls.
use dorm.Prelude.{
  ℕ, suc, ◌+◌, none, some, List, [], ◌∷◌, ◌++◌, flat, length, length-append, ◌≡◌, ◌⊎◌, inl, inr,
  refl, arith, Text,
}
use dorm.Value.{Any}
use dorm.Orm.DryRun.Calls.{
  Call, metadata, operation, table, statement, access_policy, audit_action, hook, advisor,
  optimistic_lock, call, calls, statements_of, policies_of, audits_of, hooks_of, advice_of,
  hook_names, calls-appends, call-statements, call-listed, call-policies, call-audits, call-advice,
  call-hooks,
}
use dorm.Orm.DryRun.{
  ExecutionStatement, LifecycleHookEvent, Recorder, new_recorder, set_metadata, set_operation,
  set_table, record_statement, record_access_policy, record_audit_action, record_hook,
  record_advisor, record_optimistic_lock,
}

-- The hooks are numbered from a number on.
abbrev pub IsNumbered : ℕ → List LifecycleHookEvent → Type 0
IsNumbered n [] = Unit
IsNumbered n (h ∷ hs) = (h.order ≡ n) × IsNumbered (suc n) hs

-- The text and the arguments are those of the last statement, or empty where there is none.
abbrev pub IsLast : List ExecutionStatement → Text → List Any → Type 0
IsLast statements sql args =
    ((statements ≡ []) × (sql ≡ []) × (args ≡ []))
    ⊎ ((before : List ExecutionStatement) × (last : ExecutionStatement) × (statements
          ≡ before ++ last ∷ [])
        × (sql ≡ last.sql)
        × (args ≡ last.parameters))

record IsConsistent (r : Recorder) : Type 0 where
  pub last : IsLast r.statements r.report.sql r.report.parameters
  pub hooks : IsNumbered 1 r.report.lifecycle_hooks
  pub counted : r.hook_order ≡ length r.report.lifecycle_hooks

append-IsNumbered :
    (n : ℕ) (hs : List LifecycleHookEvent) (h : LifecycleHookEvent)
    → IsNumbered n hs
    → h.order ≡ n + length hs
    → IsNumbered n (hs ++ h ∷ [])
append-IsNumbered n [] h i e = (omega (arith, e), tt)
append-IsNumbered n (g ∷ hs) h i e = (i.0, append-IsNumbered (suc n) hs h (i.1) (omega (arith, e)))

call-IsConsistent : (c : Call) (r : Recorder) → IsConsistent r → IsConsistent (call c r)
unfolding call set_metadata set_operation set_table record_statement record_access_policy
    record_audit_action record_hook record_advisor record_optimistic_lock
call-IsConsistent (metadata key value) r h = record {
  last = h.last;
  hooks = h.hooks;
  counted = h.counted;
}
call-IsConsistent (operation name) r h = record {
  last = h.last;
  hooks = h.hooks;
  counted = h.counted;
}
call-IsConsistent (table name) r h = record { last = h.last; hooks = h.hooks; counted = h.counted }
call-IsConsistent (statement name sql args) r h =
    let made : ExecutionStatement = record { operation = name; sql = sql; parameters = args } in
    record {
      last = inr (r.statements, made, refl, refl, refl);
      hooks = h.hooks;
      counted = h.counted;
    }
call-IsConsistent (access_policy event) r h = record {
  last = h.last;
  hooks = h.hooks;
  counted = h.counted;
}
call-IsConsistent (audit_action action) r h = record {
  last = h.last;
  hooks = h.hooks;
  counted = h.counted;
}
call-IsConsistent (hook name model) r h = record {
  last = h.last;
  hooks = append-IsNumbered 1 r.report.lifecycle_hooks _ h.hooks (omega (arith, h.counted));
  counted = omega (arith, h.counted, length-append r.report.lifecycle_hooks (_ ∷ []));
}
call-IsConsistent (advisor findings) r h = record {
  last = h.last;
  hooks = h.hooks;
  counted = h.counted;
}
call-IsConsistent (optimistic_lock none) r h = h
call-IsConsistent (optimistic_lock (some info)) r h = record {
  last = h.last;
  hooks = h.hooks;
  counted = h.counted;
}

calls-IsConsistent : (cs : List Call) (r : Recorder) → IsConsistent r → IsConsistent (calls cs r)
unfolding calls
calls-IsConsistent [] r h = h
calls-IsConsistent (c ∷ cs) r h = calls-IsConsistent cs (call c r) (call-IsConsistent c r h)

new_recorder-IsConsistent : IsConsistent new_recorder
unfolding new_recorder
new_recorder-IsConsistent = record { last = inl (refl, refl, refl); hooks = tt; counted = refl }

-- What a recorder holds when it has been asked for certain calls.
pub record HasRecorded (cs : List Call) (r : Recorder) : Type 0 where
  pub statements : r.statements ≡ flat statements_of cs
  pub listed : r.report.statements ≡ flat statements_of cs
  pub last : IsLast (flat statements_of cs) r.report.sql r.report.parameters
  pub policies : r.report.access_policies ≡ flat policies_of cs
  pub audits : r.report.audit_actions ≡ flat audits_of cs
  pub advice : r.report.query_advisor ≡ flat advice_of cs
  pub hooks : hook_names r ≡ flat hooks_of cs
  pub numbered : IsNumbered 1 r.report.lifecycle_hooks
  pub counted : r.hook_order ≡ length r.report.lifecycle_hooks

-- After any calls of a new recorder: its own list and the report's list have the statements of the
-- calls, all of them in order, and the report's text and arguments are those of the last one; the
-- report has the policy events, the audit actions, the advice and the hooks of the calls, in order,
-- and the hooks are numbered from 1 on, up to the recorder's count.
pub calls-HasRecorded : (cs : List Call) → HasRecorded cs (calls cs new_recorder)
unfolding new_recorder
calls-HasRecorded cs =
    let fine = calls-IsConsistent cs new_recorder new_recorder-IsConsistent in
    let all = calls-appends (λ r. r.statements) statements_of call-statements cs new_recorder in
    record {
      statements = all;
      listed = calls-appends (λ r. r.report.statements) statements_of call-listed cs new_recorder;
      last = rw (← all) fine.last;
      policies =
          calls-appends (λ r. r.report.access_policies) policies_of call-policies cs new_recorder;
      audits = calls-appends (λ r. r.report.audit_actions) audits_of call-audits cs new_recorder;
      advice = calls-appends (λ r. r.report.query_advisor) advice_of call-advice cs new_recorder;
      hooks = calls-appends hook_names hooks_of call-hooks cs new_recorder;
      numbered = fine.hooks;
      counted = fine.counted;
    }
