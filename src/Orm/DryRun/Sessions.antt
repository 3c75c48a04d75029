-- ===== src/Orm/DryRun/Sessions.antt =====
-- The sessions modelled, over the connection of a dry run.
use dorm.Prelude.{
  true, false, some, is_some, List, [], ◌∷◌, ◌++◌, map, ◌≡◌, refl, ◌∙◌, ap, Text, txt, contains,
  Bool-cases, inl, inr, if◌then◌else◌, All, none, length, trim,
}
use dorm.Value.{Any, ℤ, pos}
use dorm.Schema.Types.{Table}
use dorm.Errors.{ok}
use dorm.Dialect.{Dialect}
use dorm.Access.Policy.{Ctx, policy_from_context}
use dorm.Access.Engine
use dorm.Orm.Write.{
  Runtime, Model, Values, populate_audit_and_scope, apply_struct_field_values,
  optimistic_locking_info,
}
use dorm.Orm.Exec.{pure}
use dorm.Orm.Session.{
  Env, Target, exec_returning, first_row, update_statement, is_conflict, is_zero, note, note_target,
  invoke, hook_failed, first_row, send_update, update,
}
use dorm.Orm.DryRun.{
  Recorder, DryRunStates, state_of, on_recorder, record_statement, record_hook, set_table,
  set_operation, exec_context, query_context,
}
use dorm.Orm.DryRun.Events.{
  Change, changed, policy_changes, populate_changes, struct_changes, lock_changes,
}
use dorm.Orm.DryRun.Events.Aside.{
  IsAside, changed-append, All-append, hook-IsAside, policy_changes-IsAside,
  populate_changes-IsAside, struct_changes-IsAside, lock_changes-IsAside,
}
use dorm.Orm.DryRun.Isolation.{state_of-on_recorder_same}
use dorm.Orm.DryRun.Sent.{
  sent, HasSent, aside-HasTarget, record_statement-HasSent, target-HasTarget,
}

-- The session of `run`, for a model without hooks: the driver is the connection of the identifier, and
-- the recorder is the identifier's.
unfoldable pub dry_env : Runtime → Dialect → Any → Text → Text → Env DryRunStates
unfolding exec_context query_context on_recorder
dry_env rt dialect now model id = record {
  runtime = rt;
  dialect = dialect;
  now = now;
  dry_run = some (on_recorder id);
  model_name = model;
  before_create = pure;
  after_create = pure;
  before_update = pure;
  after_update = pure;
  before_delete = pure;
  after_delete = pure;
  query = query_context rt.unicode id;
  exec = exec_context id;
}

module _ (rt : Runtime) (dialect : Dialect) (now : Any) (model id : Text) where
  abbrev env : Env DryRunStates
  env = dry_env rt dialect now model id

  -- The rows of a statement that is recorded.
  query-records :
      (text : Text) (args : List Any) (w : DryRunStates)
      → is_some (state_of id w) ≡ true
      → (rows : List Values) × (query_context rt.unicode id text args w
          ≡ (ok rows, on_recorder id (record_statement (txt "query") text args) w))
  unfolding query_context
  query-records text args w held = (
    if contains (txt "returning") (map rt.unicode.to_lower (trim text))
        then ((txt "value", none) ∷ []) ∷ []
        else [],
    rw (query_context, held) refl,
  )

  -- A statement is recorded, and never fails.
  exec_returning-records :
      (statement : Text × List Any) (m : Model) (w : DryRunStates)
      → is_some (state_of id w) ≡ true
      → (done : ℤ × Model) × (exec_returning env statement.0 statement.1 m w ≡ (
        ok done,
        on_recorder id (record_statement (sent rt statement).operation statement.0 statement.1) w,
      ))
  unfolding exec_returning dry_env exec_context
  exec_returning-records (text, args) m w held =
      elim (Bool-cases (contains (txt " RETURNING ") (map rt.unicode.to_upper text))) [
        | inl rows ↦
            let (found, e) = query-records text args w held in
            ((pos (length found), first_row rt found m), rw (exec_returning, rows, e) refl)
        | inr none_ ↦ ((pos 0, m), rw (exec_returning, none_, held) refl)
      ]

  -- The end of an update changes the recorder by what is aside and by the statement.
  send_update-records :
      (ctx : Ctx) (table : Table) (target : Target) (filled : Values × Model)
      (statement : Text × List Any) (w : DryRunStates) (r : Recorder)
      → state_of id w ≡ some r
      → update_statement rt dialect ctx table target filled ≡ ok statement
      → (head tail : List Change) × All IsAside head
        × All IsAside tail
        × (state_of id (send_update env ctx table target filled w).1
            ≡ some (
                changed tail (
                  record_statement
                    (sent rt statement).operation
                    statement.0
                    statement.1
                    (changed head r))))
  unfolding send_update note dry_env invoke
  send_update-records ctx table target filled statement w r held built =
      let info = optimistic_locking_info rt table filled.1 in
      let before = lock_changes info false in
      let w1 = on_recorder id (changed before) w in
      let held1 = state_of-on_recorder_same id (changed before) w r held in
      let (done, sending) = exec_returning-records statement filled.1 w1 (ap is_some held1) in
      let step = record_statement (sent rt statement).operation statement.0 statement.1 in
      let held2 = state_of-on_recorder_same id step w1 (changed before r) held1 in
      let after = lock_changes info (is_zero done.0) in
      let w3 = on_recorder id (changed after) (on_recorder id step w1) in
      let held3 = state_of-on_recorder_same id (changed after) (on_recorder id step w1) _ held2 in
      elim (Bool-cases (is_conflict info done.0)) [
        | inl lost ↦ (
          before,
          after,
          lock_changes-IsAside info false,
          lock_changes-IsAside info (is_zero done.0),
          rw (send_update, built, sending, lost) held3,
        )
        | inr fine ↦ (
          before,
          after ++ record_hook (txt "AfterUpdate") model ∷ [],
          lock_changes-IsAside info false,
          All-append after (record_hook (txt "AfterUpdate") model ∷ [])
              (lock_changes-IsAside info (is_zero done.0))
              (hook-IsAside (txt "AfterUpdate") model, tt),
          rw (send_update, built, sending, fine)
              (state_of-on_recorder_same id (changed (record_hook (txt "AfterUpdate") model ∷ []))
                  w3 _ held3
                ∙ ap some (changed-append after (record_hook (txt "AfterUpdate") model ∷ []) _)),
        )
      ]

  -- A dry run of Update or UpdateWhere on a model without hooks, once the policy engine and the statement
  -- have passed: the recorder has what it had and exactly one more statement, the one that the session
  -- sends, with its arguments and the driver's call, in its own list and in the report; the report names
  -- the table and the operation "update".
  pub update-records :
      (ctx : Ctx) (table : Table) (target : Target) (m : Model) (w : DryRunStates) (r : Recorder)
      (populated : Values × Model) (statement : Text × List Any)
      → state_of id w ≡ some r
      → populate_audit_and_scope rt ctx table Engine.update now ([], m) ≡ ok populated
      → update_statement rt dialect ctx table target
          (apply_struct_field_values rt ctx table now false populated)
        ≡ ok statement
      → (r' : Recorder) × (state_of id (update env ctx table target m w).1 ≡ some r')
        × HasSent rt statement table.name r r'
  unfolding update note note_target invoke hook_failed dry_env
  update-records ctx table target m w r populated statement held passed built =
      let policy = policy_changes (policy_from_context ctx) in
      let hook : List Change = record_hook (txt "BeforeUpdate") model ∷ [] in
      let aim : List Change = set_table table.name ∷ set_operation (txt "update") ∷ [] in
      let fields = populate_changes ctx table Engine.update now in
      let struct = struct_changes rt ctx table now false populated in
      let filled = apply_struct_field_values rt ctx table now false populated in
      let w1 = on_recorder id (changed policy) w in
      let h1 = state_of-on_recorder_same id (changed policy) w r held in
      let w2 = on_recorder id (changed hook) w1 in
      let h2 = state_of-on_recorder_same id (changed hook) w1 _ h1 in
      let w3 = on_recorder id (changed aim) w2 in
      let h3 = state_of-on_recorder_same id (changed aim) w2 _ h2 in
      let w4 = on_recorder id (changed fields) w3 in
      let h4 = state_of-on_recorder_same id (changed fields) w3 _ h3 in
      let w5 = on_recorder id (changed struct) w4 in
      let h5 = state_of-on_recorder_same id (changed struct) w4 _ h4 in
      let (head, tail, aside, aside', done) =
        send_update-records ctx table target filled statement w5 _ h5 built in
      (
        _,
        rw (update, passed) done,
        record_statement-HasSent rt statement table.name r _ tail aside' (
            aside-HasTarget head table.name r _ aside (
              aside-HasTarget struct table.name r _
                (struct_changes-IsAside rt ctx table now false populated)
                (aside-HasTarget fields table.name r _
                  (populate_changes-IsAside ctx table Engine.update now)
                  (target-HasTarget policy hook table r
                    (policy_changes-IsAside (policy_from_context ctx))
                    (hook-IsAside (txt "BeforeUpdate") model, tt))))),
      )
