-- ===== src/Orm/Session.antt =====
-- orm/orm.go: Create, Update, UpdateWhere, Delete, SoftDelete and Upsert of a session, from the
-- hooks to the driver and back, with what a dry run records on the way. Tracing and logging are left
-- out, and so is the check that the handle's transaction is still open. The table is the one that
-- the model's type resolves to. On an error the struct is not handed back.
pub mod Scoped
pub mod Locking
pub mod Statements
unfoldable pub use Statements.*
use dorm.Prelude.{
  ℕ, suc, ◌+◌, ◌==◌, Bool, true, false, not, Option, none, some, List, [], ◌∷◌, ◌++◌, map, length,
  Text, txt, join, is_nil, contains, trim_suffix, if◌then◌else◌,
}
use dorm.Value.{Any, ℤ, pos, negsuc}
use dorm.Schema.Types.{Column, Table}
use dorm.Errors.{Kind, Result, Error, ok, err, new, wrap, context}
use dorm.Dialect.{Dialect}
use dorm.Access.Policy.{Ctx, policy_from_context, enforces_soft_delete}
use dorm.Access.Engine
use dorm.Access.Engine.{Predicate, soft_delete_column}
use dorm.Orm.DryRun.{Recorder, set_table, set_operation, record_hook}
use dorm.Orm.DryRun.Events.{
  Change, changed, policy_changes, populate_changes, struct_changes, soft_delete_changes,
  lock_changes,
}
use dorm.Orm.Exec.{Exec, ◌>>=◌, ◌>>◌, lift, raise, pure, continue}
use dorm.Orm.Query.{QueryOption, run_option, QueryState, initial_state}
use dorm.Orm.Write.{
  Runtime, Model, Values, VersionInfo, set_field_by_column, set_both, populate_audit_and_scope,
  apply_struct_field_values, ordered_columns_and_args, returning_columns, primary_key_column_names,
  conflict_columns, optimistic_locking_info, update_set_clauses, upsert_set_clauses,
  build_where_clauses, access_predicates, primary_key_values,
}

-- What a session works with besides its own state: the Go runtime, the dialect, the time of the
-- call, the recorder of a dry run, if it is one, the model's type name and hooks, and the driver. `query` gives the rows, each as columns with values, and
-- `exec` the number of affected rows if the driver knows it.
pub record Env (W : Type 0) : Type 0 where
  pub runtime : Runtime
  pub dialect : Dialect
  pub now : Any
  pub dry_run : Option ((Recorder → Recorder) → W → W)
  pub model_name : Text
  pub before_create : Model → Exec W Model
  pub after_create : Model → Exec W Model
  pub before_update : Model → Exec W Model
  pub after_update : Model → Exec W Model
  pub before_delete : Model → Exec W Model
  pub after_delete : Model → Exec W Model
  pub query : Text → List Any → Exec W (List Values)
  pub exec : Text → List Any → Exec W (Option ℤ)

scan_row : Runtime → Values → Model → Model
scan_row rt [] m = m
scan_row rt ((col, v) ∷ row) m = scan_row rt row (set_field_by_column rt m col v)

unfoldable pub first_row : Runtime → List Values → Model → Model
unfolding scan_row
first_row rt [] m = m
first_row rt (row ∷ rows) m = scan_row rt row m

known : Option ℤ → ℤ
known none = negsuc 0
known (some n) = n

unfoldable pub hook_failed : {A : Type 0} → Text → Text → Result A → Result A
hook_failed hook model (ok a) = ok a
hook_failed hook model (err e) = err (context (hook ++ (txt "(" ++ (model ++ txt ")"))) e)

module _ {W : Type 0} (env : Env W) where
  -- Changes of the recorder, which only a dry run has.
  unfoldable pub note : List Change → Exec W Unit
  unfolding changed
  note fs w = (ok tt, elim env.dry_run [ none ↦ w | some change ↦ change (changed fs) w ])

  -- `setTable` and `setOperation`.
  unfoldable pub note_target : Table → Text → Exec W Unit
  unfolding note
  note_target table operation = note (set_table table.name ∷ set_operation operation ∷ [])

  -- `invokeLifecycleHook`: the hook is recorded whether or not the model has it.
  unfoldable pub invoke : Text → (Model → Exec W Model) → Model → Exec W Model
  unfolding note hook_failed
  invoke name hook m = do
    note (record_hook name env.model_name ∷ [])
    λ w. let (r, w') = hook m w in (hook_failed name env.model_name r, w')

module _ {W : Type 0} (env : Env W) where
  -- The number of rows, and the model with what the first row returns.
  unfoldable pub exec_returning : Text → List Any → Model → Exec W (ℤ × Model)
  unfolding first_row known
  exec_returning text args m =
      if contains (txt " RETURNING ") (map env.runtime.unicode.to_upper text)
      then (do rows ← env.query text args; pure (pos (length rows), first_row env.runtime rows m))
      else (do n ← env.exec text args; pure (known n, m))

  unfoldable pub create : Ctx → Table → Model → Exec W Model
  unfolding wrapped note note_target invoke
  create ctx table given = do
    note env (policy_changes (policy_from_context ctx))
    hooked ← invoke env (txt "BeforeCreate") env.before_create given
    note_target env table (txt "create")
    populated ←
        lift (populate_audit_and_scope env.runtime ctx table Engine.insert env.now ([], hooked))
    note env (populate_changes ctx table Engine.insert env.now)
    note env (struct_changes env.runtime ctx table env.now true populated)
    let (values, m) = apply_struct_field_values env.runtime ctx table env.now true populated
    let (cols, args) = ordered_columns_and_args table values true
    if is_nil cols
        then raise (new Kind.invalid_schema (txt "orm: no insertable columns for " ++ table.name))
        else (do
          text ← lift (
              wrapped (txt "orm: render insert")
                (env.dialect.render_insert table.name cols (returning_columns table)))
          done ← exec_returning text args m
          invoke env (txt "AfterCreate") env.after_create done.1)

unfoldable pub is_zero : ℤ → Bool
is_zero (pos n) = n == 0
is_zero (negsuc n) = false

locking_failed : Error
locking_failed = new Kind.optimistic_lock_failed []

-- `rowsAffected == 0` under optimistic locking.
unfoldable pub is_conflict : Option VersionInfo → ℤ → Bool
unfolding is_zero
is_conflict none n = false
is_conflict (some v) n = is_zero n

module _ {W : Type 0} (env : Env W) where
  -- The end of an update, from the values of the struct on.
  unfoldable pub send_update : Ctx → Table → Target → Values × Model → Exec W Model
  unfolding exec_returning locking_failed update_statement is_conflict note invoke
  send_update ctx table target filled = do
    let info = optimistic_locking_info env.runtime table filled.1
    note env (lock_changes info false)
    statement ← lift (update_statement env.runtime env.dialect ctx table target filled)
    done ← exec_returning env statement.0 statement.1 filled.1
    note env (lock_changes info (is_zero done.0))
    if is_conflict info done.0
        then raise locking_failed
        else invoke env (txt "AfterUpdate") env.after_update done.1

  -- `Update` with `by_key`, `UpdateWhere` with `by_options`.
  unfoldable pub update : Ctx → Table → Target → Model → Exec W Model
  unfolding note note_target invoke send_update
  update ctx table target given = do
    note env (policy_changes (policy_from_context ctx))
    hooked ← invoke env (txt "BeforeUpdate") env.before_update given
    note_target env table (txt "update")
    populated ←
        lift (populate_audit_and_scope env.runtime ctx table Engine.update env.now ([], hooked))
    note env (populate_changes ctx table Engine.update env.now)
    note env (struct_changes env.runtime ctx table env.now false populated)
    send_update ctx table target
        (apply_struct_field_values env.runtime ctx table env.now false populated)

wrap_soft_delete : {A : Type 0} → Result A → Result A
wrap_soft_delete (ok a) = ok a
wrap_soft_delete (err e) = err (wrap Kind.runtime_query (txt "orm: soft delete") e)

failed_soft_delete : {W : Type 0} → Exec W (Option ℤ) → Exec W (Option ℤ)
unfolding wrap_soft_delete
failed_soft_delete m w = let (r, w') = m w in (wrap_soft_delete r, w')

module _ {W : Type 0} (env : Env W) where
  pub soft_delete : Ctx → Table → Column → Model → Exec W Model
  unfolding soft_delete_statement failed_soft_delete note
  soft_delete ctx table soft m = do
    note env (soft_delete_changes ctx table soft env.now)
    built ← lift (soft_delete_statement env.runtime env.dialect ctx table soft env.now m)
    failed_soft_delete (env.exec built.0.0 built.0.1)
    pure built.1

  unfoldable pub delete : Ctx → Table → Model → Exec W Model
  unfolding soft_delete soft_delete_column delete_statement note note_target invoke
  delete ctx table given = do
    note env (policy_changes (policy_from_context ctx))
    hooked ← invoke env (txt "BeforeDelete") env.before_delete given
    note_target env table (txt "delete")
    if enforces_soft_delete (policy_from_context ctx)
        then elim (soft_delete_column (some table)) [
          | some soft ↦ (do
            m ← soft_delete ctx table soft hooked
            invoke env (txt "AfterDelete") env.after_delete m)
          | none ↦ (do
            built ← lift (delete_statement env.runtime env.dialect ctx table hooked)
            env.exec built.0 built.1
            invoke env (txt "AfterDelete") env.after_delete hooked)
        ]
        else (do
          built ← lift (delete_statement env.runtime env.dialect ctx table hooked)
          env.exec built.0 built.1
          invoke env (txt "AfterDelete") env.after_delete hooked)

  -- `SoftDelete`, which insists on a soft deletion column.
  unfoldable pub soft_delete_model : Ctx → Table → Model → Exec W Model
  unfolding soft_delete soft_delete_column note note_target invoke
  soft_delete_model ctx table given = do
    note env (policy_changes (policy_from_context ctx))
    hooked ← invoke env (txt "BeforeDelete") env.before_delete given
    note_target env table (txt "soft_delete")
    elim (soft_delete_column (some table)) [
      | some soft ↦ (do
        m ← soft_delete ctx table soft hooked
        invoke env (txt "AfterDelete") env.after_delete m)
      | none ↦ raise (
          new Kind.invalid_schema
            (txt "orm: table " ++ (table.name ++ txt " has no soft delete column")))
    ]

  -- `Upsert`; it runs no hooks.
  unfoldable pub upsert : Ctx → Table → Model → Exec W Model
  unfolding exec_returning note note_target
  upsert ctx table given = do
    note env (policy_changes (policy_from_context ctx))
    note_target env table (txt "upsert")
    note env (struct_changes env.runtime ctx table env.now true ([], given))
    let filled = apply_struct_field_values env.runtime ctx table env.now true ([], given)
    populated ← lift (populate_audit_and_scope env.runtime ctx table Engine.insert env.now filled)
    note env (populate_changes ctx table Engine.insert env.now)
    let (cols, args) = ordered_columns_and_args table populated.0 true
    let conflict = conflict_columns table
    if is_nil cols
        then raise (new Kind.invalid_schema (txt "orm: no upsertable columns for " ++ table.name))
        else if is_nil conflict
        then raise
            (new Kind.invalid_schema (txt "orm: upsert requires primary key or unique constraint"))
        else (do
          text ← lift (env.dialect.render_insert table.name cols (returning_columns table))
          let set = upsert_set_clauses table populated.0 conflict env.dialect
          let conflict_text = join (txt ", ") (map env.dialect.quote_ident conflict)
          done ←
              exec_returning env
                (trim_suffix (txt ";") text
                  ++ (txt " ON CONFLICT ("
                      ++ (conflict_text
                          ++ (txt ") DO UPDATE SET " ++ (join (txt ", ") set ++ txt ";")))))
                args populated.1
          pure done.1)
