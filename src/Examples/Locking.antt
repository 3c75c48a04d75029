-- ===== src/Examples/Locking.antt =====
-- An update of an invoice whose version no row has any more.
use dorm.Prelude.{contains, none, some, List, [], ◌∷◌, ◌++◌, ◌≡◌, refl, Text, txt, length, false}
use dorm.Value.{Any, num, int64, time, pos}
use dorm.Errors.{Kind, ok, err, new}
use dorm.Dialect.Postgres.{postgres, render_update, placeholder}
use dorm.Access.Policy.{policy_from_context, enforces_audit}
use dorm.Access.Engine
use dorm.Access.Engine.{apply}
use dorm.Orm.Exec.{Exec}
use dorm.Orm.Query.{bind_clause}
use dorm.Orm.Write.{
  Model, Values, VersionInfo, populate_audit_and_scope, apply_struct_field_values,
  set_field_by_column, optimistic_locking_info, returning_columns,
}
use dorm.Orm.Session.{Env, by_key, note, note_target, invoke, send_update, update, update_statement}
use dorm.Orm.Session.Locking.{update_statement-locks}
use dorm.Orm.DryRun.{Recorder, DryRunStates, new_recorder, state_of}
use dorm.Orm.DryRun.Sent.{HasSent}
use dorm.Orm.DryRun.Sessions.{dry_env, update-records}
use dorm.Examples.Data.{go, invoices, invoice, ann_ctx, acme, ann, seven}

abbrev Log : Type 0
Log = List (Text × List Any)

abbrev nothing : Model → Exec Log Model
nothing m log = (ok m, log)

abbrev noon : Any
noon = some (time 43200)

-- A database in which no row matches.
abbrev stale : Env Log
stale = record {
  runtime = go;
  dialect = postgres;
  now = noon;
  dry_run = none;
  model_name = txt "Invoice";
  before_create = nothing;
  after_create = nothing;
  before_update = nothing;
  after_update = nothing;
  before_delete = nothing;
  after_delete = nothing;
  query = λ text args log. (ok [], (text, args) ∷ log);
  exec = λ text args log. (ok (some (pos 0)), (text, args) ∷ log);
}

abbrev populated : Values × Model
populated = (
  (txt "editor", ann) ∷ [],
  (txt "id", seven)
      ∷ (txt "tenant_id", acme)
      ∷ (txt "total", seven)
      ∷ (txt "editor", ann)
      ∷ (txt "deleted_at", none)
      ∷ (txt "version", some (num int64 (pos 1)))
      ∷ [],
)

populated_run :
    populate_audit_and_scope go ann_ctx invoices Engine.update noon ([], invoice) ≡ ok populated
unfolding populate_audit_and_scope apply policy_from_context set_field_by_column
populated_run = refl

abbrev filled : Values × Model
filled = apply_struct_field_values go ann_ctx invoices noon false populated

abbrev version_info : VersionInfo
version_info = record {
  column = txt "version";
  current = some (num int64 (pos 1));
  next = some (num int64 (pos 2));
}

locked : optimistic_locking_info go invoices filled.1 ≡ some version_info
unfolding optimistic_locking_info apply_struct_field_values policy_from_context set_field_by_column
    enforces_audit
locked = refl

abbrev statement : Text × List Any
statement = (
  txt
      "UPDATE \"invoices\" SET \"tenant_id\" = $1, \"total\" = $2, \"editor\" = $3, \"deleted_at\" = $4, \"version\" = \"version\" + 1 WHERE \"id\" = $5 AND tenant_id = $6 AND \"version\" = $7 RETURNING \"id\", \"deleted_at\", \"version\"",
  acme ∷ seven ∷ ann ∷ noon ∷ seven ∷ acme ∷ some (num int64 (pos 1)) ∷ [],
)

stated : update_statement go postgres ann_ctx invoices by_key filled ≡ ok statement
unfolding update_statement apply apply_struct_field_values policy_from_context set_field_by_column
    render_update placeholder
stated = refl

-- A conflict is an error, behind the statement.
conflict_run :
    update stale ann_ctx invoices by_key invoice []
    ≡ (err (new Kind.optimistic_lock_failed []), statement ∷ [])
unfolding update send_update note note_target invoke populate_audit_and_scope apply
    apply_struct_field_values policy_from_context set_field_by_column render_update contains
    placeholder
conflict_run = refl

-- A database in which one row matches.
abbrev current : Env Log
current = record stale { query = λ text args log. (ok ([] ∷ []), (text, args) ∷ log) }

locks_example :
    (set clauses : List Text) × (init : List Any) × (let tested =
        (bind_clause postgres
          (postgres.quote_ident (txt "version") ++ txt " = ?")
          (some (num int64 (pos 1)) ∷ [])
          (length statement.1)).0 in
      postgres.render_update invoices.name
        (set
          ++ (postgres.quote_ident (txt "version")
              ++ (txt " = " ++ (postgres.quote_ident (txt "version") ++ txt " + 1")))
            ∷ [])
        (clauses ++ tested ∷ [])
        (returning_columns invoices)
      ≡ ok statement.0)
    × (statement.1 ≡ init ++ some (num int64 (pos 1)) ∷ [])
locks_example =
    update_statement-locks go postgres ann_ctx invoices by_key filled version_info statement.0
      statement.1 locked stated

abbrev dry_states : DryRunStates
dry_states = record { states = (txt "dryrun_1", new_recorder) ∷ []; seq = 1 }

dry_example :
    (r : Recorder) × (state_of
        (txt "dryrun_1")
        (update
          (dry_env go postgres noon (txt "Invoice") (txt "dryrun_1"))
          ann_ctx
          invoices
          by_key
          invoice
          dry_states).1
      ≡ some r)
    × HasSent go statement invoices.name new_recorder r
unfolding state_of
dry_example =
    update-records go postgres noon (txt "Invoice") (txt "dryrun_1") ann_ctx invoices by_key invoice
      dry_states new_recorder populated statement refl populated_run stated
