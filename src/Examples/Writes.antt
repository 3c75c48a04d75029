-- ===== src/Examples/Writes.antt =====
-- Writes to the invoices: what Create, Update, Delete and Upsert send to a database that answers
-- every statement with one row.
use dorm.Prelude.{
  contains, trim_suffix, ◌+◌, none, some, List, [], ◌∷◌, ◌++◌, ◌≡◌, refl, In, here, there, Text,
  txt, length, flat,
}
use dorm.Value.{Any, Value, num, int8, int64, time, pos, negsuc}
use dorm.Errors.{Kind, ok, err, new}
use dorm.Dialect.Placeholders.{substitute}
use dorm.Dialect.Postgres.{postgres, render_insert, render_update, render_delete, placeholder}
use dorm.Access.Policy.{policy_from_context, allows_scope, enforces_soft_delete}
use dorm.Access.Engine.{Predicate, apply, scope_value, scope_predicate}
use dorm.Orm.Exec.{Exec}
use dorm.Orm.Write.{
  ordered_columns_and_args, conflict_columns, returning_columns, upsert_set_clauses, Model, Values,
  set_field_by_column, apply_struct_field_values, populate_audit_and_scope, update_set_clauses,
  build_where_clauses, key_clauses, increment_version_value,
}
use dorm.Orm.Write.Clauses.{set_names, set_values, update-numbering}
use dorm.Orm.Query.Binding.{concat}
use dorm.Orm.Session.{
  Env, by_key, create, exec_returning, update, delete, soft_delete_model, upsert, update_rows, note,
  note_target, invoke,
}
use dorm.Orm.Session.Scoped.{update_rows-scopes}
use dorm.Examples.Data.{go, invoices, notes, invoice, tenant_column, ann_ctx, acme, ann, seven}

abbrev Log : Type 0
Log = List (Text × List Any)

abbrev nothing : Model → Exec Log Model
nothing m log = (ok m, log)

abbrev noon : Any
noon = some (time 43200)

abbrev env : Env Log
env = record {
  runtime = go;
  dialect = postgres;
  now = noon;
  dry_run = none;
  model_name = txt "Invoice";
  before_create = nothing;
  after_create = nothing;
  before_update = nothing;
  after_update = nothing;
  before_delete = nothing;
  after_delete = nothing;
  query = λ text args log. (ok ([] ∷ []), (text, args) ∷ log);
  exec = λ text args log. (ok (some (pos 1)), (text, args) ∷ log);
}

-- Version arithmetic wraps around.
version_wraps :
    increment_version_value (some (num int8 (pos 127))) ≡ some (some (num int8 (negsuc 127)))
unfolding increment_version_value
version_wraps = refl

numbered_update_example :
    let values : Values = (txt "total", seven) ∷ (txt "deleted_at", noon) ∷ [] in
    let preds : List Predicate = record { sql = txt "tenant_id = ?"; args = acme ∷ [] } ∷ [] in
    let (set, args) = update_set_clauses invoices values (txt "id" ∷ []) postgres in
    let (clauses, where_args) =
      build_where_clauses (txt "id" ∷ []) (seven ∷ []) preds (length args + 1) postgres in
    let names = set_names values (txt "id" ∷ []) invoices.columns in
    (set ≡ key_clauses postgres 1 names)
    × (args ≡ set_values values (txt "id" ∷ []) invoices.columns)
    × (length args ≡ length names)
    × ((texts : List Text) × (clauses
          ≡ key_clauses postgres (length names + 1) (txt "id" ∷ []) ++ texts)
        × (concat texts
            ≡ substitute placeholder
                (length names + 1 + length (txt "id" ∷ []))
                (flat (λ p. p.sql) preds)))
    × (where_args ≡ (seven ∷ []) ++ flat (λ p. p.args) preds)
numbered_update_example =
    update-numbering postgres invoices ((txt "total", seven) ∷ (txt "deleted_at", noon) ∷ [])
      (txt "id" ∷ []) (txt "id" ∷ []) (seven ∷ [])
      (record { sql = txt "tenant_id = ?"; args = acme ∷ [] } ∷ []) (refl, tt)

-- The struct and the values of an update, as the policy engine leaves them.
abbrev populated : Values × Model
populated = (
  (txt "editor", ann) ∷ [],
  (txt "id", seven)
      ∷ (txt "tenant_id", acme)
      ∷ (txt "total", seven)
      ∷ (txt "editor", ann)
      ∷ (txt "deleted_at", none)
      ∷ (txt "version", some (num int64 (pos 1)))
      ∷ [],
)

abbrev rows : List Text × List Any × List Predicate
rows = (txt "id" ∷ [], seven ∷ [], record { sql = txt "tenant_id = ?"; args = acme ∷ [] } ∷ [])

update_rows_example : (v : Value) × (acme ≡ some v) × In (scope_predicate tenant_column acme) rows.2
unfolding populate_audit_and_scope set_field_by_column update_rows apply scope_value allows_scope
    policy_from_context
update_rows_example =
    update_rows-scopes go ann_ctx invoices by_key noon ([], invoice) populated invoice rows
      tenant_column acme refl refl (there here) refl refl

delete_run : delete env ann_ctx notes invoice [] ≡ (
  ok invoice,
  (txt "DELETE FROM \"notes\" WHERE \"id\" = $1 AND tenant_id = $2", seven ∷ acme ∷ []) ∷ [],
)
unfolding note note_target invoke delete enforces_soft_delete policy_from_context render_delete
    apply placeholder
delete_run = refl

soft_delete_run :
    (soft_delete_model env ann_ctx notes invoice []).0
    ≡ err (new Kind.invalid_schema (txt "orm: table notes has no soft delete column"))
unfolding note note_target invoke soft_delete_model
soft_delete_run = refl

create_run :
    (create env ann_ctx notes invoice []).1
    ≡ (
      txt "INSERT INTO \"notes\" (\"id\", \"tenant_id\") VALUES ($1, $2) RETURNING \"id\"",
      seven ∷ acme ∷ [],
    )
      ∷ []
unfolding note note_target invoke create exec_returning set_field_by_column populate_audit_and_scope
    apply ordered_columns_and_args policy_from_context apply_struct_field_values render_insert
    contains returning_columns placeholder
create_run = refl

upsert_run :
    (upsert env ann_ctx notes invoice []).1
    ≡ (
      txt
          "INSERT INTO \"notes\" (\"id\", \"tenant_id\") VALUES ($1, $2) RETURNING \"id\" ON CONFLICT (\"id\") DO UPDATE SET \"tenant_id\" = EXCLUDED.\"tenant_id\";",
      seven ∷ acme ∷ [],
    )
      ∷ []
unfolding note note_target invoke upsert populate_audit_and_scope apply ordered_columns_and_args
    policy_from_context apply_struct_field_values conflict_columns render_insert contains
    trim_suffix returning_columns upsert_set_clauses placeholder
upsert_run = refl

update_run :
    (update env ann_ctx invoices by_key invoice []).1
    ≡ (
      txt
          "UPDATE \"invoices\" SET \"tenant_id\" = $1, \"total\" = $2, \"editor\" = $3, \"deleted_at\" = $4, \"version\" = \"version\" + 1 WHERE \"id\" = $5 AND tenant_id = $6 AND \"version\" = $7 RETURNING \"id\", \"deleted_at\", \"version\"",
      acme ∷ seven ∷ ann ∷ noon ∷ seven ∷ acme ∷ some (num int64 (pos 1)) ∷ [],
    )
      ∷ []
unfolding note note_target invoke update populate_audit_and_scope apply apply_struct_field_values
    policy_from_context set_field_by_column render_update contains placeholder
update_run = refl
