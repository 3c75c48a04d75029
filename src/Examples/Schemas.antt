-- ===== src/Examples/Schemas.antt =====
-- Comparisons of schemas and their inverses.
use dorm.Prelude.{
  none, ◌++◌, length, All, true, false, some, List, [], ◌∷◌, ◌≡◌, ◌↔◌, refl, Text, txt, text_eq,
  if◌then◌else◌,
}
use dorm.Errors.{Kind, ok, new}
use dorm.Schema.Types.{ConstraintKind, Schema, Table, Index, table_of}
use dorm.Schema.Keys.{entry}
use dorm.Schema.Diff.{
  Operation, on_table, create_table, add_column, drop_column, create_index, compare,
}
use dorm.Schema.Diff.Agreement.{Agree, SameTable, compare-iff_same}
use dorm.Schema.Validate.{validate}
use dorm.Schema.Validate.Names.{AreNames, column_names, validate_iff_names}
use dorm.Dialect.Postgres.Migration.{render_operation, render_migration, render_table_constraint}
use dorm.Dialect.Postgres.Columns.{column_definition}
use dorm.Dialect.Postgres.Migration.Complete.{render-compare}
use dorm.Migrate.Inverse.{Database, parts_of}
use dorm.Examples.Data.{ascii, invoices, notes, id_column, tenant_column, total_column}

abbrev schema_of : List Table → Schema
schema_of tables = record { name = txt "app"; version = 1; tables = tables; enums = []; views = [] }

abbrev by_tenant : Index
by_tenant = record {
  name = txt "notes_tenant";
  columns = txt "tenant_id" ∷ [];
  unique = false;
  expression = [];
  where_ = [];
  method = [];
  metadata = [];
}

abbrev indexed : Index → Table
indexed i = record notes { indexes = i ∷ [] }

-- The order of the columns does not count.
reordered_run :
    compare
      (some (schema_of (notes ∷ [])))
      (some (schema_of (table_of (txt "notes") (tenant_column ∷ id_column ∷ []) ∷ [])))
    ≡ ok []
unfolding compare
reordered_run = refl

-- A changed index is created, and the old one of that name is not dropped.
changed_index_run :
    compare
      (some (schema_of (indexed (record by_tenant { unique = true }) ∷ [])))
      (some (schema_of (indexed by_tenant ∷ [])))
    ≡ ok (
        record (on_table create_index (txt "notes")) {
          index = some (record by_tenant { unique = true });
        }
        ∷ [])
unfolding compare
changed_index_run = refl

compare_example :
    (compare (some (schema_of (notes ∷ invoices ∷ []))) (some (schema_of (invoices ∷ notes ∷ [])))
      ≡ ok [])
    ↔ ((k : Text)
        → Agree SameTable
            (entry (λ t. t.name) k (notes ∷ invoices ∷ []))
            (entry (λ t. t.name) k (invoices ∷ notes ∷ [])))
compare_example =
    compare-iff_same (schema_of (notes ∷ invoices ∷ [])) (schema_of (invoices ∷ notes ∷ []))

abbrev up : List Operation
up =
    record (on_table add_column (txt "notes")) { column = some total_column }
    ∷ record (on_table drop_column (txt "notes")) { column = some tenant_column }
    ∷ []

-- A database with the table of notes, which has no total yet.
abbrev noted : Database
noted t = if text_eq t (txt "notes") then some (parts_of (some notes)) else none

-- The migration from nothing to a table, with its unique constraint.
abbrev keyed : Table
keyed = record notes {
  constraints =
      record {
        name = txt "notes_key";
        kind = ConstraintKind.unique;
        columns = txt "id" ∷ [];
        referenced_table = [];
        referenced_columns = [];
        on_delete = [];
        on_update = [];
        expression = [];
        metadata = [];
      }
      ∷ [];
}

-- `%q` of a text without special characters.
abbrev quoted : Text → Text
quoted t = txt "\"" ++ (t ++ txt "\"")

migration_run :
    render_operation quoted ascii
      (record (on_table create_table (txt "notes")) { table_def = some keyed })
    ≡ ok (
        txt
          "CREATE TABLE IF NOT EXISTS \"notes\" (\n  \"id\" text,\n  \"tenant_id\" text NOT NULL,\n  UNIQUE (\"id\")\n);")
unfolding render_operation render_table_constraint column_definition
migration_run = refl

render_compare_example :
    (ops : List Operation) × (out : List Text) × (compare
        (some (schema_of (keyed ∷ [])))
        (some (schema_of (invoices ∷ [])))
      ≡ ok ops)
    × (render_migration quoted ascii ops ≡ ok out)
    × (length out ≡ length ops)
render_compare_example =
    render-compare quoted ascii (schema_of (keyed ∷ [])) (schema_of (invoices ∷ []))
      (record { named = refl; filled = refl; supported = (refl, tt) }, tt)

validate_names_example : (validate quoted (schema_of (notes ∷ invoices ∷ [])) ≡ none) ↔ (
    AreNames [] (txt "notes" ∷ txt "invoices" ∷ [])
    × All (λ t. AreNames [] (column_names t)) (notes ∷ invoices ∷ []))
validate_names_example = validate_iff_names quoted (schema_of (notes ∷ invoices ∷ []))

duplicate_run :
    validate quoted (schema_of (notes ∷ notes ∷ []))
    ≡ some (new Kind.invalid_schema (txt "schema: duplicate table \"notes\""))
unfolding validate
duplicate_run = refl
