-- ===== src/Examples/Data.antt =====
-- The data of the examples: ASCII character tables, a table of invoices and contexts.
use dorm.Prelude.{◌-◌, ◌+◌, ◌&&◌, leb, true, none, some, List, [], ◌∷◌, txt, if◌then◌else◌}
use dorm.Value.{Any, num, str, int64, pos}
use dorm.Schema.Types.{Column, Table, tenant, plain_column, table_of}
use dorm.Schema.Names.{Unicode}
use dorm.Access.Policy.{Ctx, system, empty_context}
use dorm.Orm.Write.{Runtime, Values}

abbrev pub ascii : Unicode
ascii = record {
  is_upper = λ r. leb 65 r && leb r 90;
  is_lower = λ r. leb 97 r && leb r 122;
  is_digit = λ r. leb 48 r && leb r 57;
  to_lower = λ r. if leb 65 r && leb r 90 then r + 32 else r;
  to_upper = λ r. if leb 97 r && leb r 122 then r - 32 else r;
}

-- The conversion keeps the value.
abbrev pub go : Runtime
go = record { unicode = ascii; assign = λ old v. some v }

abbrev pub id_column : Column
id_column = record (plain_column (txt "id")) { primary_key = true }

abbrev pub tenant_column : Column
tenant_column = record (plain_column (txt "tenant_id")) { scope = tenant }

abbrev pub total_column : Column
total_column = plain_column (txt "total")

abbrev editor_column : Column
editor_column = record (plain_column (txt "editor")) { updated_by = true }

abbrev pub deleted_column : Column
deleted_column = record (plain_column (txt "deleted_at")) { deleted_at = true }

abbrev version_column_ : Column
version_column_ = record (plain_column (txt "version")) { version = true }

abbrev pub before_deleted : List Column
before_deleted = id_column ∷ tenant_column ∷ total_column ∷ editor_column ∷ []

abbrev pub after_deleted : List Column
after_deleted = version_column_ ∷ []

abbrev pub invoices : Table
invoices = table_of (txt "invoices") (
    id_column ∷ tenant_column ∷ total_column ∷ editor_column ∷ deleted_column ∷ version_column_
    ∷ [])

-- A table that is scoped and not soft-deleted.
abbrev pub notes : Table
notes = table_of (txt "notes") (id_column ∷ tenant_column ∷ [])

abbrev pub acme : Any
acme = some (str (txt "acme"))

abbrev pub ann : Any
ann = some (str (txt "ann"))

-- Ann, who works for the tenant acme.
abbrev pub ann_ctx : Ctx
ann_ctx = some (record empty_context { user_id = ann; tenant_id = acme })

abbrev pub system_ctx : Ctx
system_ctx = some (record empty_context { policy = system })

abbrev pub seven : Any
seven = some (num int64 (pos 7))

abbrev pub invoice : Values
invoice =
    (txt "id", seven)
    ∷ (txt "tenant_id", acme)
    ∷ (txt "total", seven)
    ∷ (txt "editor", none)
    ∷ (txt "deleted_at", none)
    ∷ (txt "version", some (num int64 (pos 1)))
    ∷ []
