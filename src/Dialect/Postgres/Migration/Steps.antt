-- ===== src/Dialect/Postgres/Migration/Steps.antt =====
-- Which differences between schemas can be rendered, and which alterations come out empty.
use dorm.Prelude.{true, some, [], ◌≡◌, ap, arith, Text, txt, text_eq}
use dorm.Errors.{ok}
use dorm.Schema.Types.{Column, info, type_kind_text}
use dorm.Schema.Names.{Unicode}
use dorm.Schema.Diff.{on_table, alter_column}
use dorm.Dialect.Postgres.Columns.{when}
use dorm.Dialect.Postgres.Migration.{
  alter_statements, render_alter_column, render_operation, rendered,
}

alter_statements-same :
    (u : Unicode) (table : Text) (c p : Column)
    → text_eq (info c.type_).name (info p.type_).name ≡ true
    → text_eq (type_kind_text (info c.type_).kind) (type_kind_text (info p.type_).kind) ≡ true
    → c.nullable ≡ p.nullable
    → text_eq c.default_ p.default_ ≡ true
    → alter_statements u table c p ≡ []
unfolding alter_statements when
alter_statements-same u table c p n k e d = ground arith

-- An alteration that touches neither the type's name and kind nor nullability nor the default is
-- rendered as a comment: a column that differs only in its key, uniqueness, identity or generation
-- is altered by nothing.
pub alter_column-no_op :
    (quote : Text → Text) (u : Unicode) (table : Text) (c p : Column)
    → text_eq (info c.type_).name (info p.type_).name ≡ true
    → text_eq (type_kind_text (info c.type_).kind) (type_kind_text (info p.type_).kind) ≡ true
    → c.nullable ≡ p.nullable
    → text_eq c.default_ p.default_ ≡ true
    → render_operation quote u
        (record (on_table alter_column table) { column = some c; previous = some p })
      ≡ ok (txt "-- no-op")
unfolding render_operation render_alter_column rendered
alter_column-no_op quote u table c p n k e d =
    ap (λ s. ok (rendered s)) (alter_statements-same u table c p n k e d)
