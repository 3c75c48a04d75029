-- ===== src/Dialect/Postgres/Views.antt =====
-- dialect/postgres/views.go: the statements of views, and expressions that are passed through. A view
-- that is nil is `none`; `external` is an error of fmt.Errorf.
use dorm.Prelude.{◌||◌, Option, none, some, [], ◌++◌, Text, txt, trim, is_nil, if◌then◌else◌}
use dorm.Errors.{Result, Error, ok, err, external}
use dorm.Schema.Types.{View}
use dorm.Schema.Names.{ends_with}
use dorm.Dialect.Postgres.{quote_ident}

failed : Text → Error
failed message = external (txt "postgres: " ++ message)

kind_of_view : View → Text
kind_of_view v = if v.materialized then txt "MATERIALIZED " else []

unfoldable pub render_view : Option View → Result Text
unfolding failed kind_of_view trim ends_with quote_ident
render_view none = err (failed (txt "nil view"))
render_view (some v) =
    let sql = trim v.sql in
    if is_nil v.name
    then err (failed (txt "view missing name"))
    else if is_nil sql
    then err (failed (txt "view " ++ v.name ++ txt " missing SQL"))
    else ok (
        txt "CREATE "
        ++ kind_of_view v
        ++ txt "VIEW IF NOT EXISTS "
        ++ quote_ident v.name
        ++ txt " AS "
        ++ sql
        ++ (if ends_with (txt ";") sql then [] else txt ";"))

unfoldable pub render_drop_view : Option View → Result Text
unfolding failed kind_of_view quote_ident
render_drop_view none = err (failed (txt "nil view"))
render_drop_view (some v) =
    if is_nil v.name
    then err (failed (txt "view missing name"))
    else ok
        (txt "DROP " ++ kind_of_view v ++ txt "VIEW IF EXISTS " ++ quote_ident v.name ++ txt ";")

unfoldable pub render_expression : Text → Result Text
unfolding failed trim
render_expression expr =
    if is_nil (trim expr) then err (failed (txt "empty expression")) else ok (trim expr)

unfoldable pub render_predicate : Text → Text → Text → Result Text
unfolding failed trim
render_predicate left operator right =
    if is_nil (trim left) || is_nil (trim operator) || is_nil (trim right)
    then err (failed (txt "predicate requires left, operator, and right"))
    else ok (trim left ++ txt " " ++ trim operator ++ txt " " ++ trim right)

unfoldable pub render_default : Text → Result Text
unfolding failed trim
render_default expr =
    if is_nil (trim expr) then err (failed (txt "empty default expression")) else ok (trim expr)
