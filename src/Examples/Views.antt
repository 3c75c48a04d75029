-- ===== src/Examples/Views.antt =====
-- The statements of views.
use dorm.Prelude.{false, true, some, none, [], ◌≡◌, refl, txt}
use dorm.Errors.{ok, err, external}
use dorm.Schema.Types.{View}
use dorm.Dialect.Postgres.Views.{
  render_view, render_drop_view, render_expression, render_predicate, render_default,
}

abbrev open_notes : View
open_notes = record {
  name = txt "open_notes";
  sql = txt " SELECT id FROM notes; ";
  materialized = false;
  metadata = [];
}

abbrev open_totals : View
open_totals = record {
  name = txt "open_totals";
  sql = txt "SELECT sum(total) FROM notes";
  materialized = true;
  metadata = [];
}

plain_view_run :
    render_view (some open_notes)
    ≡ ok (txt "CREATE VIEW IF NOT EXISTS \"open_notes\" AS SELECT id FROM notes;")
unfolding render_view
plain_view_run = refl

drop_view_run :
    render_drop_view (some open_totals)
    ≡ ok (txt "DROP MATERIALIZED VIEW IF EXISTS \"open_totals\";")
unfolding render_drop_view
drop_view_run = refl

nil_view_run : render_drop_view none ≡ err (external (txt "postgres: nil view"))
unfolding render_drop_view
nil_view_run = refl

predicate_run : render_predicate (txt " id") (txt "=") (txt "7 ") ≡ ok (txt "id = 7")
unfolding render_predicate
predicate_run = refl

missing_side_run :
    render_predicate (txt "id") (txt " ") (txt "7")
    ≡ err (external (txt "postgres: predicate requires left, operator, and right"))
unfolding render_predicate
missing_side_run = refl

default_run : render_default (txt " now() ") ≡ render_expression (txt "now()")
unfolding render_default render_expression
default_run = refl
