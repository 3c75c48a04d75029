-- ===== src/Examples/Queries.antt =====
-- Queries on the invoices: what Find, Count and Exists send.
use dorm.Prelude.{
  true, false, Option, none, some, List, [], ◌∷◌, ◌++◌, ◌≡◌, refl, In, here, there, txt, length,
}
use dorm.Value.{Value, pos}
use dorm.Errors.{ok}
use dorm.Dialect.Placeholders.{substitute, holes}
use dorm.Dialect.Postgres.{postgres, render_select, placeholder}
use dorm.Access.Policy.{policy_from_context, allows_scope}
use dorm.Access.Engine.{Predicate, apply, scope_value, scope_predicate}
use dorm.Orm.Query.{
  QueryState, QueryOption, Session, where_option, limit_option, initial_state, build_state,
  count_state, find_one_sql, count_sql, exists_sql, select_parts, join_head, is_conditional,
}
use dorm.Orm.Query.Rows.{build_state-scopes_rows, count_state-eq_find, map_ok, unpaged}
use dorm.Orm.Query.Binding.{concat, raw_text, raw_args, select_parts-numbering}
use dorm.Examples.Data.{invoices, notes, tenant_column, ann_ctx, acme, seven}

abbrev session : Session
session = record { ctx = ann_ctx; with_deleted = false }

-- `Where("total > ?", 7)` and an option that is nil.
abbrev options : List (Option QueryOption)
options = some (where_option (txt " total > ?") (seven ∷ [])) ∷ none ∷ []

abbrev predicates : List Predicate
predicates =
    record { sql = txt "total > ?"; args = seven ∷ [] }
    ∷ record { sql = txt "deleted_at IS NULL"; args = [] }
    ∷ record { sql = txt "tenant_id = ?"; args = acme ∷ [] }
    ∷ []

abbrev state : QueryState
unfolding initial_state
state = record (initial_state invoices false) { where_ = predicates }

build_state_run : build_state session invoices options ≡ ok state
unfolding build_state apply
build_state_run = refl

find_one_run :
    find_one_sql postgres session notes []
    ≡ ok (txt "SELECT \"id\", \"tenant_id\" FROM \"notes\" WHERE tenant_id = $1 LIMIT 1", acme ∷ [])
unfolding find_one_sql apply render_select placeholder
find_one_run = refl

-- The predicates are joined without parentheses, so that an OR in one of them is not held together: the
-- tenant's predicate binds to the second half only.
or_run :
    find_one_sql postgres session notes
      (some (where_option (txt "id = ? OR id = ?") (seven ∷ seven ∷ [])) ∷ [])
    ≡ ok (
      txt
          "SELECT \"id\", \"tenant_id\" FROM \"notes\" WHERE id = $1 OR id = $2 AND tenant_id = $3 LIMIT 1",
      seven ∷ seven ∷ acme ∷ [],
    )
unfolding find_one_sql apply render_select placeholder
or_run = refl

count_run :
    count_sql postgres session notes (some (limit_option (pos 3)) ∷ [])
    ≡ ok (
      txt
          "SELECT COUNT(*) FROM (SELECT \"id\", \"tenant_id\" FROM \"notes\" WHERE tenant_id = $1) AS orm_count",
      acme ∷ [],
    )
unfolding count_sql apply render_select placeholder
count_run = refl

exists_run :
    exists_sql postgres session notes []
    ≡ ok (
      txt
          "SELECT 1 FROM (SELECT \"id\", \"tenant_id\" FROM \"notes\" WHERE tenant_id = $1) AS orm_exists LIMIT 1",
      acme ∷ [],
    )
unfolding exists_sql apply render_select placeholder
exists_run = refl

find_scopes_example :
    (v : Value) × (acme ≡ some v) × In (scope_predicate tenant_column acme) state.where_
unfolding build_state apply policy_from_context allows_scope scope_value
find_scopes_example =
    build_state-scopes_rows session invoices options state tenant_column acme refl (there here) refl
      refl

-- A query with a join and a HAVING clause besides its predicates.
abbrev joined : QueryState
joined = record state {
  joins =
      record {
        kind = txt "LEFT JOIN";
        table = txt "notes";
        on = txt "notes.tenant_id = ?";
        args = acme ∷ [];
      }
      ∷ [];
  having = record { sql = txt "sum(total) > ?"; args = seven ∷ [] } ∷ [];
}

numbering_example :
    let (parts, args) = select_parts postgres joined in
    (concat parts.joins ++ (concat parts.where_ ++ concat parts.having)
      ≡ substitute postgres.placeholder 1 (raw_text joined))
    × (args ≡ raw_args joined)
    × (length args ≡ holes (raw_text joined))
unfolding join_head is_conditional state
numbering_example = select_parts-numbering postgres joined (record {
  joins = ((refl, refl), tt);
  where_ = (refl, (refl, (refl, tt)));
  having = (refl, tt);
})

count_example :
    count_state (record session { with_deleted = true }) invoices options
    ≡ map_ok unpaged (build_state session invoices options)
count_example = count_state-eq_find (record session { with_deleted = true }) invoices options
