-- ===== src/Orm/Query.antt =====
-- orm/orm.go: the query state of Find and of Count, filled from a session and its options, and the
-- SELECT that is built from it. Tracing, logging and the dry-run recorder only observe, and are left out.
pub mod Binding
pub mod Options
pub mod Rows
unfoldable pub use Options.*
use dorm.Prelude.{
  ℕ, ◌+◌, ◌==◌, Bool, true, false, not, ◌&&◌, ◌||◌, Option, none, some, List, [], ◌∷◌, ◌++◌, map,
  Text, txt, text_eq, trim, is_nil, is_some, length, if◌then◌else◌,
}
use dorm.Value.{Any, ℤ, pos, negsuc}
use dorm.Schema.Types.{Column, Table}
use dorm.Errors.{Kind, Result, Error, ok, err, new, wrap, ◌>>=◌}
use dorm.Dialect.{Dialect, SelectParts}
use dorm.Dialect.Placeholders.{substitute}
use dorm.Access.Policy.{Ctx, policy_from_context, enforces_soft_delete}
use dorm.Access.Engine
use dorm.Access.Engine.{Predicate, apply, soft_delete_column}

-- A session: its context and its soft-deletion mode. The policy engine keeps no state.
pub record Session : Type 0 where
  pub ctx : Ctx
  pub with_deleted : Bool

unfoldable pub columns_for_table : Table → List Text
columns_for_table table = map (λ c. c.name) table.columns

unfoldable pub initial_state : Table → Bool → QueryState
unfolding columns_for_table
initial_state table with_deleted = record {
  table = table;
  columns = columns_for_table table;
  select_columns = [];
  distinct = false;
  joins = [];
  where_ = [];
  group_by = [];
  having = [];
  order_by = [];
  limit = none;
  offset = none;
  with_deleted = with_deleted;
  error = none;
}

-- The loop over the options: a nil option is skipped, and an error ends it.
unfoldable pub apply_options : List (Option QueryOption) → QueryState → Result QueryState
unfolding run_option
apply_options [] q = ok q
apply_options (none ∷ opts) q = apply_options opts q
apply_options (some opt ∷ opts) q =
    let rest = apply_options opts (run_option opt q) in
    elim (run_option opt q).error [ some e ↦ err e | none ↦ rest ]

-- `soft.Name + " IS NULL"`
unfoldable pub not_deleted : Column → Predicate
not_deleted soft = record { sql = soft.name ++ txt " IS NULL"; args = [] }

unfoldable pub add_soft_delete : Ctx → QueryState → QueryState
unfolding not_deleted policy_from_context enforces_soft_delete soft_delete_column
add_soft_delete ctx q =
    if not q.with_deleted && enforces_soft_delete (policy_from_context ctx)
    then elim (soft_delete_column (some q.table)) [
      | some soft ↦ record q { where_ = q.where_ ++ not_deleted soft ∷ [] }
      | none ↦ q
    ]
    else q

unfoldable pub add_access : Ctx → QueryState → Result QueryState
add_access ctx q = do
  found ← apply ctx (some q.table) Engine.query
  ok (record q { where_ = q.where_ ++ found.0 })

-- The query state of `Find`; the table is the one that the destination's type resolves to.
unfoldable pub build_state : Session → Table → List (Option QueryOption) → Result QueryState
unfolding initial_state apply_options add_soft_delete add_access
build_state s table opts = do
  q ← apply_options opts (initial_state table s.with_deleted)
  add_access s.ctx (add_soft_delete s.ctx q)

-- The query state of `Count` and `Exists`.
unfoldable pub count_state : Session → Table → List (Option QueryOption) → Result QueryState
unfolding initial_state apply_options add_soft_delete add_access
count_state s table opts = do
  q ← apply_options opts (initial_state table false)
  add_access s.ctx (add_soft_delete s.ctx (record q { limit = none; offset = none }))

-- The bound text and its arguments.
unfoldable pub bind_clause : Dialect → Text → List Any → ℕ → Text × List Any
unfolding substitute
bind_clause d e args start =
    if is_nil e
    then ([], [])
    else if is_nil args
    then (e, [])
    else (substitute d.placeholder start e, args)

-- The predicates of one clause, numbered from `start`.
unfoldable pub bind_predicates : Dialect → ℕ → List Predicate → List Text × List Any
unfolding bind_clause
bind_predicates d start [] = ([], [])
bind_predicates d start (p ∷ ps) =
    let (text, args) = bind_clause d p.sql p.args start in
    let (texts, rest) = bind_predicates d (start + length args) ps in (text ∷ texts, args ++ rest)

-- A join with a condition that is rendered.
unfoldable pub is_conditional : JoinClause → Bool
unfolding trim text_eq
is_conditional j = not (is_nil (trim j.on)) && not (text_eq j.kind (txt "CROSS JOIN"))

unfoldable pub join_head : JoinClause → Text
unfolding trim
join_head j = trim j.kind ++ (txt " " ++ trim j.table)

unfoldable pub bind_join : Dialect → JoinClause → ℕ → Text × List Any
unfolding bind_clause is_conditional join_head
bind_join d j start =
    let (on, on_args) = bind_clause d j.on j.args start in
    if is_conditional j then (join_head j ++ (txt " ON " ++ on), on_args) else (join_head j, [])

unfoldable pub bind_joins : Dialect → ℕ → List JoinClause → List Text × List Any
unfolding bind_join
bind_joins d start [] = ([], [])
bind_joins d start (j ∷ js) =
    let (text, args) = bind_join d j start in
    let (texts, rest) = bind_joins d (start + length args) js in (text ∷ texts, args ++ rest)

unfoldable pub select_parts : Dialect → QueryState → SelectParts × List Any
unfolding bind_joins bind_predicates
select_parts d q =
    let (joins, join_args) = bind_joins d 1 q.joins in
    let (clauses, where_args) = bind_predicates d (length join_args + 1) q.where_ in
    let (having, having_args) = bind_predicates d (length (join_args ++ where_args) + 1) q.having in
    (
      record {
        table = q.table.name;
        columns = if is_nil q.select_columns then map d.quote_ident q.columns else q.select_columns;
        distinct = q.distinct;
        joins = joins;
        where_ = clauses;
        group_by = q.group_by;
        having = having;
        order_by = q.order_by;
        limit = q.limit;
        offset = q.offset;
      },
      (join_args ++ where_args) ++ having_args,
    )

wrap_render : Text → Result Text → Result Text
wrap_render message (ok t) = ok t
wrap_render message (err e) = err (wrap Kind.unsupported_feature message e)

build_select_sql : Dialect → QueryState → Result (Text × List Any)
unfolding select_parts wrap_render
build_select_sql d q =
    let (parts, args) = select_parts d q in
    do text ← wrap_render (txt "orm: render select") (d.render_select parts); ok (text, args)

-- The statements of `Find`, `FindOne`, `Count` and `Exists`.
find_sql : Dialect → Session → Table → List (Option QueryOption) → Result (Text × List Any)
unfolding build_state build_select_sql
find_sql d s table opts = do q ← build_state s table opts; build_select_sql d q

unfoldable pub find_one_sql :
    Dialect → Session → Table → List (Option QueryOption) → Result (Text × List Any)
unfolding find_sql
find_one_sql d s table opts = find_sql d s table (opts ++ some (limit_option (pos 1)) ∷ [])

unfoldable pub count_sql :
    Dialect → Session → Table → List (Option QueryOption) → Result (Text × List Any)
unfolding count_state build_select_sql
count_sql d s table opts = do
  q ← count_state s table opts
  built ← build_select_sql d q
  ok (txt "SELECT COUNT(*) FROM (" ++ (built.0 ++ txt ") AS orm_count"), built.1)

unfoldable pub exists_sql :
    Dialect → Session → Table → List (Option QueryOption) → Result (Text × List Any)
unfolding count_state build_select_sql
exists_sql d s table opts = do
  q ← count_state s table opts
  built ← build_select_sql d q
  ok (txt "SELECT 1 FROM (" ++ (built.0 ++ txt ") AS orm_exists LIMIT 1"), built.1)
