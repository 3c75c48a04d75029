-- ===== src/Orm/Query/Rows.antt =====
-- Which rows a query can reach: the predicates that the access policy and soft deletion add.
use dorm.Prelude.{
  true, false, Option, none, some, List, [], ◌∷◌, ◌++◌, ◌≡◌, refl, ap, arith, In, In-append_right,
  inl, inr,
}
use dorm.Value.{Any, Value}
use dorm.Schema.Types.{Column, Table}
use dorm.Errors.{Result, ok, err, Result-cases}
use dorm.Access.Policy.{Ctx, from_context, policy_from_context, allows_scope}
use dorm.Access.Engine
use dorm.Access.Engine.{Predicate, apply, scope_value, scope_predicate}
use dorm.Access.Engine.Scopes.{apply-scopes_rows}
use dorm.Orm.Query.{
  QueryState, QueryOption, select_option, Session, run_option, apply_options, initial_state,
  add_soft_delete, add_access, build_state, count_state,
}

-- No option changes the table or brings deleted rows in.
run_option_keeps :
    (opt : QueryOption) (q : QueryState)
    → ((run_option opt q).table ≡ q.table) × ((run_option opt q).with_deleted ≡ q.with_deleted)
unfolding run_option
run_option_keeps (select_option e) q = ground arith
run_option_keeps _ q = ground arith

apply_options_keeps :
    (opts : List (Option QueryOption)) (q r : QueryState)
    → apply_options opts q ≡ ok r
    → (r.table ≡ q.table) × (r.with_deleted ≡ q.with_deleted)
unfolding apply_options
apply_options_keeps [] q r h = ground arith
apply_options_keeps (none ∷ opts) q r h = apply_options_keeps opts q r h
apply_options_keeps (some opt ∷ opts) q r h =
    ground (arith, run_option_keeps opt q, apply_options_keeps opts (run_option opt q) r)

add_soft_delete_table : (ctx : Ctx) (q : QueryState) → (add_soft_delete ctx q).table ≡ q.table
unfolding add_soft_delete
add_soft_delete_table ctx q = ground arith

add_access_inv :
    (ctx : Ctx) (q r : QueryState)
    → add_access ctx q ≡ ok r
    → (found : List Predicate × List Engine.FieldValue) × (apply ctx (some q.table) Engine.query
        ≡ ok found)
      × (r ≡ record q { where_ = q.where_ ++ found.0 })
unfolding add_access
add_access_inv ctx q r h = ground arith

-- What both kinds of query state have in common: the last two steps.
module _ (ctx : Ctx) (table : Table) (q r : QueryState) (at_table : q.table ≡ table)
    (finished : add_access ctx (add_soft_delete ctx q) ≡ ok r) where
  finish-scopes :
      (col : Column) (a : Any)
      → In col table.columns
      → allows_scope (policy_from_context ctx) col.scope ≡ true
      → scope_value (from_context ctx).0 col.scope ≡ some a
      → (v : Value) × (a ≡ some v) × In (scope_predicate col a) r.where_
  finish-scopes col a i allowed named =
      let (found, applied, result) = add_access_inv ctx (add_soft_delete ctx q) r finished in
      let (v, held, j) =
        apply-scopes_rows ctx table Engine.query found.0 found.1 col a
          (rw (← at_table, ← add_soft_delete_table ctx q) applied) refl i allowed named in
      (
        v,
        held,
        rw (ap (λ (x : QueryState). x.where_) result)
            (In-append_right (add_soft_delete ctx q).where_ j),
      )

-- Inversion of the two states.
build_state_inv :
    (s : Session) (table : Table) (opts : List (Option QueryOption)) (r : QueryState)
    → build_state s table opts ≡ ok r
    → (q : QueryState) × (q.table ≡ table)
      × (q.with_deleted ≡ s.with_deleted)
      × (add_access s.ctx (add_soft_delete s.ctx q) ≡ ok r)
unfolding build_state initial_state
build_state_inv s table opts r h =
    elim (Result-cases (apply_options opts (initial_state table s.with_deleted))) [
      | inl (q, e) ↦
          let (t, w) = apply_options_keeps opts (initial_state table s.with_deleted) q e in
          (q, t, w, rw e at h)
      | inr (x, e) ↦ cc (rw e at h)
    ]

-- Whatever the options, when a query of `Find` is built, the predicates of its WHERE clause hold that
-- of every scoped column of its table whose scope the session's policy lets through, with the identity
-- of the session's context, which is not nil.
pub build_state-scopes_rows :
    (s : Session) (table : Table) (opts : List (Option QueryOption)) (r : QueryState) (col : Column)
    (a : Any)
    → build_state s table opts ≡ ok r
    → In col table.columns
    → allows_scope (policy_from_context s.ctx) col.scope ≡ true
    → scope_value (from_context s.ctx).0 col.scope ≡ some a
    → (v : Value) × (a ≡ some v) × In (scope_predicate col a) r.where_
build_state-scopes_rows s table opts r col a h i allowed named =
    let (q, t, w, finished) = build_state_inv s table opts r h in
    finish-scopes s.ctx table q r t finished col a i allowed named

-- Paging does not matter to the last two steps.
abbrev pub unpaged : QueryState → QueryState
unpaged q = record q { limit = none; offset = none }

abbrev pub map_ok : (QueryState → QueryState) → Result QueryState → Result QueryState
map_ok f (ok q) = ok (f q)
map_ok f (err e) = err e

finish-unpaged :
    (ctx : Ctx) (q : QueryState)
    → add_access ctx (add_soft_delete ctx (unpaged q))
      ≡ map_ok unpaged (add_access ctx (add_soft_delete ctx q))
unfolding add_access add_soft_delete
finish-unpaged ctx q = ground arith

-- `Count` and `Exists` look at the rows that `Find` with the same options reaches in a session
-- that does not ask for deleted rows, without its paging: the session's own request for deleted
-- rows is not read.
pub count_state-eq_find :
    (s : Session) (table : Table) (opts : List (Option QueryOption))
    → count_state s table opts
      ≡ map_ok unpaged (build_state (record s { with_deleted = false }) table opts)
unfolding count_state build_state
count_state-eq_find s table opts =
    elim (Result-cases (apply_options opts (initial_state table false))) [
      | inl (q, e) ↦ rw e (finish-unpaged s.ctx q)
      | inr (x, e) ↦ rw e
    ]
