-- ===== src/Orm/Session/Scoped.antt =====
-- Which rows a write can reach.
use dorm.Prelude.{
  true, false, some, List, [], ◌++◌, ◌≡◌, refl, sym, ap, ◌∙◌, arith, In, In-append_right, Text, inl,
  inr,
}
use dorm.Value.{Any, Value}
use dorm.Schema.Types.{Column, Table}
use dorm.Errors.{Error, ok, err, Result-cases}
use dorm.Dialect.{Dialect}
use dorm.Access.Policy.{
  Ctx, system, from_context, policy_from_context, with_policy, allows_scope, is_system,
  policy_from_context-with_policy,
}
use dorm.Access.Engine
use dorm.Access.Engine.{Predicate, FieldValue, apply, scope_value, scope_predicate}
use dorm.Access.Engine.Scopes.{apply-scopes_rows}
use dorm.Access.Engine.Writes.{apply-system}
use dorm.Access.Engine.Queries.{apply-query_of_any}
use dorm.Orm.Write.{Runtime, Model, Values, populate_audit_and_scope, access_predicates}
use dorm.Orm.Session.{
  Target, by_key, by_options, update_rows, run_all, delete_keyed, delete_statement,
}
use dorm.Orm.Query.{initial_state}

populate_inv :
    (rt : Runtime) (ctx : Ctx) (table : Table) (op : Engine.Operation) (now : Any)
    (s r : Values × Model)
    → populate_audit_and_scope rt ctx table op now s ≡ ok r
    → (found : List Predicate × List FieldValue) × (apply ctx (some table) op ≡ ok found)
unfolding populate_audit_and_scope
populate_inv rt ctx table op now s r h = elim (Result-cases (apply ctx (some table) op)) [
  | inl found ↦ found
  | inr (e, failed) ↦ cc (rw failed at h)
]

access_predicates-scopes :
    (ctx : Ctx) (table : Table) (op : Engine.Operation) (found : List Predicate × List FieldValue)
    (col : Column) (a : Any)
    → apply ctx (some table) op ≡ ok found
    → In col table.columns
    → allows_scope (policy_from_context ctx) col.scope ≡ true
    → scope_value (from_context ctx).0 col.scope ≡ some a
    → (v : Value) × (a ≡ some v) × In (scope_predicate col a) (access_predicates ctx table)
unfolding access_predicates
access_predicates-scopes ctx table op found col a applied i allowed named =
    let (q, queried) = apply-query_of_any ctx table op applied in
    let (v, held, j) =
      apply-scopes_rows ctx table Engine.query q.0 q.1 col a queried refl i allowed named in
    (v, held, rw (queried, access_predicates) j)

update_rows-end :
    (rt : Runtime) (ctx : Ctx) (table : Table) (target : Target) (m : Model)
    (rows : List Text × List Any × List Predicate)
    → update_rows rt ctx table target m ≡ ok rows
    → (own : List Predicate) × (rows.2 ≡ own ++ access_predicates ctx table)
unfolding update_rows
update_rows-end rt ctx table by_key m rows h = ([], ground arith)
update_rows-end rt ctx table (by_options opts) m rows h =
    ((run_all opts (initial_state table false)).where_, ground arith)

-- Once an update has passed the policy engine, whichever way its rows are picked, the predicates
-- of its WHERE clause hold that of every scoped column of the table whose scope the policy lets
-- through, with the identity of the context, which is not nil.
pub update_rows-scopes :
    (rt : Runtime) (ctx : Ctx) (table : Table) (target : Target) (now : Any) (s r : Values × Model)
    (m : Model) (rows : List Text × List Any × List Predicate) (col : Column) (a : Any)
    → populate_audit_and_scope rt ctx table Engine.update now s ≡ ok r
    → update_rows rt ctx table target m ≡ ok rows
    → In col table.columns
    → allows_scope (policy_from_context ctx) col.scope ≡ true
    → scope_value (from_context ctx).0 col.scope ≡ some a
    → (v : Value) × (a ≡ some v) × In (scope_predicate col a) rows.2
update_rows-scopes rt ctx table target now s r m rows col a populated picked i allowed named =
    let (found, applied) = populate_inv rt ctx table Engine.update now s r populated in
    let (v, held, j) =
      access_predicates-scopes ctx table Engine.update found col a applied i allowed named in
    let (own, split) = update_rows-end rt ctx table target m rows picked in
    (v, held, rw split (In-append_right own j))

pub access_predicates-refused :
    (ctx : Ctx) (table : Table) {e : Error}
    → apply ctx (some table) Engine.query ≡ err e
    → access_predicates ctx table ≡ []
unfolding access_predicates
access_predicates-refused ctx table h = rw (h, access_predicates)

access_predicates-system :
    (ctx : Ctx) (table : Table)
    → is_system (policy_from_context ctx) ≡ true
    → access_predicates ctx table ≡ []
unfolding access_predicates
access_predicates-system ctx table h = rw (apply-system ctx table Engine.query h, access_predicates)

system-is_system : (ctx : Ctx) → is_system (policy_from_context (with_policy ctx system)) ≡ true
unfolding is_system
system-is_system ctx = rw ((policy_from_context-with_policy ctx system).0)

-- Where the engine refuses a query because the context lacks an identity that the table's scopes
-- want, a deletion from a table without a soft deletion column is not refused: its statement is
-- the one of the system policy, with no row predicate.
pub delete_statement-unscoped :
    (rt : Runtime) (d : Dialect) (ctx : Ctx) (table : Table) (m : Model) {e : Error}
    → apply ctx (some table) Engine.query ≡ err e
    → delete_statement rt d ctx table m ≡ delete_statement rt d (with_policy ctx system) table m
unfolding delete_statement
delete_statement-unscoped rt d ctx table m h = ap (delete_keyed rt d table m) (
    access_predicates-refused ctx table h
    ∙ sym (access_predicates-system (with_policy ctx system) table (system-is_system ctx)))
