-- ===== src/Access/Engine/Writes.antt =====
-- The fields that the engine writes into an insert or an update, and the system policy.
use dorm.Prelude.{true, false, some, List, [], ◌∷◌, ◌≡◌, refl, arith, keep_if, map}
use dorm.Value.{Value}
use dorm.Schema.Types.{Column, Table}
use dorm.Errors.{ok}
use dorm.Access.Policy.{
  Context, Ctx, Policy, is_system, enforces_audit, allows_scope, from_context, policy_from_context,
}
use dorm.Access.Engine.{
  Operation, update, Predicate, FieldValue, scope_predicates, scope_writes, audit_writes,
  apply_columns, validate_context_for_operation, apply,
}

abbrev pub user_write : Context → Column → FieldValue
user_write ac col = record { field = col.name; value = ac.user_id }

module _ (ac : Context) (policy : Policy) where
  update_loop :
      (cols : List Column) {v : Value}
      → enforces_audit policy ≡ true
      → ac.user_id ≡ some v
      → apply_columns ac update policy cols
        ≡ ([], map (user_write ac) (keep_if (λ c. c.updated_by) cols))
  unfolding apply_columns scope_predicates scope_writes audit_writes
  update_loop [] e u = refl
  update_loop (c ∷ cols) e u = ground (arith, update_loop cols e u)

  system_loop :
      (op : Operation) (cols : List Column)
      → is_system policy ≡ true
      → apply_columns ac op policy cols ≡ ([], [])
  unfolding apply_columns scope_predicates scope_writes audit_writes is_system allows_scope
      enforces_audit
  system_loop op [] s = refl
  system_loop op (c ∷ cols) s = ground (arith, system_loop op cols s)

-- Under a policy that is not the system policy, with a user in the context, an update that the
-- engine accepts gets no row predicate, and writes the user into exactly the `UpdatedBy` columns,
-- in the table's order.
pub apply-update :
    (ctx : Ctx) (table : Table) {v : Value} {r : List Predicate × List FieldValue}
    → is_system (policy_from_context ctx) ≡ false
    → (from_context ctx).0.user_id ≡ some v
    → apply ctx (some table) update ≡ ok r
    → r ≡ ([], map (user_write (from_context ctx).0) (keep_if (λ c. c.updated_by) table.columns))
unfolding apply policy_from_context is_system
apply-update ctx table s u h = ground (
  arith,
  update_loop (from_context ctx).0 (policy_from_context ctx) table.columns (ground arith) u,
)

-- The system policy accepts every context for every operation, and adds nothing to the statement.
pub apply-system :
    (ctx : Ctx) (table : Table) (op : Operation)
    → is_system (policy_from_context ctx) ≡ true
    → apply ctx (some table) op ≡ ok ([], [])
unfolding apply policy_from_context validate_context_for_operation
apply-system ctx table op s =
    ground (arith, system_loop (from_context ctx).0 (policy_from_context ctx) op table.columns s)
