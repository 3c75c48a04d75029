-- ===== src/Examples/Seeds.antt =====
-- Seeders that depend on each other, and their order.
use dorm.Prelude.{
  ℕ, none, some, Option, List, [], ◌∷◌, ◌≡◌, refl, arith, Text, txt, text_eq, if◌then◌else◌,
}
use dorm.Errors.{Kind, ok, err, new}
use dorm.Seed.{
  Seeder, Registry, register, reset, resolve_order, resolve_names, nodes_of, order_loop, degree,
  has_node,
}
use dorm.Seed.Count.{occurs}
use dorm.Seed.Loop.{InOrder}
use dorm.Seed.Order.{IsListed, IsRanked, start_queue, order_loop-ends, resolve_names-succeeds}
use dorm.Seed.Names.{IsRegistry, register-IsRegistry, resolve_order-orders, nodes-IsListed}

abbrev seeder : Text → List Text → Seeder Unit
seeder name deps = record { name = name; dependencies = deps; run = λ h w. (ok tt, w) }

abbrev roles : Seeder Unit
roles = seeder (txt "roles") []

abbrev users : Seeder Unit
users = seeder (txt "users") (txt "roles" ∷ [])

abbrev orders : Seeder Unit
orders = seeder (txt "orders") (txt "users" ∷ txt "roles" ∷ [])

abbrev empty-IsRegistry : IsRegistry (reset {D = Unit})
unfolding reset occurs
empty-IsRegistry = record { distinct = λ k. omega arith; listed = λ k. refl; named = tt }

abbrev all_seeds : List (Option (Seeder Unit))
all_seeds =
    some orders ∷ none ∷ some users ∷ some (seeder (txt " ") []) ∷ some roles ∷ some orders ∷ []

abbrev shop : Registry Unit
shop = register all_seeds reset

quote : Text → Text
quote t = t

shop_order : shop.order ≡ txt "orders" ∷ txt "users" ∷ txt "roles" ∷ []
unfolding register reset
shop_order = refl

resolved : resolve_order quote shop ≡ ok (roles ∷ users ∷ orders ∷ [])
unfolding register resolve_order reset
resolved = refl

shop-IsRegistry_example : IsRegistry shop
shop-IsRegistry_example = register-IsRegistry all_seeds reset empty-IsRegistry

resolve_order_example :
    InOrder (nodes_of shop) [] (txt "roles" ∷ txt "users" ∷ txt "orders" ∷ [])
    × ((k : Text) → occurs k (txt "roles" ∷ txt "users" ∷ txt "orders" ∷ []) ≡ occurs k shop.order)
resolve_order_example =
    resolve_order-orders quote shop (roles ∷ users ∷ orders ∷ [])
      (register-IsRegistry all_seeds reset empty-IsRegistry) resolved

abbrev shop_nodes : List (Text × List Text)
shop_nodes =
    (txt "orders", txt "users" ∷ txt "roles" ∷ [])
    ∷ (txt "users", txt "roles" ∷ [])
    ∷ (txt "roles", [])
    ∷ []

abbrev shop_names : List Text
shop_names = txt "orders" ∷ txt "users" ∷ txt "roles" ∷ []

shop-IsListed : IsListed shop_nodes shop_names
unfolding register reset
shop-IsListed = nodes-IsListed shop (register-IsRegistry all_seeds reset empty-IsRegistry)

ends_example :
    order_loop 7 shop_nodes (start_queue shop_nodes shop_names) (degree shop_nodes)
    ≡ order_loop 3 shop_nodes (start_queue shop_nodes shop_names) (degree shop_nodes)
ends_example = order_loop-ends shop_nodes shop_names shop-IsListed 7 (omega arith)

rank : Text → ℕ
unfolding text_eq
rank k = if text_eq k (txt "orders") then 2 else if text_eq k (txt "users") then 1 else 0

shop-IsRanked : IsRanked rank shop_nodes
unfolding rank has_node
shop-IsRanked =
    (((refl, omega arith), ((refl, omega arith), tt)), (((refl, omega arith), tt), (tt, tt)))

succeeds_example : (names : List Text) × (resolve_names quote shop_nodes shop_names ≡ ok names)
succeeds_example =
    resolve_names-succeeds quote shop_nodes shop_names rank shop-IsListed shop-IsRanked

-- Two seeders that depend on each other are refused.
abbrev cycle : Registry Unit
cycle =
    register (some (seeder (txt "a") (txt "b" ∷ [])) ∷ some (seeder (txt "b") (txt "a" ∷ [])) ∷ [])
      reset

cycle_refused :
    resolve_order quote cycle
    ≡ err (new Kind.configuration (txt "seed: circular dependency detected"))
unfolding register reset resolve_order
cycle_refused = refl
