-- ===== src/Seed.antt =====
-- seed/seed.go: the registry of seeders, the order in which they run, and their run. The registry
-- is a value that is passed on; its map is an association list, whose order stands for the order in
-- which Go happens to iterate over the map. A nil seeder is `none`. `quote` is `%q` of Go's fmt.
pub mod Count
pub mod Graph
pub mod Loop
pub mod Names
pub mod Order
use dorm.Prelude.{
  ℕ, zero, suc, ◌-◌, ◌==◌, Bool, true, false, Option, none, some, is_some, List, [], ◌∷◌, ◌++◌, map,
  keep_if, length, Text, txt, text_eq, text_le, trim, is_nil, if◌then◌else◌,
}
use dorm.Errors.{Kind, Result, Error, ok, err, new, wrap, ◌>>=◌, ◌>>◌}
use dorm.Schema.Keys.{sort_by}
use dorm.Orm.Exec.{Exec, continue}
use dorm.Orm.Transaction.{Handle, Driver, World, transaction}

-- A seeder; one that gives no dependencies has the empty list.
pub record Seeder (D : Type 0) : Type 0 where
  pub name : Text
  pub dependencies : List Text
  pub run : Handle → Exec (World D) Unit

pub record Registry (D : Type 0) : Type 0 where
  pub order : List Text
  pub seeders : List (Text × Seeder D)

module _ {D : Type 0} where
  unfoldable pub find : Text → List (Text × Seeder D) → Option (Seeder D)
  unfolding text_eq
  find k [] = none
  find k ((n, s) ∷ rest) = let later = find k rest in if text_eq n k then some s else later

  -- `seeders[name] = s`
  unfoldable pub assign : Text → Seeder D → List (Text × Seeder D) → List (Text × Seeder D)
  unfolding text_eq
  assign k s [] = (k, s) ∷ []
  assign k s ((n, t) ∷ rest) =
      let later = assign k s rest in if text_eq n k then (n, s) ∷ rest else (n, t) ∷ later

  unfoldable pub register_one : Seeder D → Registry D → Registry D
  unfolding trim find assign
  register_one s r = if is_nil (trim s.name) then r else record {
    order = if is_some (find s.name r.seeders) then r.order else r.order ++ s.name ∷ [];
    seeders = assign s.name s r.seeders;
  }

  unfoldable pub register : List (Option (Seeder D)) → Registry D → Registry D
  unfolding register_one
  register [] r = r
  register (none ∷ rest) r = register rest r
  register (some s ∷ rest) r = register rest (register_one s r)

  unfoldable pub reset : Registry D
  reset = record { order = []; seeders = [] }

  -- The seeders of a list of names, as the map has them.
  unfoldable pub pick : List (Text × Seeder D) → List Text → List (Seeder D)
  unfolding find
  pick seeders [] = []
  pick seeders (n ∷ ns) = elim (find n seeders) [
    | none ↦ pick seeders ns
    | some s ↦ s ∷ pick seeders ns
  ]

  unfoldable pub registered : Registry D → List (Seeder D)
  unfolding pick
  registered r = pick r.seeders r.order

-- A seeder's name with its dependencies: what the order depends on.
abbrev pub Nodes : Type 0
Nodes = List (Text × List Text)

unfoldable pub has_node : Nodes → Text → Bool
unfolding text_eq
has_node [] k = false
has_node ((n, ds) ∷ rest) k = if text_eq n k then true else has_node rest k

unknown_error : (Text → Text) → Text → Text → Error
unknown_error quote name dep =
    new Kind.configuration
      (txt "seed: " ++ (name ++ (txt " depends on unknown seeder " ++ quote dep)))

check_dependencies : (Text → Text) → Nodes → Text → List Text → Option Error
unfolding has_node unknown_error
check_dependencies quote nodes name [] = none
check_dependencies quote nodes name (d ∷ ds) =
    let rest = check_dependencies quote nodes name ds in
    if has_node nodes d then rest else some (unknown_error quote name d)

-- The first loop, over all nodes: a dependency that is not registered is an error.
unfoldable pub check_nodes : (Text → Text) → Nodes → Nodes → Option Error
unfolding check_dependencies
check_nodes quote nodes [] = none
check_nodes quote nodes ((n, ds) ∷ rest) = elim (check_dependencies quote nodes n ds) [
  | some e ↦ some e
  | none ↦ check_nodes quote nodes rest
]

-- The number of dependencies of a name: its `indegree` after the first loop.
unfoldable pub degree : Nodes → Text → ℕ
unfolding text_eq
degree [] k = 0
degree ((n, ds) ∷ rest) k = let later = degree rest k in if text_eq n k then length ds else later

-- The entries that one node adds to `graph[name]`: its own name, once for each mention of `name`.
mentions_of : Text → Text → List Text → List Text
unfolding text_eq
mentions_of name n [] = []
mentions_of name n (d ∷ ds) =
    let rest = mentions_of name n ds in if text_eq d name then n ∷ rest else rest

-- `graph[name]`
unfoldable pub successors : Nodes → Text → List Text
unfolding mentions_of
successors [] name = []
successors ((n, ds) ∷ rest) name = mentions_of name n ds ++ successors rest name

decrement : Text → (Text → ℕ) → Text → ℕ
unfolding text_eq
decrement n d k = if text_eq n k then d k - 1 else d k

-- The inner loop: a degree that falls from 1 to 0 puts its name into the queue. In Go a degree below
-- zero would go on falling, and here it stays at 0; neither is put into the queue.
unfoldable pub release : List Text → List Text → (Text → ℕ) → List Text × (Text → ℕ)
unfolding decrement
release [] q d = (q, d)
release (n ∷ ns) q d = release ns (if d n == 1 then q ++ n ∷ [] else q) (decrement n d)

-- The outer loop, on fuel: each round takes the least name of the queue.
unfoldable pub order_loop : ℕ → Nodes → List Text → (Text → ℕ) → List Text
unfolding sort_by text_le successors release
order_loop zero nodes q d = []
order_loop (suc fuel) nodes q d = elim (sort_by text_le q) [
  | [] ↦ []
  | name ∷ rest ↦
      let (q', d') = release (successors nodes name) rest d in name ∷ order_loop fuel nodes q' d'
]

-- The names in the order in which they run; `order` is the order of registration. One round of fuel
-- for each node is enough.
unfoldable pub resolve_names : (Text → Text) → Nodes → List Text → Result (List Text)
unfolding check_nodes degree order_loop
resolve_names quote nodes order =
    if is_nil order then ok [] else elim (check_nodes quote nodes nodes) [
      | some e ↦ err e
      | none ↦
          let names =
            order_loop (length nodes) nodes
              (sort_by text_le (keep_if (λ n. degree nodes n == 0) order)) (degree nodes) in
          if length names == length nodes
          then ok names
          else err (new Kind.configuration (txt "seed: circular dependency detected"))
    ]

-- `wrapSeederError`
seeder_failed : Text → Result (Unit {0}) → Result (Unit {0})
seeder_failed name (ok u) = ok u
seeder_failed name (err e) = err (wrap Kind.runtime_query (txt "seed: " ++ name) e)

module _ {D : Type 0} where
  abbrev pub nodes_of : Registry D → Nodes
  nodes_of r = map (λ (e : Text × Seeder D). (e.0, e.1.dependencies)) r.seeders

  unfoldable pub resolve_order : (Text → Text) → Registry D → Result (List (Seeder D))
  unfolding resolve_names pick
  resolve_order quote r = do
    names ← resolve_names quote (nodes_of r) r.order
    ok (pick r.seeders names)

  -- All seeders on one handle.
  unfoldable pub run_seeders : List (Seeder D) → Handle → Exec (World D) Unit
  unfolding seeder_failed
  run_seeders [] tx w = (ok tt, w)
  run_seeders (s ∷ ss) tx w =
      let (r, w') = s.run tx w in continue (seeder_failed s.name r) (λ _. run_seeders ss tx) w'

  -- One transaction for each seeder.
  unfoldable pub run_apart : Driver D → Handle → List (Seeder D) → Exec (World D) Unit
  unfolding transaction seeder_failed
  run_apart driver db [] w = (ok tt, w)
  run_apart driver db (s ∷ ss) w =
      let (r, w') = transaction driver db (some s.run) w in
      continue (seeder_failed s.name r) (λ _. run_apart driver db ss) w'

  -- `Run`, with the option for a single transaction or without it.
  unfoldable pub run_all :
      (Text → Text) → Driver D → Handle → Registry D → Bool → Exec (World D) Unit
  unfolding resolve_order run_seeders run_apart
  run_all quote driver db r single w = elim (resolve_order quote r) [
    | err e ↦ (err e, w)
    | ok ordered ↦
        if single
        then transaction driver db (some (run_seeders ordered)) w
        else run_apart driver db ordered w
  ]
