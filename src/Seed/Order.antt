-- ===== src/Seed/Order.antt =====
-- The order in which the seeders run (`resolveSeederOrder`): each after what it depends on.
use dorm.Prelude.{
  ℕ, zero, suc, ◌==◌, ◌≤◌, ◌<◌, true, List, [], ◌∷◌, none, length, keep_if, All, All-In, ◌≡◌, refl,
  Option-cases, arith, Text, text_eq, text_eq_iff, text_eq_refl, text_le, Bool-cases, inl, inr,
}
use dorm.Errors.{ok}
use dorm.Schema.Keys.{sort_by}
use dorm.Seed.{Nodes, has_node, degree, order_loop, check_dependencies, check_nodes, resolve_names}
use dorm.Seed.Count.{occurs, In-occurs, length-le, occurs-full}
use dorm.Seed.Graph.{node_names, length-node_names, dependencies_of, missing, IsRound}
use dorm.Seed.Loop.{InOrder, ends, missing-zero, start-IsRound, loop_end, loop_same, loop-InOrder}

-- The nodes are a map, and the order of registration lists its keys.
pub record IsListed (nodes : Nodes) (order : List Text) : Type 0 where
  pub distinct : (k : Text) → occurs k (node_names nodes) ≤ 1
  pub listed : (k : Text) → occurs k order ≡ occurs k (node_names nodes)

-- Each dependency is a node, of a lower rank.
abbrev pub IsRanked : (Text → ℕ) → Nodes → Type 0
IsRanked rank nodes =
    All
      (λ (e : Text × List Text). All (λ d. (has_node nodes d ≡ true) × (rank d < rank (e.0))) (e.1))
      nodes

abbrev pub start_queue : Nodes → List Text → List Text
start_queue nodes order = sort_by text_le (keep_if (λ n. degree nodes n == 0) order)

-- Over a map and the list of its keys the loop ends: all numbers of rounds from the number of nodes
-- on give the same names.
pub order_loop-ends :
    (nodes : Nodes) (order : List Text)
    → IsListed nodes order
    → (n : ℕ) → length nodes ≤ n
    → order_loop n nodes (start_queue nodes order) (degree nodes)
      ≡ order_loop (length nodes) nodes (start_queue nodes order) (degree nodes)
order_loop-ends nodes order l n enough =
    loop_same nodes l.distinct n (length nodes) [] (start_queue nodes order) (degree nodes)
      (start-IsRound nodes l.distinct order l.listed) (omega arith) (omega arith)

-- The result for a list of names that is not empty.
resolve_cons :
    (quote : Text → Text) (nodes : Nodes) (x : Text) (xs : List Text)
    → let names = order_loop (length nodes) nodes (start_queue nodes (x ∷ xs)) (degree nodes) in
      (names' : List Text)
      → resolve_names quote nodes (x ∷ xs) ≡ ok names'
      → (names' ≡ names) × (length names ≡ length nodes)
unfolding resolve_names
resolve_cons quote nodes x xs names' e =
    ground (arith, Option-cases (check_nodes quote nodes nodes))

-- For a map and the list of its keys, names that are resolved are the names of all nodes, each once,
-- and each stands after all of its dependencies.
pub resolve_names-orders :
    (quote : Text → Text) (nodes : Nodes) (order names : List Text)
    → IsListed nodes order
    → resolve_names quote nodes order ≡ ok names
    → InOrder nodes [] names × ((k : Text) → occurs k names ≡ occurs k (node_names nodes))
unfolding resolve_names occurs
resolve_names-orders quote nodes [] names l e =
    let none_run : names ≡ [] = ground arith in (rw none_run ends, λ k. rw none_run (l.listed k))
resolve_names-orders quote nodes (x ∷ xs) names l e =
    let start = start-IsRound nodes l.distinct (x ∷ xs) l.listed in
    let (same, full) = resolve_cons quote nodes x xs names e in
    let (d', final) =
      loop_end nodes l.distinct (length nodes) [] (start_queue nodes (x ∷ xs)) (degree nodes) start
        (omega arith) in
    rw same (
      loop-InOrder nodes l.distinct (length nodes) [] (start_queue nodes (x ∷ xs)) (degree nodes)
          start,
      occurs-full _ (node_names nodes) (λ k. ground (arith, final.listed k))
          (omega (arith, full, length-node_names nodes)),
    )

has_node-occurs :
    (nodes : Nodes) (k : Text) → has_node nodes k ≡ true → 0 < occurs k (node_names nodes)
unfolding has_node occurs
has_node-occurs [] k h = absurd (ground arith)
has_node-occurs ((n, ds) ∷ rest) k h = ground (arith, has_node-occurs rest k)

module _ (quote : Text → Text) (nodes : Nodes) (rank : Text → ℕ) where
  check_dependencies-none :
      (n : Text) (ds : List Text)
      → All (λ d. (has_node nodes d ≡ true) × (rank d < rank n)) ds
      → check_dependencies quote nodes n ds ≡ none
  unfolding check_dependencies
  check_dependencies-none n [] h = refl
  check_dependencies-none n (d ∷ ds) ((known, lower), h) = rw known (check_dependencies-none n ds h)

  check_nodes-none :
      (rest : Nodes)
      → All
          (λ (e : Text × List Text).
            All (λ d. (has_node nodes d ≡ true) × (rank d < rank (e.0))) (e.1))
          rest
      → check_nodes quote nodes rest ≡ none
  unfolding check_nodes
  check_nodes-none [] h = refl
  check_nodes-none ((n, ds) ∷ rest) (h, hs) =
      rw (check_nodes, check_dependencies-none n ds h) (check_nodes-none rest hs)

  dependencies_of-IsRanked :
      (rest : Nodes)
      → All
          (λ (e : Text × List Text).
            All (λ d. (has_node nodes d ≡ true) × (rank d < rank (e.0))) (e.1))
          rest
      → (k : Text)
      → All (λ d. (has_node nodes d ≡ true) × (rank d < rank k)) (dependencies_of rest k)
  unfolding dependencies_of
  dependencies_of-IsRanked [] h k = tt
  dependencies_of-IsRanked ((n, ds) ∷ rest) (h, hs) k = elim (Bool-cases (text_eq n k)) [
    | inl same ↦ rw (← (text_eq_iff n k).0 same, dependencies_of, text_eq_refl n) h
    | inr other ↦ rw (dependencies_of, other) (dependencies_of-IsRanked rest hs k)
  ]

  -- Where the queue is empty at the end, a name is done when the names of lower rank are.
  all_done :
      (done : List Text) (d' : Text → ℕ)
      → IsRanked rank nodes
      → IsRound nodes done [] [] d'
      → (bound : ℕ) (k : Text) → rank k < bound
      → occurs k (node_names nodes) ≤ occurs k done
  unfolding occurs
  all_done done d' h r zero k below = absurd (omega arith)
  all_done done d' h r (suc bound) k below =
      let met : missing done (dependencies_of nodes k) ≡ 0 =
        missing-zero done (dependencies_of nodes k) (λ d i.
          let (known, lower) = All-In _ _ (dependencies_of-IsRanked nodes h k) i in
          In-occurs d done (
            omega (
              arith,
              has_node-occurs nodes d known,
              all_done done d' h r bound d (omega arith),
            ))) in
      ground (arith, r.counted k, r.listed k)

-- For a map and the list of its keys, when every dependency is registered and has a lower rank than
-- what depends on it, the order is resolved: there is no error and no cycle is reported.
pub resolve_names-succeeds :
    (quote : Text → Text) (nodes : Nodes) (order : List Text) (rank : Text → ℕ)
    → IsListed nodes order
    → IsRanked rank nodes
    → (names : List Text) × (resolve_names quote nodes order ≡ ok names)
unfolding resolve_names
resolve_names-succeeds quote nodes [] rank l h = ([], refl)
resolve_names-succeeds quote nodes (x ∷ xs) rank l h =
    let (d', final) =
      loop_end nodes l.distinct (length nodes) [] (start_queue nodes (x ∷ xs)) (degree nodes)
        (start-IsRound nodes l.distinct (x ∷ xs) l.listed) (omega arith) in
    let names = order_loop (length nodes) nodes (start_queue nodes (x ∷ xs)) (degree nodes) in
    let full : length names ≡ length nodes = omega (
      arith,
      length-node_names nodes,
      length-le names (node_names nodes) (λ k. ground (arith, final.listed k)),
      length-le (node_names nodes) names
          (λ k. all_done quote nodes rank names d' h final (suc (rank k)) k (omega arith)),
    ) in
    (names, ground (arith, check_nodes-none quote nodes rank nodes h))
