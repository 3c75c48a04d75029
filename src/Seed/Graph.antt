-- ===== src/Seed/Graph.antt =====
-- The graph of the dependencies, and one round of the loop over it.
use dorm.Prelude.{
  ℕ, suc, ◌+◌, ◌==◌, ◌≤◌, ◌<◌, List, [], ◌∷◌, ◌++◌, map, length, ◌≡◌, refl, ap, arith, Text,
  text_eq, text_eq_iff, text_eq_refl, Bool-cases, inl, inr, if◌then◌else◌,
}
use dorm.Seed.{Nodes, degree, mentions_of, successors, decrement, release}
use dorm.Seed.Count.{occurs, occurs-append}

abbrev pub node_names : Nodes → List Text
node_names nodes = map (λ (e : Text × List Text). e.0) nodes

pub length-node_names : (nodes : Nodes) → length (node_names nodes) ≡ length nodes
length-node_names [] = refl
length-node_names (n ∷ rest) = ap suc (length-node_names rest)

-- The dependencies of a name.
unfoldable pub dependencies_of : Nodes → Text → List Text
unfolding text_eq
dependencies_of [] k = []
dependencies_of ((n, ds) ∷ rest) k =
    let later = dependencies_of rest k in if text_eq n k then ds else later

-- How many of the dependencies do not stand in a list.
unfoldable pub missing : List Text → List Text → ℕ
unfolding occurs
missing done [] = 0
missing done (d ∷ ds) = (if occurs d done == 0 then 1 else 0) + missing done ds

pub missing-nil : (ds : List Text) → missing [] ds ≡ length ds
unfolding missing occurs
missing-nil [] = refl
missing-nil (d ∷ ds) = omega (arith, missing-nil ds)

pub degree_lem : (nodes : Nodes) (k : Text) → degree nodes k ≡ length (dependencies_of nodes k)
unfolding degree dependencies_of
degree_lem [] k = refl
degree_lem ((n, ds) ∷ rest) k = ground (arith, degree_lem rest k)

-- A name that is done now was missing before, as often as it is mentioned.
pub missing-snoc :
    (done : List Text) (name : Text) (ds : List Text)
    → occurs name done ≡ 0
    → missing done ds ≡ missing (done ++ name ∷ []) ds + occurs name ds
unfolding missing occurs
missing-snoc done name [] h = omega arith
missing-snoc done name (d ∷ ds) h = elim (Bool-cases (text_eq d name)) [
  | inl same ↦ ground (
    arith,
    (text_eq_iff d name).0 same,
    h,
    text_eq_refl name,
    occurs-append d done (name ∷ []),
    missing-snoc done name ds h,
  )
  | inr other ↦ ground (
    arith,
    other,
    text_eq_iff name d,
    text_eq_refl d,
    occurs-append d done (name ∷ []),
    missing-snoc done name ds h,
  )
]

occurs-mentions_of :
    (k name n : Text) (ds : List Text)
    → occurs k (mentions_of name n ds) ≡ (if text_eq n k then occurs name ds else 0)
unfolding occurs mentions_of
occurs-mentions_of k name n [] = ground arith
occurs-mentions_of k name n (d ∷ ds) = ground (arith, occurs-mentions_of k name n ds)

successors_absent :
    (nodes : Nodes) (name k : Text)
    → occurs k (node_names nodes) ≡ 0
    → occurs k (successors nodes name) ≡ 0
unfolding occurs successors
successors_absent [] name k h = refl
successors_absent ((n, ds) ∷ rest) name k h = ground (
  arith,
  successors_absent rest name k,
  occurs-mentions_of k name n ds,
  occurs-append k (mentions_of name n ds) (successors rest name),
)

-- `graph[name]` holds a name as often as it mentions `name`.
pub occurs-successors :
    (nodes : Nodes) (name k : Text)
    → ((j : Text) → occurs j (node_names nodes) ≤ 1)
    → occurs k (successors nodes name) ≡ occurs name (dependencies_of nodes k)
unfolding occurs successors dependencies_of
occurs-successors [] name k h = refl
occurs-successors ((n, ds) ∷ rest) name k h = ground (
  arith,
  h k,
  occurs-mentions_of k name n ds,
  occurs-append k (mentions_of name n ds) (successors rest name),
  occurs-successors rest name k (λ j. ground (arith, h j)),
  successors_absent rest name k,
)

-- Only names of nodes are in the graph.
pub successors-known :
    (nodes : Nodes) (name k : Text)
    → 0 < occurs k (successors nodes name)
    → 0 < occurs k (node_names nodes)
successors-known nodes name k h = ground (arith, successors_absent nodes name k)

-- The state of the loop with the names `done`: a name stands in `done` or in the queue exactly when
-- its degree is 0, and its degree counts its dependencies that are not done, and the mentions that
-- the inner loop still has to take off.
pub record IsRound (nodes : Nodes) (done ahead q : List Text) (d : Text → ℕ) : Type 0 where
  pub listed :
      (k : Text)
      → occurs k done + occurs k q ≡ (if d k == 0 then occurs k (node_names nodes) else 0)
  pub counted : (k : Text) → d k ≡ missing done (dependencies_of nodes k) + occurs k ahead

module _ (nodes : Nodes) (distinct : (k : Text) → occurs k (node_names nodes) ≤ 1)
    (done : List Text) where
  -- One step of the inner loop.
  release_step :
      (n : Text) (ahead q : List Text) (d : Text → ℕ)
      → 0 < occurs n (node_names nodes)
      → IsRound nodes done (n ∷ ahead) q d
      → IsRound nodes done ahead (if d n == 1 then q ++ n ∷ [] else q) (decrement n d)
  unfolding decrement occurs
  release_step n ahead q d known r = record {
    listed = λ k. elim (Bool-cases (text_eq n k)) [
      | inl same ↦
          let e = (text_eq_iff n k).0 same in
          rw (← e) (
            ground (
              arith,
              text_eq_refl n,
              r.listed n,
              r.counted n,
              distinct n,
              occurs-append n q (n ∷ []),
            ))
      | inr other ↦ ground (arith, r.listed k, occurs-append k q (n ∷ []))
    ];
    counted = λ k. elim (Bool-cases (text_eq n k)) [
      | inl same ↦ ground (arith, same, r.counted k)
      | inr other ↦ ground (arith, other, r.counted k)
    ];
  }

  -- The inner loop.
  pub release-IsRound :
      (ahead q : List Text) (d : Text → ℕ)
      → ((k : Text) → 0 < occurs k ahead → 0 < occurs k (node_names nodes))
      → IsRound nodes done ahead q d
      → let (q', d') = release ahead q d in IsRound nodes done [] q' d'
  unfolding release
  release-IsRound [] q d known r = r
  release-IsRound (n ∷ ns) q d known r =
      release-IsRound ns _ (decrement n d) (λ k h. known k (unfold occurs in ground arith))
        (release_step n ns q d (known n (unfold occurs in ground (arith, text_eq_refl n))) r)
