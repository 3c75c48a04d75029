-- ===== src/Seed/Loop.antt =====
-- The loop that orders the seeders: where it ends, and what order it gives.
use dorm.Prelude.{
  ℕ, zero, suc, ◌+◌, ◌==◌, ◌≤◌, List, [], ◌∷◌, ◌++◌, append_assoc, append-nil, length,
  length-append, keep_if, List-cases, In, here, there, ◌≡◌, refl, sym, ◌∙◌, ap, arith, Text,
  text_eq, text_eq_refl, text_le, inl, inr, if◌then◌else◌,
}
use dorm.Schema.Keys.{sort_by}
use dorm.Seed.{Nodes, degree, successors, release, order_loop}
use dorm.Seed.Count.{
  occurs, occurs-append, occurs-sort_by, occurs-keep_if, occurs-In, In-occurs, length-le,
}
use dorm.Seed.Graph.{
  node_names, length-node_names, dependencies_of, missing, missing-nil, degree_lem, missing-snoc,
  occurs-successors, successors-known, IsRound, release-IsRound,
}

-- Each name stands after its dependencies: those are among the names before it.
pub data InOrder (nodes : Nodes) : List Text → List Text → Type 0 where
  ends : {done : List Text} → InOrder nodes done []
  next :
      {done : List Text} {n : Text} {ns : List Text}
      → ((d : Text) → In d (dependencies_of nodes n) → In d done)
      → InOrder nodes (done ++ n ∷ []) ns
      → InOrder nodes done (n ∷ ns)

missing-In : (done ds : List Text) → missing done ds ≡ 0 → (d : Text) → In d ds → In d done
unfolding missing
missing-In done [] h d i = elim i [ ]
missing-In done (x ∷ ds) h _ here = In-occurs x done (ground arith)
missing-In done (x ∷ ds) h d (there i) = missing-In done ds (ground arith) d i

pub missing-zero : (done ds : List Text) → ((d : Text) → In d ds → In d done) → missing done ds ≡ 0
unfolding missing
missing-zero done [] h = refl
missing-zero done (d ∷ ds) h =
    ground (arith, occurs-In (h d here), missing-zero done ds (λ j i. h j (there i)))

module _ (nodes : Nodes) (distinct : (k : Text) → occurs k (node_names nodes) ≤ 1) where
  -- What the loop starts with.
  pub start-IsRound :
      (order : List Text)
      → ((k : Text) → occurs k order ≡ occurs k (node_names nodes))
      → IsRound nodes [] []
          (sort_by text_le (keep_if (λ n. degree nodes n == 0) order))
          (degree nodes)
  unfolding occurs
  start-IsRound order same = record {
    listed = λ k. ground (
      arith,
      same k,
      occurs-sort_by text_le k (keep_if (λ n. degree nodes n == 0) order),
      occurs-keep_if (λ n. degree nodes n == 0) k order,
    );
    counted = λ k. omega (arith, degree_lem nodes k, missing-nil (dependencies_of nodes k));
  }

  taken_counts :
      (q rest : List Text) (name k : Text)
      → sort_by text_le q ≡ name ∷ rest
      → occurs k q ≡ (if text_eq name k then 1 else 0) + occurs k rest
  unfolding occurs
  taken_counts q rest name k e = sym (occurs-sort_by text_le k q) ∙ ap (occurs k) e

  -- The name that is taken from the queue is new, and its dependencies are done.
  taken_fresh :
      (done q rest : List Text) (d : Text → ℕ) (name : Text)
      → IsRound nodes done [] q d
      → sort_by text_le q ≡ name ∷ rest
      → (occurs name done ≡ 0) × (d name ≡ 0)
  taken_fresh done q rest d name r e =
      ground
        (arith, r.listed name, distinct name, taken_counts q rest name name e, text_eq_refl name)

  taken-IsRound :
      (done q rest : List Text) (d : Text → ℕ) (name : Text)
      → IsRound nodes done [] q d
      → sort_by text_le q ≡ name ∷ rest
      → IsRound nodes (done ++ name ∷ []) (successors nodes name) rest d
  unfolding occurs
  taken-IsRound done q rest d name r e = record {
    listed = λ k.
        ground (arith, r.listed k, taken_counts q rest name k e, occurs-append k done (name ∷ []));
    counted = λ k. omega (
      arith,
      r.counted k,
      missing-snoc done name (dependencies_of nodes k) ((taken_fresh done q rest d name r e).0),
      occurs-successors nodes name k distinct,
    );
  }

  pass-IsRound :
      (done q rest : List Text) (d : Text → ℕ) (name : Text)
      → IsRound nodes done [] q d
      → sort_by text_le q ≡ name ∷ rest
      → let (q', d') = release (successors nodes name) rest d in
        IsRound nodes (done ++ name ∷ []) [] q' d'
  pass-IsRound done q rest d name r e =
      release-IsRound nodes distinct (done ++ name ∷ []) (successors nodes name) rest d
        (successors-known nodes name) (taken-IsRound done q rest d name r e)

  -- What is done and what waits are names of nodes, each once at most.
  round_bound :
      (done q : List Text) (d : Text → ℕ)
      → IsRound nodes done [] q d
      → length done + length q ≤ length nodes
  round_bound done q d r = omega (
    arith,
    length-append done q,
    length-node_names nodes,
    length-le (done ++ q) (node_names nodes)
        (λ k. ground (arith, r.listed k, occurs-append k done q)),
  )

  length-snoc : (done : List Text) (name : Text) → length (done ++ name ∷ []) ≡ suc (length done)
  length-snoc done name = omega (arith, length-append done (name ∷ []))

  empty_waits : (q : List Text) → length q ≡ 0 → (k : Text) → occurs k q ≡ 0
  unfolding occurs
  empty_waits [] e k = refl
  empty_waits (x ∷ q) e k = absurd (omega arith)

  drained :
      {done q : List Text} {d : Text → ℕ}
      → IsRound nodes done [] q d
      → ((k : Text) → occurs k q ≡ 0)
      → IsRound nodes (done ++ []) [] [] d
  unfolding occurs
  drained {done} r none_waits =
      rw (append-nil done)
        (record { listed = λ k. omega (arith, r.listed k, none_waits k); counted = r.counted })

  sorted_empty : (q : List Text) → sort_by text_le q ≡ [] → (k : Text) → occurs k q ≡ 0
  unfolding occurs
  sorted_empty q e k = sym (occurs-sort_by text_le k q) ∙ ap (occurs k) e

  -- With one round for each node that is not done the loop ends with an empty queue.
  pub loop_end :
      (fuel : ℕ) (done q : List Text) (d : Text → ℕ)
      → IsRound nodes done [] q d
      → length nodes ≤ length done + fuel
      → (d' : Text → ℕ) × IsRound nodes (done ++ order_loop fuel nodes q d) [] [] d'
  unfolding order_loop
  loop_end zero done q d r enough =
      (d, drained r (empty_waits q (omega (arith, round_bound done q d r))))
  loop_end (suc fuel) done q d r enough = elim (List-cases (sort_by text_le q)) [
    | inl e ↦ rw (e, order_loop) (d, drained r (sorted_empty q e))
    | inr (name, rest, e) ↦
        let (q', d') = release (successors nodes name) rest d in
        rw (e, order_loop, ← append_assoc done (name ∷ []) (order_loop fuel nodes q' d'))
          (loop_end fuel (done ++ name ∷ []) q' d' (pass-IsRound done q rest d name r e)
            (omega (arith, length-snoc done name)))
  ]

  loop_idle :
      (fuel : ℕ) (q : List Text) (d : Text → ℕ) → length q ≡ 0 → order_loop fuel nodes q d ≡ []
  unfolding order_loop sort_by
  loop_idle zero q d e = refl
  loop_idle (suc fuel) [] d e = refl
  loop_idle (suc fuel) (x ∷ q) d e = absurd (omega arith)

  -- Two amounts of fuel that are both enough give the same names.
  pub loop_same :
      (n m : ℕ) (done q : List Text) (d : Text → ℕ)
      → IsRound nodes done [] q d
      → length nodes ≤ length done + n
      → length nodes ≤ length done + m
      → order_loop n nodes q d ≡ order_loop m nodes q d
  unfolding order_loop
  loop_same zero m done q d r enough enough' =
      let none_waits : length q ≡ 0 = omega (arith, round_bound done q d r) in
      loop_idle zero q d none_waits ∙ sym (loop_idle m q d none_waits)
  loop_same (suc n) zero done q d r enough enough' =
      let none_waits : length q ≡ 0 = omega (arith, round_bound done q d r) in
      loop_idle (suc n) q d none_waits ∙ sym (loop_idle zero q d none_waits)
  loop_same (suc n) (suc m) done q d r enough enough' = elim (List-cases (sort_by text_le q)) [
    | inl e ↦ rw (e, order_loop) refl
    | inr (name, rest, e) ↦
        let (q', d') = release (successors nodes name) rest d in
        rw (e, order_loop)
          (ap (λ l. name ∷ l)
            (loop_same n m (done ++ name ∷ []) q' d' (pass-IsRound done q rest d name r e)
              (omega (arith, length-snoc done name)) (omega (arith, length-snoc done name))))
  ]

  pub loop-InOrder :
      (fuel : ℕ) (done q : List Text) (d : Text → ℕ)
      → IsRound nodes done [] q d
      → InOrder nodes done (order_loop fuel nodes q d)
  unfolding order_loop
  loop-InOrder zero done q d r = ends
  loop-InOrder (suc fuel) done q d r = elim (List-cases (sort_by text_le q)) [
    | inl e ↦ rw (e, order_loop) ends
    | inr (name, rest, e) ↦
        let (q', d') = release (successors nodes name) rest d in
        let met : missing done (dependencies_of nodes name) ≡ 0 =
          ground (arith, r.counted name, (taken_fresh done q rest d name r e).1) in
        rw (e, order_loop)
          (next (missing-In done (dependencies_of nodes name) met)
            (loop-InOrder fuel (done ++ name ∷ []) q' d' (pass-IsRound done q rest d name r e)))
  ]
