-- ===== src/Orm/Query/Binding.antt =====
-- The placeholders of a SELECT: clauses are bound one after the other, each from the number that
-- the arguments before it leave.
use dorm.Prelude.{
  ℕ, ◌+◌, List, [], ◌∷◌, ◌++◌, ◌≡◌, refl, arith, ap, sym, Text, txt, length, length-append, flat,
  All, if◌then◌else◌, Bool-cases, inl, inr,
}
use dorm.Value.{Any}
use dorm.Dialect.{Dialect}
use dorm.Dialect.Placeholders.{substitute, holes, holes-append, substitute-append, substitute_plain}
use dorm.Access.Engine.{Predicate}
use dorm.Orm.Query.{
  JoinClause, QueryState, bind_clause, bind_predicates, bind_joins, select_parts, is_conditional,
  bind_join, join_head,
}

-- A text has one hole for each argument.
abbrev pub IsAligned : Predicate → Type 0
IsAligned p = holes p.sql ≡ length p.args

abbrev pub concat : List Text → Text
concat = flat (λ t. t)

module _ (d : Dialect) where
  bind_clause_lem :
      (e : Text) (args : List Any) (k : ℕ)
      → holes e ≡ length args
      → bind_clause d e args k ≡ (substitute d.placeholder k e, args)
  unfolding bind_clause
  bind_clause_lem [] [] k h = rw (substitute_plain d.placeholder k [] refl)
  bind_clause_lem [] (a ∷ args) k h = absurd (omega arith)
  bind_clause_lem (c ∷ e) [] k h = rw (substitute_plain d.placeholder k (c ∷ e) h)
  bind_clause_lem (c ∷ e) (a ∷ args) k h = refl

  -- The texts of aligned predicates are the numbering of their text as one, and their arguments
  -- stand in its order.
  pub bind_predicates_lem :
      (k : ℕ) (ps : List Predicate)
      → All IsAligned ps
      → (concat (bind_predicates d k ps).0 ≡ substitute d.placeholder k (flat (λ p. p.sql) ps))
        × ((bind_predicates d k ps).1 ≡ flat (λ p. p.args) ps)
        × (length (flat (λ (p : Predicate). p.args) ps) ≡ holes (flat (λ p. p.sql) ps))
  unfolding bind_predicates
  bind_predicates_lem k [] h = (sym (substitute_plain d.placeholder k [] refl), refl, refl)
  bind_predicates_lem k (p ∷ ps) h =
      let (texts, args, count) = bind_predicates_lem (k + length p.args) ps h.1 in
      (
        rw (bind_clause_lem p.sql p.args k h.0, texts)
            (rw (substitute-append d.placeholder k p.sql _, h.0)),
        rw (bind_clause_lem p.sql p.args k h.0, args),
        omega (
          arith,
          h.0,
          count,
          holes-append p.sql (flat (λ p. p.sql) ps),
          length-append p.args (flat (λ p. p.args) ps),
        ),
      )

-- The text of a join before its placeholders are numbered, and the arguments it passes on.
abbrev raw_join : JoinClause → Text
raw_join j = if is_conditional j then join_head j ++ (txt " ON " ++ j.on) else join_head j

abbrev pub join_args : JoinClause → List Any
join_args j = if is_conditional j then j.args else []

-- The table of the join has no hole, and its condition has one hole for each argument.
abbrev IsAlignedJoin : JoinClause → Type 0
IsAlignedJoin j = (holes (join_head j) ≡ 0) × (holes j.on ≡ length j.args)

holes-raw_join : (j : JoinClause) → IsAlignedJoin j → holes (raw_join j) ≡ length (join_args j)
holes-raw_join j h = elim (Bool-cases (is_conditional j)) [
  | inl shown ↦ rw shown (omega (arith, h, holes-append (join_head j) (txt " ON " ++ j.on)))
  | inr bare ↦ rw bare h.0
]

module _ (d : Dialect) where
  substitute-head :
      (k : ℕ) (head e : Text)
      → holes head ≡ 0
      → substitute d.placeholder k (head ++ (txt " ON " ++ e))
        ≡ head ++ (txt " ON " ++ substitute d.placeholder k e)
  unfolding substitute
  substitute-head k head e h =
      rw
        (
          substitute-append d.placeholder k head (txt " ON " ++ e),
          substitute_plain d.placeholder k head h,
          h,
        )
        (ap (λ n. head ++ (txt " ON " ++ substitute d.placeholder n e)) (omega arith))

  bind_join_lem :
      (j : JoinClause) (k : ℕ)
      → IsAlignedJoin j
      → bind_join d j k ≡ (substitute d.placeholder k (raw_join j), join_args j)
  unfolding bind_join
  bind_join_lem j k h = elim (Bool-cases (is_conditional j)) [
    | inl shown ↦
        rw (shown, bind_clause_lem d j.on j.args k h.1, substitute-head k (join_head j) j.on h.0)
    | inr bare ↦ rw (bare, substitute_plain d.placeholder k (join_head j) h.0)
  ]

  bind_joins_lem :
      (k : ℕ) (js : List JoinClause)
      → All IsAlignedJoin js
      → (concat (bind_joins d k js).0 ≡ substitute d.placeholder k (flat raw_join js))
        × ((bind_joins d k js).1 ≡ flat join_args js)
        × (length (flat join_args js) ≡ holes (flat raw_join js))
  unfolding bind_joins
  bind_joins_lem k [] h = (sym (substitute_plain d.placeholder k [] refl), refl, refl)
  bind_joins_lem k (j ∷ js) h =
      let count_j = holes-raw_join j h.0 in
      let (texts, args, count) = bind_joins_lem (k + length (join_args j)) js h.1 in
      (
        rw (bind_join_lem j k h.0, texts)
            (rw (substitute-append d.placeholder k (raw_join j) _, count_j)),
        rw (bind_join_lem j k h.0, args),
        omega (
          arith,
          count_j,
          count,
          holes-append (raw_join j) (flat raw_join js),
          length-append (join_args j) (flat join_args js),
        ),
      )

-- A query whose texts all have one hole for each argument.
pub record IsAlignedState (q : QueryState) : Type 0 where
  pub joins : All IsAlignedJoin q.joins
  pub where_ : All IsAligned q.where_
  pub having : All IsAligned q.having

-- The text of the joins, the WHERE and the HAVING predicates before numbering, and the arguments
-- in the order in which they were given.
unfoldable pub raw_text : QueryState → Text
raw_text q = flat raw_join q.joins ++ (flat (λ p. p.sql) q.where_ ++ flat (λ p. p.sql) q.having)

unfoldable pub raw_args : QueryState → List Any
raw_args q = (flat join_args q.joins ++ flat (λ p. p.args) q.where_) ++ flat (λ p. p.args) q.having

-- In a query whose joins, WHERE and HAVING predicates have one hole for each argument (a join's
-- table has none), the rendered joins and predicates, read one after the other, are their texts
-- numbered as one text from 1 on; the arguments stand in the order given, one for each hole.
pub select_parts-numbering :
    (d : Dialect) (q : QueryState)
    → IsAlignedState q
    → let (parts, args) = select_parts d q in
      (concat parts.joins ++ (concat parts.where_ ++ concat parts.having)
        ≡ substitute d.placeholder 1 (raw_text q))
      × (args ≡ raw_args q)
      × (length args ≡ holes (raw_text q))
unfolding select_parts raw_text raw_args
select_parts-numbering d q h =
    let joined = bind_joins_lem d 1 q.joins h.joins in
    let clauses = bind_predicates_lem d (length (flat join_args q.joins) + 1) q.where_ h.where_ in
    let having =
      bind_predicates_lem d
        (length (flat join_args q.joins ++ flat (λ (p : Predicate). p.args) q.where_) + 1) q.having
        h.having in
    let where_start : length (flat join_args q.joins) + 1 ≡ 1 + holes (flat raw_join q.joins) =
      omega (arith, joined.2) in
    let having_start : length (flat join_args q.joins ++ flat (λ (p : Predicate). p.args) q.where_)
          + 1
        ≡ 1 + holes (flat raw_join q.joins) + holes (flat (λ p. p.sql) q.where_) =
      omega (
        arith,
        joined.2,
        clauses.2,
        length-append (flat join_args q.joins) (flat (λ (p : Predicate). p.args) q.where_),
      ) in
    (
      rw (joined.1, clauses.1, joined.0, clauses.0, having.0, where_start, having_start)
          (sym (
            rw (
              substitute-append d.placeholder 1 (flat raw_join q.joins) _,
              substitute-append d.placeholder _ (flat (λ p. p.sql) q.where_) _,
            ))),
      rw (joined.1, clauses.1, having.1),
      rw (joined.1, clauses.1, having.1)
          (simp (length-append, holes-append) (omega (arith, joined.2, clauses.2, having.2))),
    )
