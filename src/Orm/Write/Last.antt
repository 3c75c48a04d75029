-- ===== src/Orm/Write/Last.antt =====
-- The last predicate of a WHERE clause, and the number of its placeholder.
use dorm.Prelude.{
  ℕ, suc, ◌+◌, List, [], ◌∷◌, ◌++◌, append_assoc, append-nil, length, length-append, ◌≡◌, refl, ap,
  Text, arith, Bool-cases, Option-cases, inl, inr,
}
use dorm.Value.{Any}
use dorm.Schema.Types.{Column, Table}
use dorm.Errors.{Result, ok, err, ◌>>=◌}
use dorm.Dialect.{Dialect}
use dorm.Access.Engine.{Predicate}
use dorm.Orm.Query.{bind_clause}
use dorm.Orm.Write.{
  Runtime, Model, field_by_column, primary_key_values, key_values_loop, key_clauses, extra_clauses,
  build_where_clauses,
}

module _ (d : Dialect) where
  extra_clauses-snoc :
      (i : ℕ) (ps : List Predicate) (p : Predicate) (n : ℕ)
      → n ≡ i + length (extra_clauses d i ps).1
      → extra_clauses d i (ps ++ p ∷ []) ≡ (
        (extra_clauses d i ps).0 ++ (bind_clause d p.sql p.args n).0 ∷ [],
        (extra_clauses d i ps).1 ++ (bind_clause d p.sql p.args n).1,
      )
  unfolding extra_clauses
  extra_clauses-snoc i [] p n e =
      let same : n ≡ i = omega (arith, e) in
      rw (same, append-nil (bind_clause d p.sql p.args i).1) refl
  extra_clauses-snoc i (q ∷ ps) p n e =
      let (text, args) = bind_clause d q.sql q.args i in
      rw
        (
          extra_clauses-snoc (i + length args) ps p n
              (omega (arith, e, length-append args (extra_clauses d (i + length args) ps).1)),
          append_assoc args (extra_clauses d (i + length args) ps).1
              (bind_clause d p.sql p.args n).1,
        )
        refl

  -- The last predicate is bound after the keys and all others.
  pub build_where_clauses-snoc :
      (cols : List Text) (keys : List Any) (ps : List Predicate) (p : Predicate) (start n : ℕ)
      → length keys ≡ length cols
      → n ≡ start + length (build_where_clauses cols keys ps start d).1
      → build_where_clauses cols keys (ps ++ p ∷ []) start d ≡ (
        (build_where_clauses cols keys ps start d).0 ++ (bind_clause d p.sql p.args n).0 ∷ [],
        (build_where_clauses cols keys ps start d).1 ++ (bind_clause d p.sql p.args n).1,
      )
  unfolding build_where_clauses
  build_where_clauses-snoc cols keys ps p start n same e =
      let (texts, rest) = extra_clauses d (start + length cols) ps in
      rw
        (
          extra_clauses-snoc (start + length cols) ps p n
              (omega (arith, e, same, length-append keys rest)),
          append_assoc (key_clauses d start cols) texts ((bind_clause d p.sql p.args n).0 ∷ []),
          append_assoc keys rest (bind_clause d p.sql p.args n).1,
        )
        refl

-- A result with as many values as names.
abbrev IsPaired : Result (List Text × List Any) → Type 0
IsPaired (ok p) = length p.1 ≡ length p.0
IsPaired (err e) = Unit

bind-IsPaired :
    (name : Text) (v : Any) (r : Result (List Text × List Any))
    → IsPaired r
    → IsPaired (r >>= λ found. ok (name ∷ found.0, v ∷ found.1))
bind-IsPaired name v (ok p) h = ap suc h
bind-IsPaired name v (err e) h = tt

key_values_loop-IsPaired :
    (rt : Runtime) (m : Model) (columns : List Column) → IsPaired (key_values_loop rt m columns)
unfolding key_values_loop
key_values_loop-IsPaired rt m [] = refl
key_values_loop-IsPaired rt m (col ∷ columns) = elim (Bool-cases col.primary_key) [
  | inl key ↦ elim (Option-cases (field_by_column rt m col.name)) [
    | inl e ↦ rw (key_values_loop, key, e) tt
    | inr (v, e) ↦
        rw (key_values_loop, key, e)
          (bind-IsPaired col.name v (key_values_loop rt m columns)
            (key_values_loop-IsPaired rt m columns))
  ]
  | inr other ↦ rw (key_values_loop, other) (key_values_loop-IsPaired rt m columns)
]

pub primary_key_values-length :
    (rt : Runtime) (table : Table) (m : Model) (cols : List Text) (keys : List Any)
    → primary_key_values rt table m ≡ ok (cols, keys)
    → length keys ≡ length cols
unfolding primary_key_values
primary_key_values-length rt table m cols keys e =
    rw e at (key_values_loop-IsPaired rt m table.columns)
