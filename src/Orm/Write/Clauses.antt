-- ===== src/Orm/Write/Clauses.antt =====
-- The numbers of the placeholders of an UPDATE: the SET clauses come first, the key columns next,
-- the predicates last.
use dorm.Prelude.{
  ℕ, ◌+◌, Bool, not, ◌&&◌, ◌||◌, none, some, List, [], ◌∷◌, ◌++◌, ◌≡◌, refl, ap, arith, Text,
  length, flat, All, keep_if, map, is_some,
}
use dorm.Value.{Any}
use dorm.Schema.Types.{Column, Table}
use dorm.Dialect.{Dialect}
use dorm.Dialect.Placeholders.{substitute}
use dorm.Access.Engine.{Predicate}
use dorm.Orm.Query.{bind_predicates}
use dorm.Orm.Query.Binding.{IsAligned, concat, bind_predicates_lem}
use dorm.Orm.Write.{
  Values, lookup, mentions, set_loop, update_set_clauses, key_clauses, extra_clauses,
  build_where_clauses,
}

-- A column that an update sets: neither in the key nor the version, and with a value.
abbrev is_set : Values → List Text → Column → Bool
is_set values pk c = not (mentions pk c.name || c.version) && is_some (lookup c.name values)

abbrev pub set_names : Values → List Text → List Column → List Text
set_names values pk cols = map (λ c. c.name) (keep_if (is_set values pk) cols)

abbrev value_of : Values → Column → List Any
value_of values c = elim (lookup c.name values) [ none ↦ [] | some v ↦ v ∷ [] ]

abbrev pub set_values : Values → List Text → List Column → List Any
set_values values pk cols = flat (value_of values) (keep_if (is_set values pk) cols)

module _ (d : Dialect) (values : Values) (pk : List Text) where
  set_loop_lem :
      (i : ℕ) (cols : List Column)
      → (set_loop d values pk i cols
          ≡ (key_clauses d i (set_names values pk cols), set_values values pk cols))
        × (length (set_values values pk cols) ≡ length (set_names values pk cols))
  unfolding set_loop key_clauses
  set_loop_lem i [] = (refl, refl)
  set_loop_lem i (c ∷ cols) = ground (arith, set_loop_lem i cols, set_loop_lem (i + 1) cols)

extra_clauses_lem :
    (d : Dialect) (i : ℕ) (ps : List Predicate) → extra_clauses d i ps ≡ bind_predicates d i ps
unfolding extra_clauses bind_predicates
extra_clauses_lem d i [] = refl
extra_clauses_lem d i (p ∷ ps) = refl

-- The SET clauses of an update assign `$1`, `$2`, … to the columns that have a value and are
-- neither key nor version columns, in the table's order, with one argument each. The WHERE clauses
-- go on from the next number: first the key columns, then the predicates, which, if each has one
-- hole for each argument, are their texts numbered as one; the arguments are those of the key and
-- of the predicates in their order.
pub update-numbering :
    (d : Dialect) (table : Table) (values : Values) (pk cols : List Text) (keys : List Any)
    (preds : List Predicate)
    → All IsAligned preds
    → let (set, args) = update_set_clauses table values pk d in
      let (clauses, where_args) = build_where_clauses cols keys preds (length args + 1) d in
      let names = set_names values pk table.columns in
      (set ≡ key_clauses d 1 names)
      × (args ≡ set_values values pk table.columns)
      × (length args ≡ length names)
      × ((texts : List Text) × (clauses ≡ key_clauses d (length names + 1) cols ++ texts)
          × (concat texts
              ≡ substitute d.placeholder
                  (length names + 1 + length cols)
                  (flat (λ p. p.sql) preds)))
      × (where_args ≡ keys ++ flat (λ p. p.args) preds)
unfolding update_set_clauses build_where_clauses
update-numbering d table values pk cols keys preds h =
    let (set, count) = set_loop_lem d values pk 1 table.columns in
    let names = set_names values pk table.columns in
    let start = length names + 1 + length cols in
    let (texts, args, held) = bind_predicates_lem d start preds h in
    (
      ap (λ (s : List Text × List Any). s.0) set,
      ap (λ (s : List Text × List Any). s.1) set,
      rw set count,
      ((bind_predicates d start preds).0, rw (set, count, extra_clauses_lem d start preds), texts),
      rw (set, count, extra_clauses_lem d start preds, args),
    )
