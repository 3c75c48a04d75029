-- ===== src/Seed/Names.antt =====
-- What the registry keeps: its map and its order list the same names, each once.
use dorm.Prelude.{
  ◌+◌, ◌==◌, ◌≤◌, ◌<◌, false, not, In, here, there, List, [], ◌∷◌, map, Option, none, some, is_some,
  is_nil, trim, All, ◌≡◌, refl, sym, ◌∙◌, ap, Option-cases, arith, Text, text_eq, text_eq_iff,
  Bool-cases, inl, inr, if◌then◌else◌,
}
use dorm.Seed.{
  Seeder, Registry, find, assign, register_one, register, pick, nodes_of, resolve_names,
  resolve_order,
}
use dorm.Seed.Count.{occurs, occurs-append, occurs-In}
use dorm.Seed.Graph.{node_names}
use dorm.Errors.{ok, Result-cases}
use dorm.Seed.Loop.{InOrder}
use dorm.Seed.Order.{IsListed, resolve_names-orders}

module _ {D : Type 0} where
  abbrev keys : List (Text × Seeder D) → List Text
  keys seeders = map (λ (e : Text × Seeder D). e.0) seeders

  -- The map's keys are distinct, `order` lists them, and each is the name of its seeder, which is not
  -- blank.
  pub record IsRegistry (r : Registry D) : Type 0 where
    pub distinct : (k : Text) → occurs k (keys r.seeders) ≤ 1
    pub listed : (k : Text) → occurs k r.order ≡ occurs k (keys r.seeders)
    pub named :
        All (λ (e : Text × Seeder D). (e.0 ≡ e.1.name) × (is_nil (trim (e.0)) ≡ false)) r.seeders

  keys-assign :
      (k j : Text) (s : Seeder D) (seeders : List (Text × Seeder D))
      → occurs j (keys (assign k s seeders))
        ≡ occurs j (keys seeders)
          + (if is_some (find k seeders) then 0 else if text_eq k j then 1 else 0)
  unfolding assign find occurs
  keys-assign k j s [] = omega arith
  keys-assign k j s ((n, t) ∷ rest) = ground (arith, keys-assign k j s rest)

  find-keys :
      (k : Text) (seeders : List (Text × Seeder D))
      → is_some (find k seeders) ≡ not (occurs k (keys seeders) == 0)
  unfolding find occurs
  find-keys k [] = refl
  find-keys k ((n, t) ∷ rest) = ground (arith, find-keys k rest)

  assign-named :
      (s : Seeder D) (seeders : List (Text × Seeder D))
      → is_nil (trim s.name) ≡ false
      → All (λ (e : Text × Seeder D). (e.0 ≡ e.1.name) × (is_nil (trim (e.0)) ≡ false)) seeders
      → All
          (λ (e : Text × Seeder D). (e.0 ≡ e.1.name) × (is_nil (trim (e.0)) ≡ false))
          (assign s.name s seeders)
  unfolding assign
  assign-named s [] h hs = ((refl, h), tt)
  assign-named s ((n, t) ∷ rest) h (g, hs) = elim (Bool-cases (text_eq n s.name)) [
    | inl same ↦ rw (assign, same) ((((text_eq_iff n s.name).0 same), g.1), hs)
    | inr other ↦ rw (assign, other) (g, assign-named s rest h hs)
  ]

  register_one-IsRegistry :
      (s : Seeder D) (r : Registry D) → IsRegistry r → IsRegistry (register_one s r)
  unfolding register_one occurs
  register_one-IsRegistry s r i = elim (Bool-cases (is_nil (trim s.name))) [
    | inl blank ↦ rw (register_one, blank) i
    | inr named ↦
        rw (register_one, named)
          (record {
            distinct = λ k. ground (
              arith,
              i.distinct k,
              keys-assign s.name k s r.seeders,
              find-keys s.name r.seeders,
              text_eq_iff s.name k,
            );
            listed = λ k. ground (
              arith,
              i.listed k,
              keys-assign s.name k s r.seeders,
              occurs-append k r.order (s.name ∷ []),
            );
            named = assign-named s r.seeders named i.named;
          })
  ]

  -- Registering seeders keeps the registry well formed.
  pub register-IsRegistry :
      (seeds : List (Option (Seeder D))) (r : Registry D)
      → IsRegistry r
      → IsRegistry (register seeds r)
  unfolding register
  register-IsRegistry [] r i = i
  register-IsRegistry (none ∷ rest) r i = register-IsRegistry rest r i
  register-IsRegistry (some s ∷ rest) r i =
      register-IsRegistry rest (register_one s r) (register_one-IsRegistry s r i)

  node_names-keys :
      (seeders : List (Text × Seeder D))
      → node_names (map (λ (e : Text × Seeder D). (e.0, e.1.dependencies)) seeders) ≡ keys seeders
  node_names-keys [] = refl
  node_names-keys (e ∷ rest) = ap (λ l. e.0 ∷ l) (node_names-keys rest)

  pub nodes-IsListed : (r : Registry D) → IsRegistry r → IsListed (nodes_of r) r.order
  nodes-IsListed r i = record {
    distinct = λ k. rw (node_names-keys r.seeders) (i.distinct k);
    listed = λ k. rw (node_names-keys r.seeders) (i.listed k);
  }

  abbrev names_of : List (Seeder D) → List Text
  names_of ss = map (λ (s : Seeder D). s.name) ss

  find-named :
      (k : Text) (seeders : List (Text × Seeder D))
      → All (λ (e : Text × Seeder D). (e.0 ≡ e.1.name) × (is_nil (trim (e.0)) ≡ false)) seeders
      → (s : Seeder D) → find k seeders ≡ some s
      → s.name ≡ k
  unfolding find
  find-named k [] h s e = absurd (ground arith)
  find-named k ((n, t) ∷ rest) (g, hs) s e = elim (Bool-cases (text_eq n k)) [
    | inl same ↦ ground (arith, g.0, (text_eq_iff n k).0 same)
    | inr other ↦ find-named k rest hs s (ground arith)
  ]

  pick-names :
      (r : Registry D)
      → IsRegistry r
      → (names : List Text) → ((k : Text) → In k names → 0 < occurs k (keys r.seeders))
      → names_of (pick r.seeders names) ≡ names
  unfolding pick
  pick-names r i [] known = refl
  pick-names r i (n ∷ ns) known = elim (Option-cases (find n r.seeders)) [
    | inl e ↦ absurd (ground (arith, known n here, find-keys n r.seeders))
    | inr (s, e) ↦
        rw (pick, e)
          (rw (find-named n r.seeders i.named s e, pick-names r i ns (λ k j. known k (there j)))
            refl)
  ]

  -- With a well-formed registry, the seeders that are resolved are those that are registered, each
  -- once, and each stands after all the seeders that it depends on.
  pub resolve_order-orders :
      (quote : Text → Text) (r : Registry D) (ss : List (Seeder D))
      → IsRegistry r
      → resolve_order quote r ≡ ok ss
      → InOrder (nodes_of r) [] (names_of ss)
        × ((k : Text) → occurs k (names_of ss) ≡ occurs k r.order)
  unfolding resolve_order
  resolve_order-orders quote r ss i e =
      elim (Result-cases (resolve_names quote (nodes_of r) r.order)) [
        | inl (names, e') ↦
            let (ordered, same) =
              resolve_names-orders quote (nodes_of r) r.order names (nodes-IsListed r i) e' in
            let counts : (k : Text) → occurs k names ≡ occurs k r.order =
              λ k. same k ∙ sym ((nodes-IsListed r i).listed k) in
            let picked : ss ≡ pick r.seeders names = ground (arith, e, e') in
            rw
              (
                picked,
                pick-names r i names (λ k j. omega (arith, i.listed k, counts k, occurs-In j)),
              )
              (ordered, counts)
        | inr (x, e') ↦ absurd (ground (arith, e, e'))
      ]
