-- ===== src/Schema/Builder/Keys/Loop.antt =====
-- schema/builder.go: the loop of buildTableFromType over the unique columns.
use dorm.Prelude.{
  ◌≡◌, ◌⊎◌, inl, inr, refl, sym, ap, ◌∙◌, append_assoc, arith, true, false, not, ◌||◌, List, [],
  ◌∷◌, ◌++◌, length, length-append, In, here, there, All, All-In, All-append, In-append_left,
  In-append_right, In-append_split, In-single, Text, txt, text_eq, text_eq_iff, Bool-cases,
}
use mathlib.Core.Path.{subst}
use dorm.Schema.Types.{Column, Constraint, primary_key, unique}
use dorm.Schema.Builder.Tables.{
  primary_key_columns, constraint_exists, constraint_of, unique_name, unique_constraints,
}

module _ {A : Type 0} where
  pub append-inj_left : (xs ys zs : List A) → xs ++ ys ≡ xs ++ zs → ys ≡ zs
  append-inj_left [] ys zs e = e
  append-inj_left (x ∷ xs) ys zs e = append-inj_left xs ys zs (ground (arith, e))

  pub append-inj_right : (xs ys zs : List A) → xs ++ zs ≡ ys ++ zs → xs ≡ ys
  append-inj_right [] [] zs e = refl
  append-inj_right [] (y ∷ ys) zs e = absurd (omega (arith, ap length e, length-append (y ∷ ys) zs))
  append-inj_right (x ∷ xs) [] zs e = absurd (omega (arith, ap length e, length-append (x ∷ xs) zs))
  append-inj_right (x ∷ xs) (y ∷ ys) zs e =
      ground (arith, append-inj_right xs ys zs (ground (arith, e)), e)

unique_name-inj : (table a b : Text) → unique_name table a ≡ unique_name table b → a ≡ b
unfolding unique_name
unique_name-inj table a b e =
    append-inj_left (table ++ txt "_") a b
      (append-inj_right (table ++ txt "_" ++ a) (table ++ txt "_" ++ b) (txt "_key") e)

unique_name-parts : (table a : Text) → unique_name table a ≡ table ++ (txt "_" ++ (a ++ txt "_key"))
unfolding unique_name
unique_name-parts table a = rw append_assoc (append_assoc table (txt "_") (a ++ txt "_key"))

unique_name-ne_pkey : (table a : Text) → unique_name table a ≡ table ++ txt "_pkey" → ⊥
unique_name-ne_pkey table a e =
    differ a (append-inj_left table _ (txt "_pkey") (sym (unique_name-parts table a) ∙ e))
  where
    differ : (b : Text) → txt "_" ++ (b ++ txt "_key") ≡ txt "_pkey" → ⊥
    differ [] h = ground (arith, h)
    differ (c ∷ cs) h = omega (arith, ap length h, length-append cs (txt "_key"))

-- The constraint of a unique column.
abbrev pub unique_of : Text → Column → Constraint
unfolding constraint_of unique_name
unique_of table c = constraint_of (unique_name table c.name) unique (c.name ∷ [])

-- The constraint of the columns of a primary key.
abbrev pub key_of : Text → List Column → Constraint
unfolding constraint_of primary_key_columns
key_of table cols = constraint_of (table ++ txt "_pkey") primary_key (primary_key_columns cols)

-- A list of constraints as the loop leaves it: each has the name that its columns ask for.
abbrev pub IsNamed : Text → List Column → Constraint → Type 0
IsNamed table cols k = (k ≡ key_of table cols) ⊎ ((c : Column) × (k ≡ unique_of table c))

constraint_exists-In :
    (name : Text) (acc : List Constraint)
    → constraint_exists acc name ≡ true
    → (k : Constraint) × In k acc × (k.name ≡ name)
unfolding constraint_exists
constraint_exists-In name [] h = absurd (ground (arith, h))
constraint_exists-In name (k ∷ acc) h = elim (Bool-cases (text_eq k.name name)) [
  | inl same ↦ (k, here, (text_eq_iff k.name name).0 same)
  | inr other ↦
      let (j, i, e) = constraint_exists-In name acc (ground (arith, h, other)) in (j, there i, e)
]

-- A constraint of the name of a unique column is the constraint of that column.
named_unique :
    (table : Text) (cols : List Column) (acc : List Constraint) (c : Column)
    → All (IsNamed table cols) acc
    → constraint_exists acc (unique_name table c.name) ≡ true
    → In (unique_of table c) acc
unfolding constraint_of unique_name key_of
named_unique table cols acc c h e =
    let (k, i, named) = constraint_exists-In (unique_name table c.name) acc e in
    elim (All-In (IsNamed table cols) acc h i) [
      | inl key ↦ absurd (unique_name-ne_pkey table c.name (sym named ∙ rw key refl))
      | inr (d, own) ↦
          let same : d.name ≡ c.name =
            unique_name-inj table d.name c.name (sym (rw own refl) ∙ named) in
          subst (λ x. In x acc) (own ∙ rw same refl) i
    ]

pub unique_constraints-keeps :
    (table : Text) (acc : List Constraint) (cs : List Column) {k : Constraint}
    → In k acc
    → In k (unique_constraints table acc cs)
unfolding unique_constraints
unique_constraints-keeps table acc [] i = i
unique_constraints-keeps table acc (c ∷ cs) i = elim (Bool-cases (not c.unique || c.primary_key)) [
  | inl skipped ↦ rw (unique_constraints, skipped) (unique_constraints-keeps table acc cs i)
  | inr wanted ↦ elim (Bool-cases (constraint_exists acc (unique_name table c.name))) [
    | inl held ↦ rw (unique_constraints, wanted, held) (unique_constraints-keeps table acc cs i)
    | inr new ↦
        rw (unique_constraints, wanted, new)
          (unique_constraints-keeps table _ cs (In-append_left _ i))
  ]
]

pub unique_constraints-has :
    (table : Text) (cols : List Column) (acc : List Constraint) (cs : List Column) {c : Column}
    → All (IsNamed table cols) acc
    → In c cs
    → (not c.unique || c.primary_key) ≡ false
    → In (unique_of table c) (unique_constraints table acc cs)
unfolding unique_constraints
unique_constraints-has table cols acc [] h i wanted = elim i [ ]
unique_constraints-has table cols acc (c ∷ cs) h here wanted =
    elim (Bool-cases (constraint_exists acc (unique_name table c.name))) [
      | inl held ↦
          rw (unique_constraints, wanted, held)
            (unique_constraints-keeps table acc cs (named_unique table cols acc c h held))
      | inr new ↦
          rw (unique_constraints, wanted, new)
            (unique_constraints-keeps table _ cs (In-append_right acc here))
    ]
unique_constraints-has table cols acc (d ∷ cs) h (there i) wanted =
    elim (Bool-cases (not d.unique || d.primary_key)) [
      | inl skipped ↦
          rw (unique_constraints, skipped) (unique_constraints-has table cols acc cs h i wanted)
      | inr also ↦ elim (Bool-cases (constraint_exists acc (unique_name table d.name))) [
        | inl held ↦
            rw (unique_constraints, also, held)
              (unique_constraints-has table cols acc cs h i wanted)
        | inr new ↦
            rw (unique_constraints, also, new)
              (unique_constraints-has table cols _ cs
                (All-append (IsNamed table cols) acc (unique_of table d ∷ []) h (inr (d, refl), tt))
                i wanted)
      ]
    ]

pub unique_constraints-origin :
    (table : Text) (acc : List Constraint) (cs : List Column) {k : Constraint}
    → In k (unique_constraints table acc cs)
    → In k acc
      ⊎ ((c : Column) × In c cs
          × ((not c.unique || c.primary_key) ≡ false)
          × (k ≡ unique_of table c))
unfolding unique_constraints
unique_constraints-origin table acc [] i = inl i
unique_constraints-origin table acc (c ∷ cs) {k} i =
    elim (Bool-cases (not c.unique || c.primary_key)) [
      | inl skipped ↦ further (
          unique_constraints-origin table acc cs
            (subst (λ l. In k l) (rw (unique_constraints, skipped) refl) i))
      | inr wanted ↦ elim (Bool-cases (constraint_exists acc (unique_name table c.name))) [
        | inl held ↦ further (
            unique_constraints-origin table acc cs
              (subst (λ l. In k l) (rw (unique_constraints, wanted, held) refl) i))
        | inr new ↦
            let more = acc ++ unique_of table c ∷ [] in
            elim (unique_constraints-origin table more cs
              (subst (λ l. In k l) (rw (unique_constraints, wanted, new) refl) i)) [
                | inl j ↦ elim (In-append_split acc j) [
                  | inl old ↦ inl old
                  | inr own ↦ inr (c, here, wanted, In-single own)
                ]
                | inr (d, j, w, e) ↦ inr (d, there j, w, e)
              ]
      ]
    ]
  where
    further :
        In k acc
          ⊎ ((d : Column) × In d cs
              × ((not d.unique || d.primary_key) ≡ false)
              × (k ≡ unique_of table d))
        → In k acc
          ⊎ ((d : Column) × In d (c ∷ cs)
              × ((not d.unique || d.primary_key) ≡ false)
              × (k ≡ unique_of table d))
    further (inl j) = inl j
    further (inr (d, j, w, e)) = inr (d, there j, w, e)
