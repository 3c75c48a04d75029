-- ===== src/Schema/Keys/Entries.antt =====
-- What sorting and mapping do to the entries of a map, and which keys it has.
use dorm.Prelude.{
  ◌++◌, if◌then◌else◌, true, false, none, some, List, [], ◌∷◌, map, ◌≡◌, refl, ◌∙◌, arith, Text,
  text_eq, text_eq_iff, text_le, In, here, there, Bool-cases, Option-cases, inl, inr,
}
use dorm.Schema.Keys.{entry, insert_by, sort_by, insert_key, sorted_keys}

text_le_refl : (s : Text) → text_le s s ≡ true
unfolding text_le
text_le_refl [] = refl
text_le_refl (a ∷ s) = ground (arith, text_le_refl s)

In-tail : {j l : Text} {ks ls : List Text} → (In j ks → In j ls) → In j (l ∷ ks) → In j (l ∷ ls)
In-tail f here = here
In-tail f (there m) = there (f m)

module _ {A : Type 0} (name : A → Text) where
  -- Two elements in a row with different names may be exchanged.
  entry-swap :
      (k : Text) (x y : A) (ys : List A)
      → text_le (name x) (name y) ≡ false
      → entry name k (y ∷ x ∷ ys) ≡ entry name k (x ∷ y ∷ ys)
  unfolding entry
  entry-swap k x y ys h =
      ground (arith, text_eq_iff (name x) k, text_eq_iff (name y) k, text_le_refl k)

  entry-cons :
      (k : Text) (x : A) (xs ys : List A)
      → entry name k xs ≡ entry name k ys
      → entry name k (x ∷ xs) ≡ entry name k (x ∷ ys)
  unfolding entry
  entry-cons k x xs ys h = rw h

  entry-insert_by :
      (k : Text) (x : A) (ys : List A)
      → entry name k (insert_by (λ a b. text_le (name a) (name b)) x ys) ≡ entry name k (x ∷ ys)
  unfolding insert_by
  entry-insert_by k x [] = refl
  entry-insert_by k x (y ∷ ys) = elim (Bool-cases (text_le (name x) (name y))) [
    | inl first ↦ rw first
    | inr later ↦
        rw later (entry-cons k y _ (x ∷ ys) (entry-insert_by k x ys) ∙ entry-swap k x y ys later)
  ]

  pub entry-sort_by :
      (k : Text) (xs : List A)
      → entry name k (sort_by (λ a b. text_le (name a) (name b)) xs) ≡ entry name k xs
  unfolding sort_by
  entry-sort_by k [] = refl
  entry-sort_by k (x ∷ xs) = entry-insert_by k x _ ∙ entry-cons k x _ xs (entry-sort_by k xs)

  pub entry-map :
      (f : A → A) (k : Text) (xs : List A)
      → ((x : A) → name (f x) ≡ name x)
      → (entry name k xs ≡ none → entry name k (map f xs) ≡ none)
        × ((y : A) → entry name k xs ≡ some y → entry name k (map f xs) ≡ some (f y))
  unfolding entry
  entry-map f k [] h = (λ e. refl, λ y e. cc)
  entry-map f k (x ∷ xs) h =
      let (absent, present) = entry-map f k xs h in
      elim (Option-cases (entry name k xs)) [
        | inl e ↦
            (rw (e, absent e, h x) (λ z. ground arith), rw (e, absent e, h x) (λ y z. ground arith))
        | inr (w, e) ↦ (rw e (λ z. cc), rw (e, present w e) (λ y z. ground arith))
      ]

  In-insert_key : (k : Text) (ks : List Text) → In k (insert_key k ks)
  unfolding insert_key
  In-insert_key k [] = here
  In-insert_key k (j ∷ js) = elim (Bool-cases (text_eq k j)) [
    | inl same ↦ rw (same, (text_eq_iff k j).0 same) here
    | inr other ↦ elim (Bool-cases (text_le k j)) [
      | inl first ↦ rw (other, first) here
      | inr later ↦ rw (other, later) (there (In-insert_key k js))
    ]
  ]

  In-insert_key_old : (k j : Text) (ks : List Text) → In j ks → In j (insert_key k ks)
  unfolding insert_key
  In-insert_key_old k j [] i = elim i [ ]
  In-insert_key_old k j (l ∷ ls) i = elim (Bool-cases (text_eq k l)) [
    | inl same ↦ rw same i
    | inr other ↦ elim (Bool-cases (text_le k l)) [
      | inl first ↦ rw (other, first) (there i)
      | inr later ↦ rw (other, later) (In-tail (λ m. In-insert_key_old k j ls m) i)
    ]
  ]

  -- Every key of the map is among its keys.
  pub In-sorted_keys :
      (k : Text) (x : A) (xs : List A) → entry name k xs ≡ some x → In k (sorted_keys name xs)
  unfolding entry sorted_keys
  In-sorted_keys k x [] h = cc
  In-sorted_keys k x (y ∷ ys) h = elim (Option-cases (entry name k ys)) [
    | inr (w, e) ↦ In-insert_key_old (name y) k _ (In-sorted_keys k w ys e)
    | inl e ↦ elim (Bool-cases (text_eq (name y) k)) [
      | inl same ↦ rw ((text_eq_iff (name y) k).0 same) (In-insert_key k _)
      | inr other ↦ cc (rw (e, other) at h)
    ]
  ]

-- What is written last under a key counts.
pub entry-append_one :
    {A : Type 0} (name : A → Text) (k : Text) (xs : List A) (x : A)
    → entry name k (xs ++ x ∷ []) ≡ (if text_eq (name x) k then some x else entry name k xs)
unfolding entry
entry-append_one name k [] x = refl
entry-append_one name k (y ∷ xs) x = elim (Bool-cases (text_eq (name x) k)) [
  | inl e ↦ rw (entry-append_one name k xs x, e) refl
  | inr e ↦ rw (entry-append_one name k xs x, e) refl
]
