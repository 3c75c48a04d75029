-- ===== src/Seed/Count.antt =====
-- How often a text occurs in a list, and what equal counts say of two lists.
use dorm.Prelude.{
  ℕ, suc, ◌+◌, ◌≤◌, ◌<◌, Bool, List, [], ◌∷◌, ◌++◌, keep_if, length, In, here, there, ◌≡◌, refl,
  arith, Text, text_eq, text_eq_iff, text_eq_refl, Bool-cases, inl, inr, if◌then◌else◌,
}
use dorm.Schema.Keys.{insert_by, sort_by}

unfoldable pub occurs : Text → List Text → ℕ
unfolding text_eq
occurs k [] = 0
occurs k (x ∷ xs) = (if text_eq x k then 1 else 0) + occurs k xs

pub occurs-append : (k : Text) (xs ys : List Text) → occurs k (xs ++ ys) ≡ occurs k xs + occurs k ys
unfolding occurs
occurs-append k [] ys = omega arith
occurs-append k (x ∷ xs) ys = omega (arith, occurs-append k xs ys)

occurs-insert_by :
    (le : Text → Text → Bool) (k x : Text) (xs : List Text)
    → occurs k (insert_by le x xs) ≡ occurs k (x ∷ xs)
unfolding insert_by occurs
occurs-insert_by le k x [] = refl
occurs-insert_by le k x (y ∷ ys) = ground (arith, occurs-insert_by le k x ys)

pub occurs-sort_by :
    (le : Text → Text → Bool) (k : Text) (xs : List Text) → occurs k (sort_by le xs) ≡ occurs k xs
unfolding sort_by occurs
occurs-sort_by le k [] = refl
occurs-sort_by le k (x ∷ xs) =
    omega (arith, occurs-insert_by le k x (sort_by le xs), occurs-sort_by le k xs)

pub occurs-keep_if :
    (p : Text → Bool) (k : Text) (xs : List Text)
    → occurs k (keep_if p xs) ≡ (if p k then occurs k xs else 0)
unfolding occurs
occurs-keep_if p k [] = ground arith
occurs-keep_if p k (x ∷ xs) = elim (Bool-cases (text_eq x k)) [
  | inl same ↦ rw ((text_eq_iff x k).0 same) (ground (arith, occurs-keep_if p k xs))
  | inr other ↦ ground (arith, occurs-keep_if p k xs)
]

pub In-occurs : (k : Text) (xs : List Text) → 0 < occurs k xs → In k xs
unfolding occurs
In-occurs k [] h = absurd (omega arith)
In-occurs k (x ∷ xs) h = elim (Bool-cases (text_eq x k)) [
  | inl same ↦ rw ((text_eq_iff x k).0 same) here
  | inr other ↦ there (In-occurs k xs (ground arith))
]

pub occurs-In : {k : Text} {xs : List Text} → In k xs → 0 < occurs k xs
unfolding occurs
occurs-In {k} (here {xs = xs}) = ground (arith, text_eq_refl k)
occurs-In (there i) = ground (arith, occurs-In i)

remove : Text → List Text → List Text
unfolding text_eq
remove k [] = []
remove k (x ∷ xs) = let rest = remove k xs in if text_eq x k then xs else x ∷ rest

length-remove :
    (k : Text) (xs : List Text) → 0 < occurs k xs → length xs ≡ suc (length (remove k xs))
unfolding occurs remove
length-remove k [] h = absurd (omega arith)
length-remove k (x ∷ xs) h = ground (arith, length-remove k xs)

occurs-remove :
    (j k : Text) (xs : List Text)
    → 0 < occurs k xs
    → occurs j xs ≡ (if text_eq k j then 1 else 0) + occurs j (remove k xs)
unfolding occurs remove
occurs-remove j k [] h = absurd (omega arith)
occurs-remove j k (x ∷ xs) h = elim (Bool-cases (text_eq x k)) [
  | inl same ↦ rw (same, (text_eq_iff x k).0 same) refl
  | inr other ↦ ground (arith, occurs-remove j k xs)
]

-- A list whose elements stand in another one as often or more is not longer.
pub length-le :
    (xs ys : List Text) → ((k : Text) → occurs k xs ≤ occurs k ys) → length xs ≤ length ys
unfolding occurs
length-le [] ys h = omega arith
length-le (x ∷ xs) ys h =
    let stands : 0 < occurs x ys = ground (arith, h x, text_eq_refl x) in
    omega (
      arith,
      length-remove x ys stands,
      length-le xs (remove x ys) (λ k. ground (arith, h k, occurs-remove k x ys stands)),
    )

-- With the same length it has the same elements.
pub occurs-full :
    (xs ys : List Text)
    → ((k : Text) → occurs k xs ≤ occurs k ys)
    → length xs ≡ length ys
    → (k : Text) → occurs k xs ≡ occurs k ys
unfolding occurs
occurs-full [] [] h e k = refl
occurs-full [] (y ∷ ys) h e k = absurd (omega arith)
occurs-full (x ∷ xs) ys h e k =
    let stands : 0 < occurs x ys = ground (arith, h x, text_eq_refl x) in
    omega (
      arith,
      occurs-remove k x ys stands,
      occurs-full xs (remove x ys) (λ j. ground (arith, h j, occurs-remove j x ys stands))
          (omega (arith, length-remove x ys stands)) k,
    )
