-- ===== src/Prelude/Unseen.antt =====
-- Counting what has not been seen, for recursions that enter each of finitely many names once.
use Prim.Native.Nat.{ℕ, ◌<◌, ◌≤◌}
use mathlib.Core.Path.{◌≡◌, ap}
use mathlib.Core.Logic.{inl, inr}
use mathlib.Core.Bool.{Bool, true, false, not}
use mathlib.Core.List.{List, [], ◌∷◌}
use native.Mathlib.Omega.{arith}
use dorm.Prelude.Lists.{any, keep_if, length}
use dorm.Prelude.Tests.{Bool-cases}

module _ {A : Type 0} (eq : A → A → Bool) where
  abbrev pub is_among : List A → A → Bool
  is_among names x = any (λ n. eq n x) names

  -- How many of the names are not among those seen.
  unfoldable pub unseen : List A → List A → ℕ
  unseen names seen = length (keep_if (λ n. not (is_among seen n)) names)

  unseen_le : (names seen : List A) (n : A) → unseen names (n ∷ seen) ≤ unseen names seen
  unfolding unseen
  unseen_le [] seen n = omega arith
  unseen_le (m ∷ names) seen n = ground (arith, unseen_le names seen n)

  -- A name that is seen for the first time makes them fewer.
  pub unseen_lt :
      ((a b : A) → eq a b ≡ true → a ≡ b)
      → ((a : A) → eq a a ≡ true)
      → (names seen : List A) (n : A) → is_among names n ≡ true
      → is_among seen n ≡ false
      → unseen names (n ∷ seen) < unseen names seen
  unfolding unseen
  unseen_lt sound same [] seen n h i = absurd (ground (arith, h))
  unseen_lt sound same (m ∷ names) seen n h i = elim (Bool-cases (eq m n)) [
    | inl e ↦
        let it = sound m n e in
        ground
          (arith, unseen_le names seen n, ap (is_among seen) it, ap (λ x. eq n x) it, same n, i)
    | inr other ↦ ground (arith, unseen_lt sound same names seen n (ground (arith, h, other)) i)
  ]
