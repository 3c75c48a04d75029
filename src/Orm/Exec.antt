-- ===== src/Orm/Exec.antt =====
-- Calls that change a state and may fail: what was done before an error stays done.
use dorm.Prelude.{◌≡◌, refl, ap, arith}
use dorm.Errors.{Result, Error, ok, err}

abbrev pub Exec : Type 0 → Type 0 → Type 0
Exec W A = W → Result A × W

module _ {W A B : Type 0} where
  abbrev pub continue : Result A → (A → Exec W B) → Exec W B
  continue (ok a) f w = f a w
  continue (err e) f w = (err e, w)

  infixl 5 ◌>>=◌ ◌>>◌
  abbrev pub ◌>>=◌ : Exec W A → (A → Exec W B) → Exec W B
  ◌>>=◌ m f w = let (r, w') = m w in continue r f w'

  abbrev pub ◌>>◌ : Exec W A → Exec W B → Exec W B
  m >> k = m >>= λ _. k

module _ {W A : Type 0} where
  abbrev pub lift : Result A → Exec W A
  lift r w = (r, w)

  abbrev pub raise : Error → Exec W A
  raise e w = (err e, w)

  abbrev pub pure : A → Exec W A
  pure a w = (ok a, w)

module _ {W A B : Type 0} where
  -- A continuation that returns a value was given one.
  continue-ok :
      (r : Result A) (f : A → Exec W B) (b : B) (w w' : W)
      → continue r f w ≡ (ok b, w')
      → (a : A) × (r ≡ ok a) × (f a w ≡ (ok b, w'))
  continue-ok (ok a) f b w w' e = (a, refl, e)
  continue-ok (err x) f b w w' e = absurd (ground (arith, ap (λ p. p.0) e))

  pub bind-ok :
      (m : Exec W A) (f : A → Exec W B) (b : B) (w w' : W)
      → (m >>= f) w ≡ (ok b, w')
      → (a : A) × (w1 : W) × (m w ≡ (ok a, w1)) × (f a w1 ≡ (ok b, w'))
  bind-ok m f b w w' e =
      let (a, done, rest) = continue-ok (m w).0 f b (m w).1 w' e in
      (a, (m w).1, ap (λ (r : Result A). (r, (m w).1)) done, rest)
