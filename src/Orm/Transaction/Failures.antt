-- ===== src/Orm/Transaction/Failures.antt =====
-- What the caller of a transaction can tell from its error.
use dorm.Prelude.{Bool, false, ◌||◌, some, ◌≡◌, refl, arith, inl, inr}
use dorm.Errors.{Kind, Result, Error, ok, err, is, Result-cases}
use dorm.Orm.Exec.{Exec}
use dorm.Orm.Transaction.{Handle, Driver, World, begin, rollback, abandon, conclude, transaction}

-- Whether a call failed with an error of a kind.
abbrev pub failed_as : {A : Type 0} → Result A → Kind → Bool
failed_as (ok a) k = false
failed_as (err e) k = is e k

module _ {D : Type 0} (driver : Driver D) where
  abandon-keeps :
      (tx : Handle) (e : Error) (w : World D)
      → (r : Error) × ((abandon driver tx e w).0 ≡ err r)
        × ((k : Kind) → is r k ≡ (is e k || failed_as (rollback driver tx w).0 k))
  unfolding abandon is
  abandon-keeps tx e w = elim (Result-cases (rollback driver tx w).0) [
    | inl (u, h) ↦ (e, rw (h, abandon) refl, λ k. rw h (ground arith))
    | inr (x, h) ↦ (Error.join e x, rw (h, abandon) refl, λ k. rw h refl)
  ]

  -- When the callback fails, `Transaction` returns an error that is known by exactly the kinds of the
  -- callback's error and, if the rollback fails too, of the rollback's.
  pub transaction-keeps_error :
      (h tx : Handle) (fn : Handle → Exec (World D) Unit) (e : Error) (w w' w'' : World D)
      → begin driver h w ≡ (ok tx, w')
      → fn tx w' ≡ (err e, w'')
      → (r : Error) × ((transaction driver h (some fn) w).0 ≡ err r)
        × ((k : Kind) → is r k ≡ (is e k || failed_as (rollback driver tx w'').0 k))
  unfolding transaction conclude
  transaction-keeps_error h tx fn e w w' w'' b f =
      let (r, returned, known) = abandon-keeps tx e w'' in (r, rw (b, f) returned, known)
