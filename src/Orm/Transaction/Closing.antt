-- ===== src/Orm/Transaction/Closing.antt =====
-- A transaction is finished once: what Commit, Rollback and Transaction leave behind.
use dorm.Prelude.{
  ℕ, true, false, Option, none, some, is_some, Option-cases, ◌≡◌, refl, arith, Text, txt,
  Bool-cases, inl, inr,
}
use dorm.Errors.{Kind, Result, Error, ok, err, transaction as transaction_error}
use dorm.Orm.Exec.{Exec, ◌>>◌, raise, continue}
use dorm.Orm.Transaction.{
  TxState, Handle, Driver, World, is_closed, savepoint_of, mark_closed, transaction_closed_error,
  ensure_transaction_open, closing, begin, begin_root, begin_nested, commit, rollback, abandon,
  conclude, transaction, caused, allocate, next_savepoint_name, exec_context, query_context,
}

-- A handle that a transaction opened.
abbrev IsTxHandle : Handle → Type 0
IsTxHandle h = (s : TxState) × (t : ℕ) × (h.state ≡ some s) × (h.tx ≡ some t)

module _ {D : Type 0} where
  is_closed-mark_closed :
      (h : Handle) (w : World D) → IsTxHandle h → is_closed h (mark_closed h w) ≡ true
  unfolding is_closed mark_closed
  is_closed-mark_closed h w (s, t, e, f) = rw e (ground arith)

  ensure_shut :
      (operation : Text) (h : Handle) (w : World D)
      → is_closed h w ≡ true
      → ensure_transaction_open operation h w
        ≡ (err (transaction_error Kind.transaction_closed operation (savepoint_of h)), w)
  unfolding ensure_transaction_open
  ensure_shut operation h w e = rw e

  ensure_open :
      (operation : Text) (h : Handle) (w : World D)
      → IsTxHandle h
      → is_closed h w ≡ false
      → ensure_transaction_open operation h w ≡ (ok tt, w)
  unfolding ensure_transaction_open
  ensure_open operation h w (s, t, e, f) o = rw (o, f)

  closing-closes :
      (h : Handle) (body : Exec (World D) Unit) (w : World D)
      → IsTxHandle h
      → is_closed h (closing h body w).1 ≡ true
  unfolding closing
  closing-closes h body w i = is_closed-mark_closed h (body w).1 i

module _ {D : Type 0} (driver : Driver D) where
  commit-closes :
      (h : Handle) (w : World D) → IsTxHandle h → is_closed h (commit driver h w).1 ≡ true
  unfolding commit
  commit-closes h w i = elim (Bool-cases (is_closed h w)) [
    | inl shut ↦ rw (ensure_shut (txt "commit") h w shut) shut
    | inr o ↦ rw (ensure_open (txt "commit") h w i o) (closing-closes h _ w i)
  ]

  rollback-closes :
      (h : Handle) (w : World D) → IsTxHandle h → is_closed h (rollback driver h w).1 ≡ true
  unfolding rollback
  rollback-closes h w i = elim (Bool-cases (is_closed h w)) [
    | inl shut ↦ rw (ensure_shut (txt "rollback") h w shut) shut
    | inr o ↦ rw (ensure_open (txt "rollback") h w i o) (closing-closes h _ w i)
  ]

  conclude-closes :
      (h : Handle) (r : Result (Unit {0})) (w : World D)
      → IsTxHandle h
      → is_closed h (conclude driver h r w).1 ≡ true
  unfolding conclude abandon
  conclude-closes h (ok u) w i = commit-closes h w i
  conclude-closes h (err e) w i = rollback-closes h w i

  -- What `begin` hands out is a transaction's handle.
  begin_root-IsTxHandle :
      (h tx : Handle) (w w' : World D)
      → begin_root driver h w ≡ (ok tx, w')
      → (is_some tx.state ≡ true) × (is_some tx.tx ≡ true)
  unfolding begin_root caused allocate
  begin_root-IsTxHandle h tx w w' e = ground arith

  begin_nested-IsTxHandle :
      (t : ℕ) (h tx : Handle) (w w' : World D)
      → h.tx ≡ some t
      → begin_nested driver t h w ≡ (ok tx, w')
      → (is_some tx.state ≡ true) × (is_some tx.tx ≡ true)
  unfolding begin_nested caused allocate next_savepoint_name
  begin_nested-IsTxHandle t h tx w w' f e = ground arith

  begin-IsTxHandle :
      (h tx : Handle) (w w' : World D)
      → is_closed h w ≡ false
      → begin driver h w ≡ (ok tx, w')
      → (is_some tx.state ≡ true) × (is_some tx.tx ≡ true)
  unfolding begin transaction_closed_error
  begin-IsTxHandle h tx w w' o e = elim (Option-cases h.tx) [
    | inl root ↦ begin_root-IsTxHandle h tx w w' (rw (o, root) at e)
    | inr (t, nested) ↦ begin_nested-IsTxHandle t h tx w w' nested (rw (o, nested) at e)
  ]

  begin-open :
      (h tx : Handle) (w w' : World D) → begin driver h w ≡ (ok tx, w') → is_closed h w ≡ false
  unfolding begin transaction_closed_error
  begin-open h tx w w' e = ground arith

continue-raise :
    {W : Type 0} (r : Result (Unit {0})) (x : Error) (w : W)
    → (continue r (λ _. raise {A = Unit {0}} x) w).1 ≡ w
continue-raise (ok u) x w = refl
continue-raise (err e) x w = refl

filled : (h : Handle) → is_some h.state ≡ true → is_some h.tx ≡ true → IsTxHandle h
filled h s t = elim (Option-cases h.state) [
  | inl e ↦ cc (rw e at s)
  | inr (state, e) ↦ elim (Option-cases h.tx) [
    | inl f ↦ cc (rw f at t)
    | inr (tx, f) ↦ (state, tx, e, f)
  ]
]

module _ {D : Type 0} (driver : Driver D) where
  begun : (h tx : Handle) (w w' : World D) → begin driver h w ≡ (ok tx, w') → IsTxHandle tx
  begun h tx w w' e =
      let (s, t) = begin-IsTxHandle driver h tx w w' (begin-open driver h tx w w' e) e in
      filled tx s t

  -- The continuation of a callback that is nil.
  nil_callback-closes :
      (tx : Handle) (x : Error) (w : World D)
      → IsTxHandle tx
      → is_closed tx ((rollback driver tx >> raise {A = Unit} x) w).1 ≡ true
  nil_callback-closes tx x w i =
      rw (continue-raise (rollback driver tx w).0 x (rollback driver tx w).1)
        (rollback-closes driver tx w i)

  -- Once a transaction has begun, its handle is closed when `Transaction` returns, whatever the
  -- callback does, and whatever the driver answers to the commit or the rollback.
  pub transaction-closes :
      (h tx : Handle) (fn : Option (Handle → Exec (World D) Unit)) (w w' : World D)
      → begin driver h w ≡ (ok tx, w')
      → is_closed tx (transaction driver h fn w).1 ≡ true
  unfolding transaction
  transaction-closes h tx none w w' e = rw e (nil_callback-closes tx _ w' (begun h tx w w' e))
  transaction-closes h tx (some fn) w w' e =
      rw e (conclude-closes driver tx (fn tx w').0 (fn tx w').1 (begun h tx w w' e))

  -- What every call on a closed handle answers, without asking the driver.
  abbrev pub Refused : Handle → Text → World D → Type 0
  Refused h text w =
      let refused = λ (operation : Text).
        transaction_error Kind.transaction_closed operation (savepoint_of h) in
      (commit driver h w ≡ (err (refused (txt "commit")), w))
      × (rollback driver h w ≡ (err (refused (txt "rollback")), w))
      × (begin driver h w ≡ (err (refused (txt "begin")), w))
      × (exec_context driver text h w ≡ (err (refused (txt "exec")), w))
      × (query_context driver text h w ≡ (err (refused (txt "query")), w))

  closed-refuses :
      (h : Handle) (text : Text) (w : World D) → is_closed h w ≡ true → Refused h text w
  unfolding commit rollback begin exec_context query_context ensure_transaction_open
      transaction_closed_error
  closed-refuses h text w e = (rw e, rw e, rw e, rw e, rw e)

  -- Once a transaction has begun and `Transaction` has returned, whatever the callback did and whatever
  -- the driver answered, its handle is of no more use: Commit, Rollback, Begin, execContext and
  -- queryContext on it return "transaction closed" with the handle's savepoint, and leave the world,
  -- the driver's state included, as it is.
  pub transaction-seals :
      (h tx : Handle) (fn : Option (Handle → Exec (World D) Unit)) (text : Text) (w w' : World D)
      → begin driver h w ≡ (ok tx, w')
      → Refused tx text (transaction driver h fn w).1
  transaction-seals h tx fn text w w' e =
      closed-refuses tx text (transaction driver h fn w).1 (transaction-closes h tx fn w w' e)
