-- ===== src/Orm/Transaction.antt =====
-- orm/transaction.go: transactions and savepoints on database handles. A handle is what a `*DB`
-- holds of its connection: whether there is a pool, the driver's transaction, and the pointer to
-- its transaction state. The savepoint in that state never changes, so the handle carries it; the
-- flag `closed` is shared by all who hold the pointer, and stands in the world. Tracing, locks and
-- nil receivers are left out, and a panic of the callback is not modelled.
pub mod Closing
pub mod Failures
use dorm.Prelude.{
  ℕ, suc, ◌+◌, ◌%◌, ◌==◌, Bool, true, false, not, ◌&&◌, ◌||◌, Option, none, some, List, [], ◌∷◌,
  ◌++◌, Text, txt, itoa, any, is_nil, is_some, if◌then◌else◌,
}
use dorm.Value.{Any}
use dorm.Errors.{
  Kind, Result, Error, ok, err, new, wrap, join, transaction as transaction_error,
  transaction_caused,
}
use dorm.Orm.Exec.{Exec, ◌>>=◌, ◌>>◌, raise, pure, continue}

-- The pointer to a `transactionState`, and the state's savepoint.
pub record TxState : Type 0 where
  pub address : ℕ
  pub savepoint : Text

pub record Handle : Type 0 where
  pub has_db : Bool
  pub tx : Option ℕ
  pub state : Option TxState

-- The rows of an answer, each as columns with values.
abbrev pub Rows : Type 0
Rows = List (List (Text × Any))

-- What the ORM asks of database/sql, in a state of the driver's own.
pub record Driver (D : Type 0) : Type 0 where
  pub begin_tx : Exec D ℕ
  pub exec_tx : ℕ → Text → Exec D Unit
  pub commit_tx : ℕ → Exec D Unit
  pub rollback_tx : ℕ → Exec D Unit
  pub exec_pool : Text → Exec D Unit
  pub query_tx : ℕ → Text → Exec D Rows
  pub query_pool : Text → Exec D Rows

-- `closed` holds the addresses of the states that are marked closed, `next` the next free address,
-- `seq` the savepoint counter, an unsigned 64-bit integer.
pub record World (D : Type 0) : Type 0 where
  pub driver : D
  pub next : ℕ
  pub closed : List ℕ
  pub seq : ℕ

module _ {D : Type 0} where
  unfoldable pub is_closed : Handle → World D → Bool
  is_closed h w = elim h.state [ none ↦ false | some s ↦ any (λ a. a == s.address) w.closed ]

  -- A driver's call, in the world.
  abbrev on_driver : {A : Type 0} → Exec D A → Exec (World D) A
  on_driver m w = let (r, d) = m w.driver in (r, record w { driver = d })

abbrev pub savepoint_of : Handle → Text
savepoint_of h = elim h.state [ none ↦ [] | some s ↦ s.savepoint ]

abbrev relabel : {A : Type 0} → Kind → Text → Text → Result A → Result A
relabel kind operation savepoint (ok a) = ok a
relabel kind operation savepoint (err e) = err (transaction_caused kind operation savepoint e)

module _ {D : Type 0} where
  -- A driver's error becomes a transaction error with the operation and the savepoint.
  unfoldable pub caused : {A : Type 0} → Kind → Text → Text → Exec D A → Exec (World D) A
  caused kind operation savepoint m w =
      let (r, w') = on_driver m w in (relabel kind operation savepoint r, w')

  unfoldable pub mark_closed : Handle → World D → World D
  mark_closed h w = elim h.state [ none ↦ w | some s ↦ record w { closed = s.address ∷ w.closed } ]

  -- `transactionClosedError`: the guard of every statement.
  unfoldable pub transaction_closed_error : Text → Handle → Exec (World D) Unit
  unfolding is_closed
  transaction_closed_error operation h w =
      if is_closed h w
      then raise (transaction_error Kind.transaction_closed operation (savepoint_of h)) w
      else pure tt w

  unfoldable pub ensure_transaction_open : Text → Handle → Exec (World D) Unit
  unfolding is_closed
  ensure_transaction_open operation h w =
      if is_closed h w
      then raise (transaction_error Kind.transaction_closed operation (savepoint_of h)) w
      else if not (is_some h.tx) && not h.has_db
      then raise (transaction_error Kind.transaction_closed operation []) w
      else pure tt w

  -- A deferred `markTransactionClosed` runs after the body, whatever that returns.
  unfoldable pub closing : Handle → Exec (World D) Unit → Exec (World D) Unit
  unfolding mark_closed
  closing h body w = let (r, w') = body w in (r, mark_closed h w')

  -- A new transaction state.
  unfoldable pub allocate : Text → Exec (World D) TxState
  allocate savepoint w =
      (ok (record { address = w.next; savepoint = savepoint }), record w { next = w.next + 1 })

  -- The counter is unsigned with 64 bits.
  unfoldable pub next_savepoint_name : Exec (World D) Text
  unfolding itoa
  next_savepoint_name w =
      let n = (w.seq + 1) % 0x10000000000000000 in (ok (txt "sp_" ++ itoa n), record w { seq = n })

statement_failed : {A : Type 0} → Text → Result A → Result A
statement_failed message (ok a) = ok a
statement_failed message (err e) = err (wrap Kind.runtime_query message e)

-- A driver's answer to a statement.
reported : {D A : Type 0} → Text → Exec D A → Exec (World D) A
unfolding statement_failed
reported message m w = let (r, w') = on_driver m w in (statement_failed message r, w')

module _ {D : Type 0} (driver : Driver D) where
  open driver use {begin_tx, exec_tx, commit_tx, rollback_tx, exec_pool, query_tx, query_pool}

  unfoldable pub begin_nested : ℕ → Handle → Exec (World D) Handle
  begin_nested tx h = do
    savepoint ← next_savepoint_name
    caused Kind.runtime_query (txt "begin") savepoint (exec_tx tx (txt "SAVEPOINT " ++ savepoint))
    state ← allocate savepoint
    pure (record h { state = some state })

  unfoldable pub begin_root : Handle → Exec (World D) Handle
  begin_root h =
      if h.has_db
      then (do
        tx ← caused Kind.runtime_query (txt "begin") [] begin_tx
        state ← allocate []
        pure (record h { has_db = false; tx = some tx; state = some state }))
      else raise
          (transaction_caused Kind.configuration (txt "begin") [] (Error.external (txt "nil db")))

  unfoldable pub begin : Handle → Exec (World D) Handle
  begin h = do
    transaction_closed_error (txt "begin") h
    elim h.tx [ some tx ↦ begin_nested tx h | none ↦ begin_root h ]

  -- The body of `Commit` and of `Rollback` between the check and the deferred mark. A savepoint
  -- without a driver's transaction is a nil dereference; no handle has that.
  unfoldable pub finish : Kind → Text → Text → (ℕ → Exec D Unit) → Handle → Exec (World D) Unit
  finish kind operation statement close h = elim h.tx [
    | none ↦ raise (transaction_error Kind.transaction_closed operation [])
    | some tx ↦
        if is_nil (savepoint_of h)
        then caused kind operation [] (close tx)
        else caused kind operation (savepoint_of h) (exec_tx tx (statement ++ savepoint_of h))
  ]

  unfoldable pub commit : Handle → Exec (World D) Unit
  commit h = do
    ensure_transaction_open (txt "commit") h
    closing h (finish Kind.commit_failed (txt "commit") (txt "RELEASE SAVEPOINT ") commit_tx h)

  unfoldable pub rollback : Handle → Exec (World D) Unit
  rollback h = do
    ensure_transaction_open (txt "rollback") h
    closing h
        (finish Kind.rollback_failed (txt "rollback") (txt "ROLLBACK TO SAVEPOINT ") rollback_tx h)

  -- After the callback failed: the error of the rollback joins that of the callback.
  unfoldable pub abandon : Handle → Error → Exec (World D) Unit
  abandon tx e w =
      let (r, w') = rollback tx w in (elim r [ ok u ↦ err e | err e2 ↦ err (join e e2) ], w')

  unfoldable pub conclude : Handle → Result (Unit {0}) → Exec (World D) Unit
  conclude tx (err e) = abandon tx e
  conclude tx (ok u) = commit tx

  unfoldable pub transaction : Handle → Option (Handle → Exec (World D) Unit) → Exec (World D) Unit
  transaction h none = do
    tx ← begin h
    rollback tx
    raise (
        transaction_caused Kind.configuration (txt "callback") []
          (Error.external (txt "nil callback")))
  transaction h (some fn) = do tx ← begin h; λ w. let (r, w') = fn tx w in conclude tx r w'

  unfoldable pub run_statement : Text → Handle → Exec (World D) Unit
  unfolding reported
  run_statement text h = elim h.tx [
    | some tx ↦ reported (txt "orm: exec") (exec_tx tx text)
    | none ↦
        if h.has_db
        then reported (txt "orm: exec") (exec_pool text)
        else raise (new Kind.configuration (txt "orm: nil db"))
  ]

  unfoldable pub exec_context : Text → Handle → Exec (World D) Unit
  exec_context text h = do transaction_closed_error (txt "exec") h; run_statement text h

  run_query : Text → Handle → Exec (World D) Rows
  unfolding reported
  run_query text h = elim h.tx [
    | some tx ↦ reported (txt "orm: query") (query_tx tx text)
    | none ↦
        if h.has_db
        then reported (txt "orm: query") (query_pool text)
        else raise (new Kind.configuration (txt "orm: nil db"))
  ]

  -- `queryContext`; a prepared statement is the query itself here.
  unfoldable pub query_context : Text → Handle → Exec (World D) Rows
  unfolding run_query
  query_context text h = do transaction_closed_error (txt "query") h; run_query text h
