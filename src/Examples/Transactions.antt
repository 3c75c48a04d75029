-- ===== src/Examples/Transactions.antt =====
-- Transactions, savepoints and batches over a driver that keeps a log.
use dorm.Prelude.{
  ℕ, true, false, none, some, List, [], ◌∷◌, ◌≡◌, ◌==◌, ◌||◌, if◌then◌else◌, refl, arith, Text, txt,
}
use dorm.Value.{pos}
use dorm.Errors.{Kind, Error, ok, err, new, is, context}
use dorm.Orm.Exec.{Exec}
use dorm.Orm.Transaction.{
  run_statement, Handle, Driver, World, is_closed, begin, rollback, transaction, exec_context,
  transaction_closed_error, begin_root, begin_nested, caused, allocate, conclude, abandon,
  ensure_transaction_open, closing, finish, next_savepoint_name,
}
use dorm.Orm.Transaction.Failures.{failed_as, transaction-keeps_error}
use dorm.Orm.Transaction.Closing.{Refused, transaction-closes, transaction-seals}
use dorm.Orm.Batch.{configured_batch_size, run_items, batch_write}
use dorm.Orm.Batch.Chunks.{batch_write-eq_run}

abbrev Log : Type 0
Log = List Text

abbrev say : Text → Exec Log Unit
say t log = (ok tt, t ∷ log)

abbrev logging : Driver Log
logging = record {
  begin_tx = λ log. (ok 1, txt "BEGIN" ∷ log);
  exec_tx = λ tx t. say t;
  commit_tx = λ tx. say (txt "COMMIT");
  rollback_tx = λ tx. say (txt "ROLLBACK");
  exec_pool = say;
  query_tx = λ tx t log. (ok [], t ∷ log);
  query_pool = λ t log. (ok [], t ∷ log);
}

abbrev pool : Handle
pool = record { has_db = true; tx = none; state = none }

abbrev fresh : World Log
fresh = record { driver = []; next = 0; closed = []; seq = 0 }

abbrev root : Handle
root = record { has_db = false; tx = some 1; state = some (record { address = 0; savepoint = [] }) }

abbrev started : World Log
started = record { driver = txt "BEGIN" ∷ []; next = 1; closed = []; seq = 0 }

begin_run : begin logging pool fresh ≡ (ok root, started)
unfolding begin transaction_closed_error begin_root caused allocate
begin_run = refl

-- A nested transaction that fails is rolled back to its savepoint.
abbrev failing : Handle → Exec (World Log) Unit
failing h w = (err (new Kind.conflict []), w)

nested_run :
    (transaction logging root (some failing) started).1.driver
    ≡ txt "ROLLBACK TO SAVEPOINT sp_1" ∷ txt "SAVEPOINT sp_1" ∷ txt "BEGIN" ∷ []
unfolding transaction begin transaction_closed_error begin_nested next_savepoint_name caused
    allocate conclude abandon rollback ensure_transaction_open closing finish
nested_run = refl

transaction_closes_example : is_closed root (transaction logging pool (some failing) fresh).1 ≡ true
unfolding begin transaction_closed_error begin_root caused allocate
transaction_closes_example = transaction-closes logging pool root (some failing) fresh started refl

transaction_seals_example :
    Refused logging root (txt "SELECT 1") (transaction logging pool (some failing) fresh).1
unfolding begin transaction_closed_error begin_root caused allocate
transaction_seals_example =
    transaction-seals logging pool root (some failing) (txt "SELECT 1") fresh started refl

-- Three items in chunks of two; the third is refused.
abbrev item : Handle → ℕ → Exec (World Log) ℕ
item h n w = if n == 7 then (err (new Kind.conflict []), w) else (ok n, w)

abbrev items : List ℕ
items = 5 ∷ 6 ∷ 7 ∷ []

batch_run :
    (batch_write logging (txt "createMany") 2 pool item items fresh).0
    ≡ err (context (txt "createMany[2]") (new Kind.conflict []))
unfolding batch_write transaction begin transaction_closed_error begin_root caused allocate conclude
    abandon rollback ensure_transaction_open closing finish
batch_run = refl

batch_example :
    batch_write logging (txt "createMany") 2 pool item items fresh
    ≡ transaction logging pool (some (λ tx. run_items (txt "createMany") (item tx) 0 items)) fresh
batch_example = batch_write-eq_run logging (txt "createMany") 2 pool item items fresh (omega arith)

default_size_run : configured_batch_size (pos 0) ≡ 100
unfolding configured_batch_size
default_size_run = refl

statement_run :
    exec_context logging (txt "SELECT 1") root started
    ≡ (ok tt, record started { driver = txt "SELECT 1" ∷ txt "BEGIN" ∷ [] })
unfolding exec_context transaction_closed_error run_statement
statement_run = refl

-- The driver's error of the rollback does not hide the callback's.
abbrev lost : Driver Log
lost = record logging { rollback_tx = λ tx log. (err (Error.external (txt "lost")), log) }

lost_run : begin lost pool fresh ≡ (ok root, started)
unfolding begin transaction_closed_error begin_root caused allocate
lost_run = refl

keeps_error_example :
    (r : Error) × ((transaction lost pool (some failing) fresh).0 ≡ err r)
    × ((k : Kind)
        → is r k ≡ (is (new Kind.conflict []) k || failed_as (rollback lost root started).0 k))
keeps_error_example =
    transaction-keeps_error lost pool root failing (new Kind.conflict []) fresh started started
      lost_run refl
