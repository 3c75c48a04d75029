-- ===== src/Orm/Batch.antt =====
-- orm/batch.go: CreateMany, UpdateMany and DeleteMany. The items are the models after
-- `normalizeBatchModels`, which reflects on the argument; tracing is left out.
pub mod Chunks
use dorm.Prelude.{
  ℕ, zero, suc, ◌+◌, ◌-◌, ◌==◌, leb, ltb, Bool, true, false, ◌||◌, Option, none, some, List, [],
  ◌∷◌, ◌++◌, Text, txt, itoa, length, is_nil, take, drop, if◌then◌else◌,
}
use dorm.Value.{ℤ, pos, negsuc}
use dorm.Errors.{Result, Error, ok, err, context}
use dorm.Orm.Exec.{Exec, ◌>>=◌, ◌>>◌, pure, continue}
use dorm.Orm.Transaction.{Handle, Driver, World, transaction}

abbrev default_batch_size : ℕ
default_batch_size = 100

-- `New`: a configured size that is not positive gives the default.
unfoldable pub configured_batch_size : ℤ → ℕ
configured_batch_size (pos zero) = default_batch_size
configured_batch_size (pos (suc n)) = suc n
configured_batch_size (negsuc n) = default_batch_size

-- `batchSizeLimit`, for a number of items; the handle's size may be zero if it was not made by
-- `New`.
unfoldable pub batch_size_limit : ℕ → ℕ → ℕ
batch_size_limit batch_size total =
    if batch_size == 0
    then (if total == 0
        then default_batch_size
        else if ltb total default_batch_size
        then total
        else default_batch_size)
    else if total == 0 || ltb batch_size total
    then batch_size
    else total

-- `fmt.Errorf("%s[%d]: %w", operation, i, err)`
item_error : Text → ℕ → Error → Error
unfolding itoa
item_error operation i e = context (operation ++ (txt "[" ++ (itoa i ++ txt "]"))) e

module _ {W M : Type 0} (operation : Text) (fn : M → Exec W M) where
  after_item : ℕ → Result M → Exec W Unit → Exec W Unit
  unfolding item_error
  after_item i (ok m) next w = next w
  after_item i (err e) next w = (err (item_error operation i e), w)

  -- The inner loop, over the items of one chunk; the first one has the index `i`.
  unfoldable pub run_items : ℕ → List M → Exec W Unit
  unfolding after_item
  run_items i [] w = (ok tt, w)
  run_items i (m ∷ ms) w = let (r, w') = fn m w in after_item i r (run_items (suc i) ms) w'

  -- The outer loop, on fuel: a chunk at a time, from the item with index `start`.
  unfoldable pub run_chunks : ℕ → ℕ → ℕ → List M → Exec W Unit
  unfolding run_items
  run_chunks zero size start items w = (ok tt, w)
  run_chunks (suc fuel) size start [] w = (ok tt, w)
  run_chunks (suc fuel) size start (m ∷ ms) w =
      let (r, w') = run_items start (take size (m ∷ ms)) w in
      continue r (λ _ v. run_chunks fuel size (start + size) (drop size (m ∷ ms)) v) w'

-- All items in one transaction, in chunks; one round of fuel for each item is enough.
module _ {D M : Type 0} (driver : Driver D) where
  unfoldable pub batch_write :
      Text → ℕ → Handle → (Handle → M → Exec (World D) M) → List M → Exec (World D) Unit
  unfolding run_chunks batch_size_limit
  batch_write operation batch_size h fn items w =
      if is_nil items
      then (ok tt, w)
      else transaction driver h
          (some (λ tx.
            run_chunks operation (fn tx) (length items) (batch_size_limit batch_size (length items))
              0 items))
          w
