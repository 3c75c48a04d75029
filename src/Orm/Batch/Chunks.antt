-- ===== src/Orm/Batch/Chunks.antt =====
-- The chunks do not matter to what a batch does.
use dorm.Prelude.{
  ℕ, zero, suc, ◌+◌, ◌≤◌, ◌<◌, List, [], ◌∷◌, ◌++◌, ◌≡◌, refl, sym, ◌∙◌, ap, arith, Text, length,
  take, drop, some, take_full, take-append-drop, length-drop, fun_ext, inl, inr,
}
use dorm.Errors.{Result, ok, err}
use dorm.Orm.Exec.{Exec, continue}
use dorm.Orm.Transaction.{Handle, Driver, World, transaction}
use dorm.Orm.Batch.{batch_size_limit, after_item, run_items, run_chunks, batch_write}

-- A chunk has at least one item, and no more than there are items, if there are any.
batch_size_limit_bounds :
    (batch_size total : ℕ)
    → 0 < total
    → (0 < batch_size_limit batch_size total) × (batch_size_limit batch_size total ≤ total)
unfolding batch_size_limit
batch_size_limit_bounds batch_size total h = ground arith

module _ {W M : Type 0} (operation : Text) (fn : M → Exec W M) where
  abbrev run : ℕ → List M → Exec W Unit
  run = run_items operation fn

  split_item :
      (i : ℕ) (xs ys : List M) (r : Result M) (w : W)
      → run (suc i) (xs ++ ys) w
        ≡ continue (run (suc i) xs w).0 (λ _. run (suc i + length xs) ys) (run (suc i) xs w).1
      → after_item operation fn i r (run (suc i) (xs ++ ys)) w
        ≡ continue
            (after_item operation fn i r (run (suc i) xs) w).0
            (λ _. run (i + suc (length xs)) ys)
            (after_item operation fn i r (run (suc i) xs) w).1
  unfolding after_item
  split_item i xs ys (ok m) w h =
      h ∙ ap (λ j. continue (run (suc i) xs w).0 (λ _. run j ys) (run (suc i) xs w).1) (omega arith)
  split_item i xs ys (err e) w h = refl

  -- A run over a list is a run over its first items and then, if that was fine, over the rest.
  run_items-append :
      (i : ℕ) (xs ys : List M) (w : W)
      → run i (xs ++ ys) w ≡ continue (run i xs w).0 (λ _. run (i + length xs) ys) (run i xs w).1
  unfolding run_items
  run_items-append i [] ys w = ap (λ j. run j ys w) (omega arith)
  run_items-append i (x ∷ xs) ys w =
      split_item i xs ys (fn x w).0 (fn x w).1 (run_items-append (suc i) xs ys (fn x w).1)

  -- Where a later chunk begins.
  run_start :
      (size start : ℕ) (items : List M) (v : W)
      → run (start + size) (drop size items) v
        ≡ run (start + length (take size items)) (drop size items) v
  unfolding run_items
  run_start size start items v = elim (take_full size items) [
    | inl none_left ↦ rw none_left
    | inr full ↦ rw full
  ]

  run_chunks-eq :
      (fuel size start : ℕ) (items : List M) (w : W)
      → 0 < size
      → length items ≤ fuel
      → run_chunks operation fn fuel size start items w ≡ run start items w
  unfolding run_chunks
  run_chunks-eq zero size start [] w p h = unfold run_items in refl
  run_chunks-eq zero size start (m ∷ ms) w p h = absurd (omega arith)
  run_chunks-eq (suc fuel) size start [] w p h = unfold run_items in refl
  run_chunks-eq (suc fuel) size start (m ∷ ms) w p h =
      let items = m ∷ ms in
      let (r, w') = run start (take size items) w in
      ap (λ (f : Unit {0} → Exec W Unit). continue r f w')
        (fun_ext λ _. fun_ext λ v.
          run_chunks-eq fuel size (start + size) (drop size items) v p
            (omega (arith, length-drop size items))
          ∙ run_start size start items v)
      ∙ sym (run_items-append start (take size items) (drop size items) w)
      ∙ ap (λ l. run start l w) (take-append-drop size items)

-- Whatever the configured chunk size, a batch that is not empty is one transaction in which the
-- items are handled one after the other, up to the first that fails, whose index the error names:
-- the chunks do not show.
pub batch_write-eq_run :
    {D M : Type 0} (driver : Driver D) (operation : Text) (batch_size : ℕ) (h : Handle)
    (fn : Handle → M → Exec (World D) M) (items : List M) (w : World D)
    → 0 < length items
    → batch_write driver operation batch_size h fn items w
      ≡ transaction driver h (some (λ tx. run_items operation (fn tx) 0 items)) w
unfolding batch_write
batch_write-eq_run driver operation batch_size h fn [] w n = absurd (omega arith)
batch_write-eq_run driver operation batch_size h fn (m ∷ ms) w n =
    let items = m ∷ ms in
    ap (λ f. transaction driver h (some f) w)
      (fun_ext λ tx. fun_ext λ v.
        run_chunks-eq operation (fn tx) (length items) (batch_size_limit batch_size (length items))
          0 items v (batch_size_limit_bounds batch_size (length items) n).0 (omega arith))
