-- ===== src/Tgc/Deletion/Tests.antt =====
-- Runs of `DeleteMessages`.
use teldrive_fork.Base.{
  ℕ, zero, suc, ◌≡◌, refl, List, [], ◌∷◌, length, replicate, Option, some, none, arith, leb,
  if◌then◌else◌,
}
use teldrive_fork.Services.Parts.{batch_count, split_ids}
use teldrive_fork.Tgc.Deletion.{
  Group, returned, store, give_back, Step, request, return, Run, started, stepped, Finished,
}
use teldrive_fork.Tgc.Deletion.Errors.{OfBatch, Run-first}

pub record Reached (delete : List ℕ → Option ℕ) (ids : List ℕ) : Type 0 where
  pub group : Group
  pub run : Run delete ids group

abbrev then_step :
    {delete : List ℕ → Option ℕ} {ids : List ℕ} (x : Reached delete ids) {g : Group}
    → Step delete ids x.group g
    → Reached delete ids
then_step x st = record { group = _; run = stepped x.run st }

abbrev refuse : List ℕ → Option ℕ
refuse batch = some 5

abbrev three : List ℕ
three = 1 ∷ 2 ∷ 3 ∷ []

abbrev one_batch : Reached refuse three
unfolding store give_back batch_count
one_batch =
    let a = then_step (record { group = _; run = started }) (request 0 (omega arith) refl) in
    then_step a (return 0 (omega arith) refl)

one_batch-Finished : Finished refuse three one_batch.group
unfolding batch_count give_back store
one_batch-Finished zero h = refl
one_batch-Finished (suc i) h = absurd (omega arith)

Run-first_example :
    ((e : ℕ) → one_batch.group.first ≡ some e → OfBatch refuse three e)
    × (batch_count (length three) ≡ 1 → one_batch.group.first ≡ refuse (split_ids three 0))
Run-first_example = Run-first refuse three one_batch.run one_batch-Finished

-- The first of two batches, of 100 ids, is refused.
abbrev refuse_whole : List ℕ → Option ℕ
refuse_whole batch = if leb 100 (length batch) then some 5 else none

-- The second goroutine stores its success before the first returns: the error is lost.
abbrev two_batches : Reached refuse_whole (replicate 150 7)
unfolding store give_back batch_count split_ids
two_batches =
    let a = then_step (record { group = _; run = started }) (request 0 (omega arith) refl) in
    let b = then_step a (request 1 (omega arith) refl) in
    let c = then_step b (return 0 (omega arith) refl) in then_step c (return 1 (omega arith) refl)

error_lost :
    (two_batches.group.workers 0 ≡ returned)
    × (two_batches.group.workers 1 ≡ returned)
    × (refuse_whole (split_ids (replicate 150 7) 0) ≡ some 5)
    × (two_batches.group.first ≡ none)
unfolding store give_back batch_count split_ids
error_lost = (refl, refl, refl, refl)
