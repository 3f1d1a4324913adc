-- ===== src/Tgc/Deletion/Errors.antt =====
-- internal/tgc/helpers.go: which error `DeleteMessages` reports.
use teldrive_fork.Base.{
  ℕ, zero, suc, ◌≤◌, ◌<◌, ◌≡◌, refl, ap, subst, ◌∙◌, List, length, Option, none, some, arith,
}
use teldrive_fork.Services.Parts.{batch_count, split_ids}
use teldrive_fork.Tgc.Deletion.{
  Worker, pending, stored, returned, Group, first_error, store, give_back, Step, request, return,
  Run, started, stepped, Finished,
}

module _ (delete : List ℕ → Option ℕ) (ids : List ℕ) where
  -- An error of one of the batches.
  abbrev pub OfBatch : ℕ → Type 0
  OfBatch e = (i : ℕ) × (i < batch_count (length ids)) × (delete (split_ids ids i) ≡ some e)

  record Known (g : Group) : Type 0 where
    shared_known : (e : ℕ) → g.shared ≡ some e → OfBatch e
    first_known : (e : ℕ) → g.first ≡ some e → OfBatch e

  first_error-OfBatch :
      (f s : Option ℕ)
      → ((e : ℕ) → f ≡ some e → OfBatch e)
      → ((e : ℕ) → s ≡ some e → OfBatch e)
      → (e : ℕ) → first_error f s ≡ some e
      → OfBatch e
  first_error-OfBatch none s a b e h = b e h
  first_error-OfBatch (some f) s a b e h = a e h

  Step-Known : {g h : Group} → Known g → Step delete ids g h → Known h
  unfolding store give_back
  Step-Known v (request i low p) = record {
    shared_known = λ e x. (i, low, x);
    first_known = v.first_known;
  }
  Step-Known {g} v (return i low p) = record {
    shared_known = v.shared_known;
    first_known = first_error-OfBatch g.first g.shared v.first_known v.shared_known;
  }

  Run-Known : {g : Group} → Run delete ids g → Known g
  Run-Known started = record {
    shared_known = λ e x. absurd (cc x);
    first_known = λ e x. absurd (cc x);
  }
  Run-Known (stepped r st) = Step-Known (Run-Known r) st

  -- With a single batch, what its goroutine does.
  abbrev Single : Worker → Option ℕ → Option ℕ → Type 0
  Single pending shared first = first ≡ none
  Single stored shared first = (shared ≡ delete (split_ids ids 0)) × (first ≡ none)
  Single returned shared first = first ≡ delete (split_ids ids 0)

  Step-Single :
      {g h : Group}
      → batch_count (length ids) ≤ 1
      → Single (g.workers 0) g.shared g.first
      → Step delete ids g h
      → Single (h.workers 0) h.shared h.first
  unfolding store give_back
  Step-Single {g} one v (request zero low p) = (refl, subst (λ w. Single w g.shared g.first) p v)
  Step-Single {g} one v (request (suc i) low p) = absurd (omega arith)
  Step-Single {g} one v (return zero low p) =
      let (s, f) = subst (λ w. Single w g.shared g.first) p v in
      ap (λ t. first_error t g.shared) f ∙ s
  Step-Single {g} one v (return (suc i) low p) = absurd (omega arith)

  Run-Single :
      {g : Group}
      → batch_count (length ids) ≤ 1
      → Run delete ids g
      → Single (g.workers 0) g.shared g.first
  Run-Single one started = refl
  Run-Single one (stepped r st) = Step-Single one (Run-Single one r) st

  -- Whichever order the goroutines of `DeleteMessages` run in, the error that it reports is that of
  -- one of the batches. When there is one batch, because there are 1 to 100 ids, it reports what
  -- Telegram has answered for this batch.
  pub Run-first :
      {g : Group}
      → Run delete ids g
      → Finished delete ids g
      → ((e : ℕ) → g.first ≡ some e → OfBatch e)
        × (batch_count (length ids) ≡ 1 → g.first ≡ delete (split_ids ids 0))
  Run-first {g} r done = (
    (Run-Known r).first_known,
    λ one.
        subst (λ w. Single w g.shared g.first) (done 0 (omega arith)) (Run-Single (omega arith) r),
  )
