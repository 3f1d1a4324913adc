-- ===== src/Tgc/Deletion.antt =====
-- internal/tgc/helpers.go: `DeleteMessages` behind the look-up of the channel. One goroutine for each
-- batch stores the batch's error in a variable that all of them share, and returns what is in it.
-- The two are steps of their own, in any order among the goroutines.
pub mod Errors
mod Tests
use teldrive_fork.Base.{
  ℕ, ◌+◌, ◌==◌, ◌<◌, ◌≡◌, if◌then◌else◌, List, [], ◌∷◌, length, Option, none, some, Bool,
}
use teldrive_fork.Services.Parts.{batch_count, split_ids}

-- A goroutine before its request, between the two steps, and when it has returned.
pub data Worker : Type 0 where
  pending stored returned : Worker

-- `shared` is the captured `err`, which is nil behind the look-up; `first` the group's first error.
pub record Group : Type 0 where
  pub shared : Option ℕ
  pub workers : ℕ → Worker
  pub first : Option ℕ

abbrev pub set_worker : (ℕ → Worker) → ℕ → Worker → ℕ → Worker
set_worker workers i x j = if i == j then x else workers j

abbrev pub first_error : Option ℕ → Option ℕ → Option ℕ
first_error none e = e
first_error (some f) e = some f

abbrev pub start_group : Group
start_group = record { shared = none; workers = λ i. pending; first = none }

-- `_, err = client.API().ChannelsDeleteMessages(...)`
unfoldable pub store : (List ℕ → Option ℕ) → List ℕ → ℕ → Group → Group
unfolding split_ids
store delete ids i g = record g {
  shared = delete (split_ids ids i);
  workers = set_worker g.workers i stored;
}

-- `return err`, to the group
unfoldable pub give_back : ℕ → Group → Group
give_back i g = record g {
  workers = set_worker g.workers i returned;
  first = first_error g.first g.shared;
}

-- `delete` is the answer to the request for a batch.
module _ (delete : List ℕ → Option ℕ) (ids : List ℕ) where
  pub data Step (g : Group) : Group → Type 0 where
    request :
        (i : ℕ)
        → i < batch_count (length ids)
        → g.workers i ≡ pending
        → Step g (store delete ids i g)
    return : (i : ℕ) → i < batch_count (length ids) → g.workers i ≡ stored → Step g (give_back i g)

  pub data Run : Group → Type 0 where
    started : Run start_group
    stepped : {g h : Group} → Run g → Step g h → Run h

  -- All goroutines have returned, so that `g.Wait` does.
  abbrev pub Finished : Group → Type 0
  Finished g = (i : ℕ) → i < batch_count (length ids) → g.workers i ≡ returned
