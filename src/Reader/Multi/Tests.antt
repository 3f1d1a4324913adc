-- ===== src/Reader/Multi/Tests.antt =====
-- Runs of the parallel reader, over a source that serves a file of ten bytes in chunks of three.
use teldrive_fork.Base.{
  ℕ, ◌+◌, ◌-◌, ◌≤◌, ◌<◌, ◌≡◌, ◌≢◌, ◌⊎◌, refl, List, [], ◌∷◌, ◌++◌, take, drop, length, arith,
  Bool-cases, inl, inr, ltb,
}
use teldrive_fork.Reader.TgReader.{ok, eof, canceled, ChunkSource, slice}
use teldrive_fork.Reader.TgReader.Invariant.{Reads}
use teldrive_fork.Reader.Multi.{
  Multi, new_tg_multi_reader, launched, idle, start_system, System, Output, output, copied,
  received, sent, answered, Step, fetch, receive, hand_over, read_wait, send, take_next,
  see_canceled, close, Run, started, stepped,
}
use teldrive_fork.Reader.Multi.Pieces.{MayFail, Reads-MayFail}
use teldrive_fork.Reader.Multi.Order.{Run-prefix}
use teldrive_fork.Reader.Multi.Bounds.{Run-bounded}
use teldrive_fork.Reader.Multi.Progress.{Clean, Served, same, Run-Served, Later-first_error}

abbrev ten : List ℕ
ten = 0 ∷ 1 ∷ 2 ∷ 3 ∷ 4 ∷ 5 ∷ 6 ∷ 7 ∷ 8 ∷ 9 ∷ []

abbrev ten_source : ChunkSource
ten_source = record {
  chunk = λ offset limit. ok (take limit (drop offset ten));
  chunk_size = λ start end. 3;
}

ten-Reads : Reads ten_source ten
ten-Reads = record { chunk_lem = λ offset limit. refl; positive = λ start end. omega arith }

ten-MayFail : MayFail ten_source ten
ten-MayFail = Reads-MayFail ten_source ten ten-Reads

-- The bytes 2 to 7, with two threads and one buffer.
abbrev two_threads : Multi
two_threads = record {
  offset = 0;
  limit = 6;
  chunk_size = 3;
  concurrency = 2;
  left_cut = 2;
  right_cut = 2;
  total_parts = 3;
  buffers = 1;
}

two_threads_made : new_tg_multi_reader ten_source 2 1 2 7 ≡ ok two_threads
unfolding new_tg_multi_reader
two_threads_made = refl

pub record Reached : Type 0 where
  pub out : List ℕ
  pub state : System
  pub run : Run two_threads ten_source out state

abbrev then_step :
    (x : Reached) {o : Output} {t : System} → Step two_threads ten_source x.state o t → Reached
then_step x st = record { out = _; state = _; run = stepped x.run st }

-- A call of `Read` waits with room for four bytes.
abbrev waiting : Reached
unfolding start_system
waiting =
    then_step (record { out = _; state = _; run = started }) (read_wait 4 refl (omega arith) refl)

-- The second chunk arrives before the first, which the call gets.
abbrev first_read : Reached
unfolding start_system received launched slice
first_read =
    let a = then_step waiting (fetch 1 1 _ refl answered) in
    let b = then_step a (fetch 0 0 _ refl answered) in
    let c = then_step b (receive 0 _ refl (omega arith) refl) in
    then_step c (hand_over 0 4 _ refl refl refl)

-- The second chunk waits in the channel while the third arrives; then the call takes it.
abbrev second_read : Reached
unfolding start_system received launched slice sent copied
second_read =
    let a = then_step first_read (receive 1 _ refl (omega arith) refl) in
    let b = then_step a (send 1 _ refl (omega arith)) in
    let c = then_step b (fetch 0 2 _ refl answered) in
    let d = then_step c (read_wait 4 refl (omega arith) refl) in
    then_step d (take_next 4 _ [] refl refl)

-- The third chunk is there before the call that takes it.
abbrev third_waits : Reached
unfolding start_system received launched slice sent copied
third_waits =
    let a = then_step second_read (receive 2 _ refl (omega arith) refl) in
    let b = then_step a (send 2 _ refl (omega arith)) in
    then_step b (read_wait 4 refl (omega arith) refl)

third_bytes : third_waits.out ≡ 2 ∷ 3 ∷ 4 ∷ 5 ∷ []
unfolding start_system received launched slice sent copied output
third_bytes = refl

Run-prefix_example : (later : List ℕ) × (second_read.out ++ later ≡ take (7 + 1 - 2) (drop 2 ten))
Run-prefix_example =
    Run-prefix ten_source ten ten-MayFail 2 1 2 7 two_threads (omega arith) (omega arith)
      (omega arith) two_threads_made second_read.run

Run-bounded_example :
    (length third_waits.state.queue ≤ 1) × ((i : ℕ) → third_waits.state.slots i ≢ idle → i < 2)
Run-bounded_example =
    Run-bounded ten_source ten ten-MayFail 2 1 2 7 two_threads (omega arith) (omega arith)
      (omega arith) two_threads_made third_waits.run

nothing_failed : Clean two_threads ten_source waiting.state
unfolding start_system
nothing_failed i e h = elim (Bool-cases (ltb i 2)) [
  | inl low ↦ cc (rw low at h)
  | inr high ↦ cc (rw high at h)
]

Run-Served_example : Served two_threads ten_source 3 waiting.state
unfolding start_system
Run-Served_example =
    Run-Served ten_source ten ten-Reads 2 1 2 7 two_threads (omega arith) (omega arith)
      (omega arith) two_threads_made 4 waiting.run refl (omega arith) refl nothing_failed

-- A reader that is closed while a call waits.
abbrev closed_reader : Reached
unfolding start_system
closed_reader = then_step waiting close

Later-first_error_example :
    ((canceled ≡ eof) × ([] ≡ take (7 + 1 - 2) (drop 2 ten))) ⊎ (canceled ≡ canceled)
unfolding start_system
Later-first_error_example =
    Later-first_error ten_source ten ten-MayFail 2 1 2 7 two_threads (omega arith) (omega arith)
      (omega arith) two_threads_made {s = closed_reader.state} canceled refl same closed_reader.run
      (see_canceled 4 canceled refl refl)
