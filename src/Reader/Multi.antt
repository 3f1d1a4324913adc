-- ===== src/Reader/Multi.antt =====
-- internal/reader/tg_multi_reader.go: the parallel reader of one part. Goroutines fetch a window of
-- chunks, the goroutine of `fillBuffer` passes them on in order, and the caller of `Read` takes them.
-- The three run interleaved; a step is one action on what they share: a slot's channel, the buffer
-- channel or the context. `launch` shares nothing with others, so it is part of the step before it.
pub mod Pieces
pub mod Invariant
pub mod Bounds
pub mod Order
pub mod Progress
mod Tests
use teldrive_fork.Base.{
  ℕ, zero, suc, ◌+◌, ◌-◌, ◌*◌, ◌/◌, ◌%◌, ◌≤◌, ◌<◌, ◌==◌, ◌≡◌, ◌≢◌, min, ltb, if◌then◌else◌, List,
  [], ◌∷◌, ◌++◌, take, drop, length, Option, none, some, Bool, true, false, ◌||◌, or_else,
}
use teldrive_fork.Reader.TgReader.{
  Error, eof, invalid_range, unexpected_eof, deadline, timeout, canceled, abandoned, at_chunk,
  Result, ok, err, ChunkSource, slice,
}

-- The fields of `tgMultiReader` that never change, less `limit`, of which this is the first value.
-- `buffers` is the capacity of `bufferChan`.
pub record Multi : Type 0 where
  pub offset : ℕ
  pub limit : ℕ
  pub chunk_size : ℕ
  pub concurrency : ℕ
  pub left_cut : ℕ
  pub right_cut : ℕ
  pub total_parts : ℕ
  pub buffers : ℕ

-- `newTGMultiReader`, before it starts `fillBuffer`. The arguments are natural numbers, so of the
-- guard the tests that remain are those for 0 and for an empty range.
unfoldable pub new_tg_multi_reader : ChunkSource → ℕ → ℕ → ℕ → ℕ → Result Multi
new_tg_multi_reader src multi_threads buffers start end =
    let size = src.chunk_size start end in
    let offset = start - start % size in
    if size == 0 || (ltb end start || multi_threads == 0)
    then err invalid_range
    else ok (record {
      offset = offset;
      limit = end + 1 - start;
      chunk_size = size;
      concurrency = multi_threads;
      left_cut = start - offset;
      right_cut = end % size + 1;
      total_parts = (end - offset + size) / size;
      buffers = buffers;
    })

module _ (m : Multi) where
  open m use {chunk_size, left_cut, right_cut, total_parts}

  -- The number of slots.
  abbrev pub window : ℕ
  window = min m.concurrency total_parts

  abbrev pub left_of : ℕ → ℕ
  left_of part = if part == 0 then left_cut else 0

  abbrev pub right_of : ℕ → ℕ
  right_of part = if part == total_parts - 1 then right_cut else chunk_size

  -- The cuts that the goroutine of `launch` makes.
  unfoldable pub cut_part : ℕ → List ℕ → Result (List ℕ)
  cut_part part chunk =
      if ltb (length chunk) (right_of part)
      then err unexpected_eof
      else slice (left_of part) (right_of part) chunk

  abbrev pub cut_answer : ℕ → Result (List ℕ) → Result (List ℕ)
  cut_answer part (err deadline) = err timeout
  cut_answer part (err e) = err e
  cut_answer part (ok chunk) = cut_part part chunk

  abbrev pub at_part : ℕ → Result (List ℕ) → Result (List ℕ)
  at_part part (err e) = err (at_chunk part e)
  at_part part (ok chunk) = ok chunk

  -- What the goroutine of `launch` sends for an answer of `fetchChunkWithTimeout`.
  unfoldable pub launched : ℕ → Result (List ℕ) → Result (List ℕ)
  unfolding cut_part
  launched part answer = at_part part (cut_answer part answer)

-- A slot's channel, with its goroutine: no result to come, one on its way, or one that is there.
pub data Slot : Type 0 where
  idle : Slot
  running : ℕ → Slot
  arrived : Result (List ℕ) → Slot

-- Where `fillBuffer` stands: before the receive for a part, before the send of it, or returned.
pub data Producer : Type 0 where
  receiving : ℕ → Producer
  sending : ℕ → List ℕ → Producer
  stopped : Producer

-- `cause` is that of the context, once it is canceled; `cur` the unread part of the current buffer;
-- `waiting` the size of the buffer of a `Read` that has found `cur` empty. `limit` stops at 0.
pub record System : Type 0 where
  pub slots : ℕ → Slot
  pub producer : Producer
  pub queue : List (List ℕ)
  pub closed : Bool
  pub cause : Option Error
  pub cur : List ℕ
  pub limit : ℕ
  pub waiting : Option ℕ

-- What a step returns to the caller of `Read`, if it does.
pub data Output : Type 0 where
  quiet : Output
  returned : List ℕ → Option Error → Output

abbrev pub set_slot : (ℕ → Slot) → ℕ → Slot → ℕ → Slot
set_slot slots i x j = if i == j then x else slots j

-- `cancel`: the first cause stays.
abbrev pub cancel : Error → System → System
cancel e s = record s { cause = some (or_else s.cause e) }

-- A return from `fillBuffer`, which closes the channel.
abbrev pub stop : System → System
stop s = record s { producer = stopped; closed = true }

-- The end of `Read`: the copy out of the current buffer.
unfoldable pub copied : ℕ → System → System
copied room s = record s {
  cur = drop room s.cur;
  limit = s.limit - length (take room s.cur);
  waiting = none;
}

unfoldable pub output : ℕ → System → Output
output room s =
    returned (take room s.cur) (if s.limit - length (take room s.cur) == 0 then some eof else none)

module _ (m : Multi) where
  -- The state after the loop over `window` that launches the first chunks.
  unfoldable pub start_system : System
  start_system = record {
    slots = λ i. if ltb i (window m) then running i else idle;
    producer = receiving 0;
    queue = [];
    closed = false;
    cause = none;
    cur = [];
    limit = m.limit;
    waiting = none;
  }

  -- Behind the send of a part: its slot is refilled, and the loop goes on.
  unfoldable pub sent : ℕ → System → System
  sent part s = record s {
    slots =
        if ltb (part + window m) m.total_parts
        then set_slot s.slots (part % window m) (running (part + window m))
        else s.slots;
    producer = receiving (part + 1);
  }

  -- The receive of a part's result from its slot.
  unfoldable pub received : ℕ → Result (List ℕ) → System → System
  received part (ok chunk) s = record s {
    slots = set_slot s.slots (part % window m) idle;
    producer = sending part chunk;
  }
  received part (err e) s =
      stop (cancel e (record s { slots = set_slot s.slots (part % window m) idle }))

  -- `fetchChunkWithTimeout` returns the source's answer or the error of its context.
  pub data Answer (src : ChunkSource) (s : System) (part : ℕ) : Result (List ℕ) → Type 0 where
    answered : Answer src s part (src.chunk (m.offset + part * m.chunk_size) m.chunk_size)
    expired : Answer src s part (err deadline)
    dropped : s.cause ≢ none → Answer src s part (err canceled)

  pub data Step (src : ChunkSource) (s : System) : Output → System → Type 0 where
    -- the goroutines of `launch`
    fetch :
        (i part : ℕ) (answer : Result (List ℕ))
        → s.slots i ≡ running part
        → Answer src s part answer
        → Step src s quiet
            (record s { slots = set_slot s.slots i (arrived (launched m part answer)) })
    -- `fillBuffer`
    receive :
        (part : ℕ) (result : Result (List ℕ))
        → s.producer ≡ receiving part
        → part < m.total_parts
        → s.slots (part % window m) ≡ arrived result
        → Step src s quiet (received part result s)
    finish :
        (part : ℕ) → s.producer ≡ receiving part → m.total_parts ≤ part → Step src s quiet (stop s)
    send :
        (part : ℕ) (chunk : List ℕ)
        → s.producer ≡ sending part chunk
        → length s.queue < m.buffers
        → Step src s quiet (sent part (record s { queue = s.queue ++ (chunk ∷ []) }))
    hand_over :
        (part room : ℕ) (chunk : List ℕ)
        → s.producer ≡ sending part chunk
        → s.waiting ≡ some room
        → s.queue ≡ []
        → Step src s
            (output room (record s { cur = chunk }))
            (copied room (sent part (record s { cur = chunk })))
    leave : s.producer ≢ stopped → s.cause ≢ none → Step src s quiet (stop s)
    -- `Read`
    read_done : s.waiting ≡ none → s.limit ≡ 0 → Step src s (returned [] (some eof)) s
    read_current :
        (room : ℕ)
        → s.waiting ≡ none
        → 0 < s.limit
        → 0 < length s.cur
        → Step src s (output room s) (copied room s)
    read_wait :
        (room : ℕ)
        → s.waiting ≡ none
        → 0 < s.limit
        → s.cur ≡ []
        → Step src s quiet (record s { waiting = some room })
    take_next :
        (room : ℕ) (chunk : List ℕ) (queue : List (List ℕ))
        → s.waiting ≡ some room
        → s.queue ≡ chunk ∷ queue
        → Step src s
            (output room (record s { cur = chunk }))
            (copied room (record s { cur = chunk; queue = queue }))
    see_closed :
        (room : ℕ)
        → s.waiting ≡ some room
        → s.queue ≡ []
        → s.closed ≡ true
        → Step src s (returned [] (some (or_else s.cause abandoned))) (record s { waiting = none })
    see_canceled :
        (room : ℕ) (e : Error)
        → s.waiting ≡ some room
        → s.cause ≡ some e
        → Step src s (returned [] (some e)) (record s { waiting = none })
    -- `Close`, and an end of the context that the reader was made with
    close : Step src s quiet (cancel canceled s)
    expire : Step src s quiet (cancel deadline s)

  abbrev pub bytes_of : Output → List ℕ
  bytes_of quiet = []
  bytes_of (returned bytes e) = bytes

  -- The steps from the start to a state, with all the bytes that the calls of `Read` have returned.
  pub data Run (src : ChunkSource) : List ℕ → System → Type 0 where
    started : Run src [] start_system
    stepped :
        {out : List ℕ} {s t : System} {o : Output}
        → Run src out s
        → Step src s o t
        → Run src (out ++ bytes_of o) t
