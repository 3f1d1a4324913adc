-- ===== src/Reader/Linear.antt =====
-- internal/reader/reader.go: the reader of a file's byte range, which opens one part after the other.
-- What reads one part is an interface: a sequential or parallel chunk reader, or a decrypter on one.
pub mod Stream
pub mod Whole
pub mod Plain
pub mod Encrypted
use teldrive_fork.Base.{
  ℕ, zero, suc, ◌+◌, ◌==◌, leb, ltb, if◌then◌else◌, List, [], ◌∷◌, length, get_elem?, Option, none,
  some, Bool, true, false, ◌&&◌,
}
use teldrive_fork.Base.Int.{ℤ, pos, negsuc, ◌-ℤ◌, ltb_ℤ, leb_ℤ}
use teldrive_fork.Reader.Ranges.{Range, calculate_part_byte_ranges}
use teldrive_fork.Reader.TgReader.{Error, eof, panic, mismatch, Result, ok, err}

-- `types.Part`, less the salt, which only the cipher uses.
pub record Part : Type 0 where
  pub id : ℕ
  pub size : ℕ
  pub decrypted_size : ℕ

-- The io.ReadCloser of a part, and what `getPartReader` does behind its guard to open it.
pub record PartReader : Type 1 where
  pub State : Type 0
  pub open_part : Part → Range → Result State
  pub read_part : ℕ → State → List ℕ × Option Error × State
  pub close_part : State → Option Error

abbrev is_eof : Option Error → Bool
is_eof (some eof) = true
is_eof _ = false

module _ (source : PartReader) where
  open source use {State, open_part, read_part, close_part}

  pub record LinearReader : Type 0 where
    pub parts : List Part
    pub ranges : List Range
    pub position : ℕ
    pub reader : Option State
    pub remaining : ℤ

  abbrev pub open_at : Range → Option Part → Result State
  open_at r none = err (mismatch r.part_no)
  open_at r (some part) = open_part part r

  abbrev pub open_range : List Part → Option Range → Result State
  open_range parts none = err panic
  open_range parts (some r) = open_at r (get_elem? parts r.part_no)

  -- `getPartReader`: the guard on the part's number, then the reader of the part.
  unfoldable pub get_part_reader : LinearReader → Result State
  get_part_reader r = open_range r.parts (get_elem? r.ranges r.position)

  abbrev pub with_reader : LinearReader → Result State → Option Error × LinearReader
  with_reader r (err e) = (some e, r)
  with_reader r (ok s) = (none, record r { reader = some s })

  -- `initializeReader`
  unfoldable pub initialize_reader : LinearReader → Option Error × LinearReader
  unfolding get_part_reader
  initialize_reader r = with_reader r (get_part_reader r)

  -- `moveToNextPart`; the error of closing the reader is ignored.
  unfoldable pub move_to_next_part : LinearReader → Option Error × LinearReader
  unfolding initialize_reader
  move_to_next_part r0 =
      let r = record r0 { position = r0.position + 1 } in
      if ltb r.position (length r.ranges) then initialize_reader r else (some eof, r)

  abbrev pub moved : List ℕ → Option Error × LinearReader → List ℕ × Option Error × LinearReader
  moved bytes (some e, r) = (bytes, some e, r)
  moved bytes (none, r) = (bytes, none, r)

  -- `Read` behind the part reader's `Read`.
  unfoldable pub after_read :
      LinearReader → List ℕ × Option Error × State → List ℕ × Option Error × LinearReader
  unfolding move_to_next_part
  after_read r0 (bytes, e, s) =
      let r = record r0 { reader = some s; remaining = r0.remaining -ℤ pos (length bytes) } in
      if is_eof e && ltb_ℤ (pos 0) r.remaining
      then moved bytes (move_to_next_part r)
      else (bytes, e, r)

  abbrev pub read_open : ℕ → LinearReader → Option State → List ℕ × Option Error × LinearReader
  read_open room r none = ([], some panic, r)
  read_open room r (some s) = after_read r (read_part room s)

  -- `Read` into a buffer of `room` bytes.
  unfoldable pub read : ℕ → LinearReader → List ℕ × Option Error × LinearReader
  unfolding after_read
  read room r = if leb_ℤ r.remaining (pos 0) then ([], some eof, r) else read_open room r r.reader

  -- `Close`
  unfoldable pub close : LinearReader → Option Error × LinearReader
  close r = elim r.reader [ none ↦ (none, r) | some s ↦ (close_part s, record r { reader = none }) ]

  abbrev pub ready : Option Error × LinearReader → Result LinearReader
  ready (some e, r) = err e
  ready (none, r) = ok r

  abbrev pub start_with : List Part → ℤ → Option (List Range) → Result LinearReader
  start_with parts remaining none = err panic
  start_with parts remaining (some ranges) = ready (
      initialize_reader (record {
        parts = parts;
        ranges = ranges;
        position = 0;
        reader = none;
        remaining = remaining;
      }))

  -- `NewLinearReader`: the first part's size stands for that of all.
  unfoldable pub new_linear_reader : Bool → List Part → ℕ → ℕ → Result LinearReader
  unfolding initialize_reader
  new_linear_reader encrypted [] start end = err panic
  new_linear_reader encrypted (first ∷ parts) start end =
      let size = if encrypted then first.decrypted_size else first.size in
      start_with (first ∷ parts) (pos (end + 1) -ℤ pos start)
        (calculate_part_byte_ranges start end size)
