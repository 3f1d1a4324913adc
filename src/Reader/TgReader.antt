-- ===== src/Reader/TgReader.antt =====
-- internal/reader/tg_reader.go: the sequential reader of one part, over a source of aligned chunks.
pub mod Invariant
pub mod Stream
use teldrive_fork.Base.{
  ℕ, zero, suc, ◌+◌, ◌-◌, ◌*◌, ◌/◌, ◌%◌, ◌==◌, leb, ltb, if◌then◌else◌, List, [], ◌∷◌, take, drop,
  length, Option, none, some,
}
use teldrive_fork.Crypt.Io.{Error as CipherError}

-- `panic` is a slice or an index out of range or a nil reader, `source` an error of the chunk source,
-- `mismatch` the error for a part that the file does not have. `cipher` is an error of the
-- decrypter. The others are those of the parallel reader: `canceled` and `deadline` are the
-- context's, and `at_chunk` wraps an error with its chunk.
pub data Error : Type 0 where
  eof panic : Error
  source mismatch : ℕ → Error
  invalid_range unexpected_eof deadline timeout canceled abandoned : Error
  at_chunk : ℕ → Error → Error
  cipher : CipherError → Error

pub data Result {ℓ} (A : Type ℓ) : Type ℓ where
  ok : A → Result A
  err : Error → Result A

-- `ChunkSource`: the bytes at an offset, up to a limit, and the chunk size for a range.
pub record ChunkSource : Type 0 where
  pub chunk : ℕ → ℕ → Result (List ℕ)
  pub chunk_size : ℕ → ℕ → ℕ

-- `cur` is the unread part of the buffer; none is left where the buffer is nil or empty. `limit`
-- is only compared with 0, so it may stop there.
pub record TgReader : Type 0 where
  pub cur : List ℕ
  pub offset : ℕ
  pub limit : ℕ
  pub chunk_size : ℕ
  pub left_cut : ℕ
  pub right_cut : ℕ
  pub total_parts : ℕ
  pub current_part : ℕ

-- `newTGReader`, where the range is not empty.
unfoldable pub new_tg_reader : ChunkSource → ℕ → ℕ → TgReader
new_tg_reader src start end =
    let size = src.chunk_size start end in
    let offset = start - start % size in
    record {
      cur = [];
      offset = offset;
      limit = end + 1 - start;
      chunk_size = size;
      left_cut = start - offset;
      right_cut = end % size + 1;
      total_parts = (end - offset + size) / size;
      current_part = 1;
    }

-- `chunk[left:right]`, of a chunk whose capacity is its length.
unfoldable pub slice : ℕ → ℕ → List ℕ → Result (List ℕ)
slice left right chunk =
    if leb left right
    then (if leb right (length chunk) then ok (drop left (take right chunk)) else err panic)
    else err panic

-- The cuts that `next` makes at the first and the last chunk.
unfoldable pub cut : TgReader → List ℕ → Result (List ℕ)
unfolding slice
cut r chunk =
    if r.total_parts == 1
    then slice r.left_cut r.right_cut chunk
    else if r.current_part == 1
    then slice r.left_cut (length chunk) chunk
    else if r.current_part == r.total_parts
    then slice 0 r.right_cut chunk
    else ok chunk

abbrev advance : TgReader → Result (List ℕ) → Result (List ℕ × TgReader)
advance r (err e) = err e
advance r (ok bytes) =
    ok (bytes, record r { current_part = r.current_part + 1; offset = r.offset + r.chunk_size })

abbrev cut_chunk : TgReader → Result (List ℕ) → Result (List ℕ × TgReader)
cut_chunk r (err e) = err e
cut_chunk r (ok chunk) = advance r (cut r chunk)

-- `next`
unfoldable pub next : ChunkSource → TgReader → Result (List ℕ × TgReader)
unfolding cut
next src r =
    if ltb r.total_parts r.current_part
    then err eof
    else cut_chunk r (src.chunk r.offset r.chunk_size)

-- The copy at the end of `Read`.
unfoldable pub copy_out : ℕ → TgReader → List ℕ × Option Error × TgReader
copy_out room r =
    let out = take room r.cur in
    let r' = record r { cur = drop room r.cur; limit = r.limit - length out } in
    (out, if r.limit - length out == 0 then some eof else none, r')

abbrev pub copy_next : ℕ → TgReader → Result (List ℕ × TgReader) → List ℕ × Option Error × TgReader
copy_next room r (err e) = ([], some e, record r { cur = [] })
copy_next room r (ok (bytes, r')) = copy_out room (record r' { cur = bytes })

-- `Read` into a buffer of `room` bytes.
unfoldable pub read : ChunkSource → ℕ → TgReader → List ℕ × Option Error × TgReader
unfolding copy_out next
read src room r =
    if r.limit == 0
    then ([], some eof, r)
    else if length r.cur == 0
    then copy_next room r (next src r)
    else copy_out room r
