-- ===== src/Crypt/Decrypt.antt =====
-- internal/crypt/cipher.go: the decrypter, an io.ReadSeekCloser that turns an encrypted stream back
-- into the content. The mutex and the buffer pool are left out, as for the encrypter.
pub mod Block
pub mod Stream
pub mod Header
pub mod Seek
pub mod Open
use teldrive_fork.Base.{
  ℕ, ◌+◌, ◌-◌, leb, ltb, ◌==◌, if◌then◌else◌, List, [], ◌∷◌, ◌++◌, take, drop, length, replicate,
  Option, none, some, Bool, true, false, not, ◌&&◌,
}
use teldrive_fork.Base.Int.{ℤ, pos, negsuc, ◌+ℤ◌}
use teldrive_fork.Crypt.Size.{
  block_header_size, block_data_size, block_size, file_header_size, file_magic_size,
  file_nonce_size, calculate_underlying,
}
use teldrive_fork.Crypt.Nonce.{Nonce, increment, add}
use teldrive_fork.Crypt.Io.{
  Error, eof, file_closed, encrypted_file_too_short, encrypted_file_bad_header, encrypted_bad_magic,
  bad_seek, cannot_seek, only_from_start, short_buffer, reopen, Result, ok, err, Source, read_fill,
}
use teldrive_fork.Crypt.Format.{Secretbox, file_magic}

-- `OpenRangeSeek`: opens the encrypted file at an offset, with a limit or (-1) without.
abbrev pub OpenRangeSeek : Type 0
OpenRangeSeek = ℕ → ℤ → Result Source

-- `buf` is the part `buf[:bufSize]` of the block buffer.
pub record Decrypter : Type 0 where
  pub rc : Source
  pub nonce : Nonce
  pub initial_nonce : Nonce
  pub buf : List ℕ
  pub buf_index : ℕ
  pub failure : Option Error
  pub limit : ℤ
  pub open_range : Option OpenRangeSeek

abbrev pub is_eof : Error → Bool
is_eof eof = true
is_eof _ = false

-- `err != nil && err != io.EOF`
abbrev pub is_failure : Option Error → Bool
is_failure none = false
is_failure (some e) = not (is_eof e)

-- bytes.Equal
unfoldable pub bytes_equal : List ℕ → List ℕ → Bool
bytes_equal [] [] = true
bytes_equal [] (y ∷ ys) = false
bytes_equal (x ∷ xs) [] = false
bytes_equal (x ∷ xs) (y ∷ ys) = x == y && bytes_equal xs ys

-- `nonce.fromBuf`
unfoldable pub from_buf : List ℕ → Result Nonce
from_buf buf =
    let n = take file_nonce_size buf in
    if length n == file_nonce_size then ok n else err short_buffer

abbrev fresh : Source → Result Nonce → Result Decrypter
fresh rc (err e) = err e
fresh rc (ok n) = ok (record {
  rc = rc;
  nonce = n;
  initial_nonce = n;
  buf = [];
  buf_index = 0;
  failure = none;
  limit = negsuc 0;
  open_range = none;
})

-- The tests of `newDecrypter` on what `readFill` gave for the header.
unfoldable pub check_header : List ℕ → Option Error → Source → Result Decrypter
unfolding bytes_equal from_buf
check_header bytes (some eof) rc =
    if ltb (length bytes) file_header_size
    then err encrypted_file_too_short
    else if not (bytes_equal (take file_magic_size bytes) file_magic)
    then err encrypted_bad_magic
    else fresh rc (from_buf (drop file_magic_size bytes))
check_header bytes none rc =
    if not (bytes_equal (take file_magic_size bytes) file_magic)
    then err encrypted_bad_magic
    else fresh rc (from_buf (drop file_magic_size bytes))
check_header bytes (some e) rc = err e

-- `newDecrypter`
unfoldable pub new_decrypter : Source → Result Decrypter
unfolding check_header
new_decrypter rc = let (bytes, e, rc') = read_fill file_header_size rc in check_header bytes e rc'

-- `decrypter.finish`
unfoldable pub finish : Error → Decrypter → Error × Decrypter
finish e fh = elim fh.failure [ some old ↦ (old, fh) | none ↦ (e, record fh { failure = some e }) ]

-- `decrypter.unFinish`
unfoldable pub un_finish : Decrypter → Decrypter
un_finish fh = record fh { failure = none; buf = []; buf_index = 0 }

-- `decrypter.Close`; `close_rc` is the outcome of closing the underlying reader.
unfoldable pub close : (Source → Option Error) → Decrypter → Option Error × Decrypter
close close_rc fh = elim fh.failure [
  | some file_closed ↦ (some file_closed, fh)
  | _ ↦ (close_rc fh.rc, record fh { failure = some file_closed })
]

-- How many bytes `Read` may take from the buffer.
unfoldable pub to_copy : ℤ → ℕ → ℕ
to_copy (pos limit) available = if ltb limit available then limit else available
to_copy (negsuc n) available = available

-- The end of `Read`: the copy, and the account of the limit.
unfoldable pub charge : ℤ → List ℕ → Decrypter → List ℕ × Option Error × Decrypter
unfolding finish
charge (negsuc n) out fh = (out, none, fh)
charge (pos limit) out fh =
    let fh' = record fh { limit = pos (limit - length out) } in
    if limit - length out == 0
    then (let (e, fh'') = finish eof fh' in (out, some e, fh''))
    else (out, none, fh')

unfoldable pub copy_out : ℕ → Decrypter → List ℕ × Option Error × Decrypter
unfolding to_copy charge
copy_out room fh =
    let available = length fh.buf - fh.buf_index in
    let out = take room (take (to_copy fh.limit available) (drop fh.buf_index fh.buf)) in
    charge fh.limit out (record fh { buf_index = fh.buf_index + length out })

module _ (box : Secretbox) where
  -- The block that `Open` gave, or zeros where it refused the tag and the stream is not broken.
  unfoldable pub opened :
      List ℕ → Option Error → Option (List ℕ) → Decrypter → Option Error × Decrypter
  opened bytes e (some m) fh = (
    none,
    record fh {
      buf = take (length bytes - block_header_size) m;
      buf_index = 0;
      nonce = increment fh.nonce;
    },
  )
  opened bytes e none fh = if is_failure e then (e, fh) else (
    none,
    record fh {
      buf = replicate (length bytes - block_header_size) 0;
      buf_index = 0;
      nonce = increment fh.nonce;
    },
  )

  -- `fillBuffer` behind its `readFill`.
  unfoldable pub open_block : List ℕ → Option Error → Decrypter → Option Error × Decrypter
  unfolding opened
  open_block bytes e fh =
      if length bytes == 0
      then (e, fh)
      else if leb (length bytes) block_header_size
      then (if is_failure e then e else some encrypted_file_bad_header, fh)
      else opened bytes e (box.unseal fh.nonce bytes) fh

  unfoldable pub fill_buffer : Decrypter → Option Error × Decrypter
  unfolding open_block
  fill_buffer fh =
      let (bytes, e, rc) = read_fill block_size fh.rc in open_block bytes e (record fh { rc = rc })

  abbrev pub finish_read : Error × Decrypter → List ℕ × Option Error × Decrypter
  finish_read (e, fh) = ([], some e, fh)

  abbrev pub read_filled : ℕ → Option Error × Decrypter → List ℕ × Option Error × Decrypter
  read_filled room (some e, fh) = finish_read (finish e fh)
  read_filled room (none, fh) = copy_out room fh

  -- `decrypter.Read` into a buffer of `room` bytes.
  unfoldable pub read : ℕ → Decrypter → List ℕ × Option Error × Decrypter
  unfolding fill_buffer finish copy_out
  read room fh =
      let filled = fill_buffer fh in
      elim fh.failure [
        | some old ↦ ([], some old, fh)
        | none ↦
            if leb (length fh.buf) fh.buf_index then read_filled room filled else copy_out room fh
      ]

  abbrev finish_seek : Error × Decrypter → Result ℕ × Decrypter
  finish_seek (e, fh) = (err e, fh)

  -- `RangeSeek` behind its `fillBuffer`.
  unfoldable pub seek_filled : ℕ → ℕ → ℤ → Option Error × Decrypter → Result ℕ × Decrypter
  unfolding finish
  seek_filled offset discard limit (some e, fh) = finish_seek (finish e fh)
  seek_filled offset discard limit (none, fh) =
      if ltb (length fh.buf) discard
      then finish_seek (finish bad_seek fh)
      else (ok offset, record fh { buf_index = discard; limit = limit })

  -- `RangeSeek` behind its call of `open`.
  unfoldable pub seek_opened : ℕ → ℕ → ℤ → Result Source → Decrypter → Result ℕ × Decrypter
  unfolding finish seek_filled fill_buffer
  seek_opened offset discard limit (err e) fh = finish_seek (finish (reopen e) fh)
  seek_opened offset discard limit (ok rc) fh =
      seek_filled offset discard limit (fill_buffer (record fh { rc = rc }))

  -- `RangeSeek` behind its guards: the nonce of the block, and the reader from that block on.
  unfoldable pub seek_from : OpenRangeSeek → ℕ → ℤ → Decrypter → Result ℕ × Decrypter
  unfolding seek_opened
  seek_from open_range offset limit fh =
      let u = calculate_underlying offset limit in
      seek_opened offset u.discard limit (open_range u.offset u.limit)
        (record fh { nonce = add fh.initial_nonce u.blocks })

  -- `decrypter.RangeSeek`; io.SeekStart is 0.
  unfoldable pub range_seek : ℕ → ℕ → ℤ → Decrypter → Result ℕ × Decrypter
  unfolding finish un_finish seek_from
  range_seek offset whence limit fh = elim fh.open_range [
    | none ↦ finish_seek (finish cannot_seek fh)
    | some open_range ↦
        if not (whence == 0) then finish_seek (finish only_from_start fh) else elim fh.failure [
          | none ↦ seek_from open_range offset limit fh
          | some eof ↦ seek_from open_range offset limit (un_finish fh)
          | some e ↦ (err e, fh)
        ]
  ]

  -- `decrypter.Seek`
  unfoldable pub seek : ℕ → ℕ → Decrypter → Result ℕ × Decrypter
  unfolding range_seek
  seek offset whence fh = range_seek offset whence (negsuc 0) fh

  abbrev pub after_seek : Result ℕ × Decrypter → Result Decrypter
  after_seek (ok offset, fh) = ok fh
  after_seek (err e, fh) = err e

  abbrev pub open_header : Result Source → Result Decrypter
  open_header (ok rc) = new_decrypter rc
  open_header (err e) = err e

  abbrev pub with_range : OpenRangeSeek → ℤ → Result Decrypter → Result Decrypter
  with_range open_range limit (ok fh) =
      ok (record fh { open_range = some open_range; limit = limit })
  with_range open_range limit (err e) = err e

  abbrev pub then_seek : OpenRangeSeek → ℕ → ℤ → Result Decrypter → Result Decrypter
  then_seek open_range offset limit (ok fh) =
      after_seek (range_seek offset 0 limit (record fh { open_range = some open_range }))
  then_seek open_range offset limit (err e) = err e

  -- The two branches for the offset 0, which need no second request.
  abbrev pub open_start : OpenRangeSeek → ℤ → Result Decrypter
  open_start open_range (negsuc n) =
      with_range open_range (negsuc 0) (open_header (open_range 0 (negsuc 0)))
  open_start open_range (pos limit) =
      let u = calculate_underlying 0 (pos limit) in
      with_range open_range (pos limit)
        (open_header (open_range 0 (pos file_header_size +ℤ u.limit)))

  -- `newDecrypterSeek`
  unfoldable pub new_decrypter_seek : OpenRangeSeek → ℕ → ℤ → Result Decrypter
  unfolding new_decrypter range_seek
  new_decrypter_seek open_range offset limit =
      let seeking =
        then_seek open_range offset limit (open_header (open_range 0 (pos file_header_size))) in
      if offset == 0 then open_start open_range limit else seeking
