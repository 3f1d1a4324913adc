-- ===== src/Reader/Linear/Encrypted.antt =====
-- internal/reader/reader.go: the parts of an encrypted file, each read by a decrypter over the
-- sequential chunk reader.
pub mod Served
mod Tests
use teldrive_fork.Base.{ℕ, zero, suc, ◌+◌, ◌-◌, min, List, [], ◌∷◌, Option, none, some, true, false}
use teldrive_fork.Base.Int.{ℤ, pos, negsuc}
use teldrive_fork.Crypt.Io.{Error as CipherError, Source}
use teldrive_fork.Crypt.Io.{
  eof as cipher_eof, foreign, ok as cipher_ok, err as cipher_err, Result as CipherResult,
}
use teldrive_fork.Crypt.Format.{Secretbox}
use teldrive_fork.Crypt.Decrypt.{Decrypter, OpenRangeSeek, new_decrypter_seek}
use teldrive_fork.Crypt.Decrypt.{read as decrypter_read, close as decrypter_close}
use teldrive_fork.Reader.Ranges.{Range}
use teldrive_fork.Reader.TgReader.{
  Error, eof, source, cipher, Result, ok, err, ChunkSource, TgReader, new_tg_reader,
}
use teldrive_fork.Reader.TgReader.{read as tg_read}
use teldrive_fork.Reader.Linear.{Part, PartReader}

abbrev pub as_error : CipherError → Error
as_error cipher_eof = eof
as_error e = cipher e

abbrev pub as_failure : Option CipherError → Option Error
as_failure none = none
as_failure (some e) = some (as_error e)

abbrev pub as_result : Secretbox → CipherResult Decrypter → Result (Secretbox × Decrypter)
as_result box (cipher_ok fh) = ok (box, fh)
as_result box (cipher_err e) = err (as_error e)

-- An error of the sequential reader as the decrypter passes it on.
abbrev pub of_error : Error → CipherError
of_error eof = cipher_eof
of_error (cipher e) = e
of_error (source n) = foreign n
of_error e = foreign 0

abbrev pub add_piece : List ℕ → Source → Source
add_piece bytes s = record s { pieces = bytes ∷ s.pieces }

-- The end of what `Read` delivers: the error of the last call, alone or with the last bytes.
abbrev pub last_piece : List ℕ → Error → Source
last_piece [] e = record { pieces = []; end = of_error e; with_last = false }
last_piece (b ∷ bs) e = record { pieces = (b ∷ bs) ∷ []; end = of_error e; with_last = true }

-- All that a sequential reader's `Read` delivers, called for a chunk at a time, on fuel. A call with a
-- smaller buffer leaves the rest of the chunk to the next call, as a source does with a piece.
unfoldable pub read_all : ChunkSource → ℕ → TgReader → Source
unfolding tg_read
read_all src zero r = last_piece [] eof
read_all src (suc fuel) r =
    let (bytes, e, r') = tg_read src r.chunk_size r in
    let rest = read_all src fuel r' in
    elim e [ some x ↦ last_piece bytes x | none ↦ add_piece bytes rest ]

-- A sequential reader as the decrypter sees it. Each call but the last delivers a byte, so the fuel is
-- enough.
unfoldable pub chunk_stream : ChunkSource → ℕ → ℕ → Source
unfolding read_all
chunk_stream src start end = let r = new_tg_reader src start end in read_all src (r.limit + 1) r

-- The callback that `getPartReader` passes to `DecryptDataSeek`, with a concurrency below 2, for a
-- part of `size` bytes. `end` is 0 when the limit is negative.
unfoldable pub open_underlying : ChunkSource → ℕ → OpenRangeSeek
unfolding chunk_stream
open_underlying src size offset (pos limit) =
    cipher_ok (chunk_stream src offset (min (size - 1) (offset + limit - 1)))
open_underlying src size offset (negsuc n) = cipher_ok (chunk_stream src offset 0)

abbrev pub with_box :
    Secretbox
    → List ℕ × Option CipherError × Decrypter
    → List ℕ × Option Error × (Secretbox × Decrypter)
with_box box (bytes, e, fh) = (bytes, as_failure e, (box, fh))

-- `getPartReader` with encryption; `sources` gives the chunk source for a part's id and `boxes` the
-- cipher for the part's salt.
abbrev pub encrypted_parts : (ℕ → ChunkSource) → (Part → Secretbox) → PartReader
encrypted_parts sources boxes = record {
  State = Secretbox × Decrypter;
  open_part = λ p r. as_result (boxes p) (
      new_decrypter_seek (boxes p) (open_underlying (sources p.id) p.size) r.start
        (pos (r.end + 1 - r.start)));
  read_part = λ room s. with_box s.0 (decrypter_read s.0 room s.1);
  close_part = λ s. as_failure (decrypter_close (λ rc. none) s.1).0;
}
