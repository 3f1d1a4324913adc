-- ===== src/Crypt/Encrypt.antt =====
-- internal/crypt/cipher.go: the encrypter, an io.Reader that turns a content into the encrypted
-- stream. The mutex and the buffer pool are left out: a call is one step, and a buffer that went
-- back to the pool is not read again.
pub mod Stream
use teldrive_fork.Base.{
  ℕ, ◌+◌, leb, if◌then◌else◌, ◌==◌, List, [], ◌∷◌, ◌++◌, take, drop, length, Option, none, some,
}
use teldrive_fork.Crypt.Size.{block_data_size, file_nonce_size}
use teldrive_fork.Crypt.Nonce.{Nonce, increment}
use teldrive_fork.Crypt.Io.{Error, short_nonce, short_nonce_nil, Result, ok, err, Source, read_fill}
use teldrive_fork.Crypt.Format.{Secretbox, file_magic}

-- `buf` is the part `buf[:bufSize]` of the block buffer.
pub record Encrypter : Type 0 where
  pub source : Source
  pub nonce : Nonce
  pub buf : List ℕ
  pub buf_index : ℕ
  pub failure : Option Error

abbrev short_nonce_of : Option Error → Error
short_nonce_of none = short_nonce_nil
short_nonce_of (some e) = short_nonce e

-- `nonce.fromReader`
unfoldable pub from_reader : Source → Result Nonce
from_reader s =
    let (bytes, e, s') = read_fill file_nonce_size s in
    if length bytes == file_nonce_size then ok bytes else err (short_nonce_of e)

unfoldable pub start : Source → Nonce → Encrypter
start source nonce = record {
  source = source;
  nonce = nonce;
  buf = file_magic ++ nonce;
  buf_index = 0;
  failure = none;
}

abbrev start_result : Source → Result Nonce → Result Encrypter
start_result source (ok n) = ok (start source n)
start_result source (err e) = err e

-- `newEncrypter`: the nonce is given, or comes from the cipher's random source.
unfoldable pub new_encrypter : Source → Source → Option Nonce → Result Encrypter
unfolding start from_reader
new_encrypter crypto_rand source (some n) = ok (start source n)
new_encrypter crypto_rand source none = start_result source (from_reader crypto_rand)

-- `encrypter.finish`
unfoldable pub finish : Option Error → Encrypter → List ℕ × Option Error × Encrypter
finish e fh = elim fh.failure [
  | some old ↦ ([], some old, fh)
  | none ↦ ([], e, record fh { failure = e })
]

-- The copy at the end of `Read`.
unfoldable pub copy_out : ℕ → Encrypter → List ℕ × Option Error × Encrypter
copy_out room fh =
    let out = take room (drop fh.buf_index fh.buf) in
    (out, none, record fh { buf_index = fh.buf_index + length out })

module _ (box : Secretbox) where
  -- The branch of `Read` that takes the next block: what `readFill` gave is sealed, or the end
  -- is reached.
  unfoldable pub next_block :
      ℕ → Encrypter → List ℕ → Option Error → List ℕ × Option Error × Encrypter
  unfolding finish copy_out
  next_block room fh [] e = finish e fh
  next_block room fh (b ∷ bs) e =
      copy_out room
        (record fh { buf = box.seal fh.nonce (b ∷ bs); buf_index = 0; nonce = increment fh.nonce })

  -- `encrypter.Read` into a buffer of `room` bytes.
  unfoldable pub read : ℕ → Encrypter → List ℕ × Option Error × Encrypter
  unfolding next_block copy_out
  read room fh =
      let (bytes, e, source) = read_fill block_data_size fh.source in
      elim fh.failure [
        | some old ↦ ([], some old, fh)
        | none ↦
            if leb (length fh.buf) fh.buf_index
            then next_block room (record fh { source = source }) bytes e
            else copy_out room fh
      ]
