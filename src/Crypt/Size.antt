-- ===== src/Crypt/Size.antt =====
-- internal/crypt/cipher.go: the layout of an encrypted file and the size calculations.
-- A file is a header (magic and nonce), then blocks of at most 64 KiB, each behind a 16-byte tag.
pub mod RoundTrip
pub mod Cover
use teldrive_fork.Base.{ℕ, ◌+◌, ◌-◌, ◌*◌, ◌/◌, ◌%◌, ◌==◌, leb, ltb, if◌then◌else◌}
use teldrive_fork.Base.Int.{ℤ, pos, negsuc, pos_part, ◌-ℤ◌, ltb_ℤ, leb_ℤ}

-- len("TELDRIVE\x00\x00")
abbrev pub file_magic_size : ℕ
file_magic_size = 10

abbrev pub file_nonce_size : ℕ
file_nonce_size = 24

abbrev pub file_header_size : ℕ
file_header_size = file_magic_size + file_nonce_size

-- secretbox.Overhead, the length of a Poly1305 tag.
abbrev pub block_header_size : ℕ
block_header_size = 16

abbrev pub block_data_size : ℕ
block_data_size = 64 * 1024

abbrev pub block_size : ℕ
block_size = block_header_size + block_data_size

pub data SizeError : Type 0 where
  too_short bad_header : SizeError

pub data SizeResult : Type 0 where
  ok : ℕ → SizeResult
  err : SizeError → SizeResult

-- `EncryptedSize` of a length so small that its int64 does not wrap, as below 2 ^ 62.
unfoldable pub encrypted_size : ℕ → ℕ
encrypted_size size =
    let blocks = size / block_data_size in
    let residue = size % block_data_size in
    let whole = file_header_size + blocks * (block_header_size + block_data_size) in
    if residue == 0 then whole else whole + (block_header_size + residue)

-- `DecryptedSize` of an int64 from which the header's size can be subtracted without a wrap. Past the
-- first test the size is not negative.
unfoldable pub decrypted_size : ℤ → SizeResult
decrypted_size size0 =
    let size = size0 -ℤ pos file_header_size in
    if ltb_ℤ size (pos 0)
    then err too_short
    else let blocks = pos_part size / block_size in
      let residue = pos_part size % block_size in
      if residue == 0
      then ok (blocks * block_data_size)
      else if leb residue block_header_size
      then err bad_header
      else ok (blocks * block_data_size + (residue - block_header_size))

-- The four results of `calculateUnderlying`.
pub record Underlying : Type 0 where
  pub offset : ℕ
  pub limit : ℤ
  pub discard : ℕ
  pub blocks : ℕ

-- The number of blocks behind a limit that is not negative. The test is on the signed
-- `bytesToRead := limit - (blockDataSize - discard)`.
unfoldable pub blocks_to_read : ℕ → ℕ → ℕ
blocks_to_read discard limit =
    let bytes_to_read = pos limit -ℤ pos (block_data_size - discard) in
    if ltb_ℤ (pos 0) bytes_to_read
    then (let extra = pos_part bytes_to_read / block_data_size in
        let end_bytes = pos_part bytes_to_read % block_data_size in
        1 + (if end_bytes == 0 then extra else extra + 1))
    else 1

abbrev underlying_limit : ℕ → ℤ → ℤ
underlying_limit discard (pos limit) = pos (blocks_to_read discard limit * block_size)
underlying_limit discard (negsuc n) = negsuc 0

-- `calculateUnderlying`, for an offset and a limit whose sums and products fit an int64, as below 2 ^ 61.
unfoldable pub calculate_underlying : ℕ → ℤ → Underlying
unfolding blocks_to_read
calculate_underlying offset limit =
    let blocks = offset / block_data_size in
    let discard = offset % block_data_size in
    record {
      offset = file_header_size + blocks * (block_header_size + block_data_size);
      limit = underlying_limit discard limit;
      discard = discard;
      blocks = blocks;
    }
