-- ===== src/Crypt/Size/RoundTrip.antt =====
-- `EncryptedSize` and `DecryptedSize` against one another, and their bounds.
use teldrive_fork.Base.{ℕ, ◌+◌, ◌*◌, ◌^◌, ◌≤◌, ◌<◌, ◌≡◌, ◌↔◌, ◌/◌, arith}
use teldrive_fork.Base.Int.{ℤ, pos, negsuc}
use teldrive_fork.Crypt.Size.{
  ok, encrypted_size, decrypted_size, file_header_size, block_header_size, block_data_size,
}

decrypted_size-encrypted_size : (n : ℕ) → decrypted_size (pos (encrypted_size n)) ≡ ok n
unfolding decrypted_size encrypted_size
decrypted_size-encrypted_size n = ground arith

of_decrypted_size : (z : ℤ) (n : ℕ) → decrypted_size z ≡ ok n → z ≡ pos (encrypted_size n)
unfolding decrypted_size encrypted_size
of_decrypted_size z n h = ground arith

-- The int64 from which `DecryptedSize` can subtract the header's size without a wrap.
abbrev pub NoWrap : ℤ → Type 0
NoWrap (pos k) = k < 2 ^ 63
NoWrap (negsuc k) = k + file_header_size < 2 ^ 63

-- `EncryptedSize` of a length below 2 ^ 62 fits an int64. Among the int64 from which the header's size
-- can be subtracted without a wrap, `DecryptedSize` answers with such a length exactly for the size
-- that `EncryptedSize` gives of it.
pub decrypted_size-eq-ok_iff :
    (z : ℤ) (n : ℕ)
    → NoWrap z
    → n < 2 ^ 62
    → (encrypted_size n < 2 ^ 63) × ((decrypted_size z ≡ ok n) ↔ (z ≡ pos (encrypted_size n)))
unfolding encrypted_size
decrypted_size-eq-ok_iff z n w h =
    (ground arith, (of_decrypted_size z n, λ e. rw e (decrypted_size-encrypted_size n)))

-- For a length below 2 ^ 62 the encrypted size is at least the length and the header, at most a
-- tag for each block begun above that, and fits an int64; a longer content has a larger size.
pub encrypted_size_bounds :
    (n m : ℕ)
    → n < 2 ^ 62
    → (n + file_header_size ≤ encrypted_size n)
      × (encrypted_size n ≤ n + file_header_size + block_header_size * (n / block_data_size + 1))
      × (encrypted_size n < 2 ^ 63)
      × (m < n → encrypted_size m < encrypted_size n)
unfolding encrypted_size
encrypted_size_bounds n m h = ground arith
