-- ===== src/Crypt/Format.antt =====
-- internal/crypt/cipher.go: the encrypted stream that the encrypter and the decrypter agree on,
-- over golang.org/x/crypto/nacl/secretbox as a parameter.
pub mod Length
pub mod Blocks
use teldrive_fork.Base.{ℕ, ◌+◌, ◌≡◌, List, [], ◌∷◌, ◌++◌, Option, some, length, chunks, concat}
use teldrive_fork.Crypt.Size.{block_header_size, block_data_size}
use teldrive_fork.Crypt.Nonce.{Nonce, increment}

-- secretbox under a cipher's data key: `Seal` puts a tag in front, and `Open` gives back what was
-- sealed under the same nonce.
pub record Secretbox : Type 0 where
  pub seal : Nonce → List ℕ → List ℕ
  pub unseal : Nonce → List ℕ → Option (List ℕ)
  pub unseal-seal : (n : Nonce) (m : List ℕ) → unseal n (seal n m) ≡ some m
  pub length-seal : (n : Nonce) (m : List ℕ) → length (seal n m) ≡ block_header_size + length m

-- "TELDRIVE\x00\x00"
abbrev pub file_magic : List ℕ
file_magic = b'T' ∷ b'E' ∷ b'L' ∷ b'D' ∷ b'R' ∷ b'I' ∷ b'V' ∷ b'E' ∷ 0 ∷ 0 ∷ []

module _ (box : Secretbox) where
  open box use {seal}

  -- Blocks under one nonce after the other.
  abbrev pub sealed : Nonce → List (List ℕ) → List ℕ
  sealed n [] = []
  sealed n (b ∷ bs) = seal n b ++ sealed (increment n) bs

  -- The encrypted file of a content.
  unfoldable pub encrypted : Nonce → List ℕ → List ℕ
  encrypted n content = file_magic ++ n ++ sealed n (chunks block_data_size content)
