-- ===== src/Reader/Linear/Encrypted/Tests.antt =====
-- An encrypted file of two parts, "hello" and "you", over a box whose tag is sixteen zeros.
use teldrive_fork.Base.{
  ℕ, ◌+◌, ◌-◌, ◌==◌, ◌≡◌, refl, if◌then◌else◌, List, [], ◌∷◌, ◌++◌, take, drop, length, replicate,
  concat, chunks, some, true, arith,
}
use teldrive_fork.Crypt.Size.{block_header_size}
use teldrive_fork.Crypt.Nonce.{Nonce}
use teldrive_fork.Crypt.Io.{foreign}
use teldrive_fork.Crypt.Io.{eof as cipher_eof}
use teldrive_fork.Crypt.Format.{Secretbox, encrypted}
use teldrive_fork.Reader.TgReader.{eof, cipher, ok, ChunkSource}
use teldrive_fork.Reader.TgReader.Invariant.{Reads}
use teldrive_fork.Reader.Linear.{Part, LinearReader, new_linear_reader}
use teldrive_fork.Reader.Linear.Stream.{drain}
use teldrive_fork.Reader.Linear.Whole.{Each}
use teldrive_fork.Reader.Linear.Encrypted.{as_error, encrypted_parts}
use teldrive_fork.Reader.Linear.Encrypted.Served.{Sealed, encrypted_reader-drain}

length-tagged : (m : List ℕ) → length (replicate 16 0 ++ m) ≡ block_header_size + length m
length-tagged m = omega arith

abbrev toy_box : Secretbox
toy_box = record {
  seal = λ n m. replicate 16 0 ++ m;
  unseal = λ n c. some (drop 16 c);
  unseal-seal = λ n m. refl;
  length-seal = λ n m. length-tagged m;
}

abbrev nonce_255 : Nonce
nonce_255 = 255 ∷ replicate 23 0

abbrev words : List (List ℕ)
words = (104 ∷ 101 ∷ 108 ∷ 108 ∷ 111 ∷ []) ∷ (121 ∷ 111 ∷ 117 ∷ []) ∷ []

abbrev word : ℕ → List ℕ
word id = if id == 1 then 104 ∷ 101 ∷ 108 ∷ 108 ∷ 111 ∷ [] else 121 ∷ 111 ∷ 117 ∷ []

abbrev source_of : ℕ → ChunkSource
source_of id = record {
  chunk = λ offset limit. ok (take limit (drop offset (encrypted toy_box nonce_255 (word id))));
  chunk_size = λ start end. 8;
}

source_of-Reads : (id : ℕ) → Reads (source_of id) (encrypted toy_box nonce_255 (word id))
source_of-Reads id = record {
  chunk_lem = λ offset limit. refl;
  positive = λ start end. omega arith;
}

abbrev hello_part : Part
hello_part = record { id = 1; size = 55; decrypted_size = 5 }

abbrev you_part : Part
you_part = record { id = 2; size = 53; decrypted_size = 3 }

words-Sealed : Each (Sealed source_of (λ p. toy_box)) (hello_part ∷ (you_part ∷ [])) words
unfolding Each encrypted chunks
words-Sealed = (
  record {
    nonce = nonce_255;
    bytes = omega arith;
    nonce_size = refl;
    reads = source_of-Reads 1;
    sized = refl;
    small = omega arith;
  },
  (
    record {
      nonce = nonce_255;
      bytes = omega arith;
      nonce_size = refl;
      reads = source_of-Reads 2;
      sized = refl;
      small = omega arith;
    },
    tt,
  ),
)

errors_kept : (as_error cipher_eof ≡ eof) × (as_error (foreign 3) ≡ cipher (foreign 3))
errors_kept = (refl, refl)

encrypted_reader-drain_example :
    (r : LinearReader (encrypted_parts source_of (λ p. toy_box))) × (new_linear_reader
        (encrypted_parts source_of (λ p. toy_box))
        true
        (hello_part ∷ (you_part ∷ []))
        1
        6
      ≡ ok r)
    × (drain (encrypted_parts source_of (λ p. toy_box)) 20 4 r
        ≡ (take (6 + 1 - 1) (drop 1 (concat words)), some eof))
encrypted_reader-drain_example =
    encrypted_reader-drain source_of (λ p. toy_box) hello_part (you_part ∷ []) words 20 4 1 6
      words-Sealed (omega arith) (omega arith) (omega arith) (omega arith) (omega arith)
      (omega arith)
