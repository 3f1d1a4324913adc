-- ===== src/Crypt/Tests.antt =====
-- Concrete runs of the cipher, over a box whose tag is sixteen zeros.
use teldrive_fork.Base.{
  true, false, ℕ, ◌+◌, ◌-◌, ◌*◌, ◌%◌, ◌^◌, ◌≤◌, ◌<◌, ◌≡◌, ◌↔◌, ◌⊎◌, refl, inr, List, [], ◌∷◌, ◌++◌,
  take, drop, length, replicate, none, some, arith, append-nil,
}
use teldrive_fork.Base.Int.{pos, negsuc}
use teldrive_fork.Crypt.Size.{
  ok, encrypted_size, calculate_underlying, blocks_to_read, block_size, decrypted_size,
  file_header_size, block_header_size, block_data_size,
}
use teldrive_fork.Crypt.Size.RoundTrip.{decrypted_size-eq-ok_iff}
use teldrive_fork.Crypt.Size.Cover.{calculate_underlying_covers}
use teldrive_fork.Crypt.Nonce.{Nonce, increment, add}
use teldrive_fork.Crypt.Nonce.Value.{IsBytes, value, add_lem}
use teldrive_fork.Crypt.Nonce.Count.{increments, add-eq-increments}
use teldrive_fork.Crypt.Io.{eof, Result, Source, read_fill}
use teldrive_fork.Crypt.Io.Fill.{Fills, read_fill-Fills}
use teldrive_fork.Crypt.Format.{Secretbox, encrypted}
use teldrive_fork.Crypt.Format.Blocks.{body}
use teldrive_fork.Crypt.Format.Length.{length-encrypted}
use teldrive_fork.Crypt.Encrypt.{start}
use teldrive_fork.Crypt.Encrypt.Stream.{start-drain, drain as encrypt_drain}
use teldrive_fork.Crypt.Decrypt.{Decrypter, OpenRangeSeek, new_decrypter_seek}
use teldrive_fork.Crypt.Decrypt.Stream.{drain as decrypt_drain}
use teldrive_fork.Crypt.Decrypt.Seek.{Serves}
use teldrive_fork.Crypt.Decrypt.Open.{new_decrypter_seek-drain}

length-tagged : (m : List ℕ) → length (replicate 16 0 ++ m) ≡ block_header_size + length m
length-tagged m = omega arith

abbrev toy_box : Secretbox
toy_box = record {
  seal = λ n m. replicate 16 0 ++ m;
  unseal = λ n c. some (drop 16 c);
  unseal-seal = λ n m. refl;
  length-seal = λ n m. length-tagged m;
}

abbrev nonce_255 : Nonce
nonce_255 = 255 ∷ replicate 23 0

abbrev hello : List ℕ
hello = 104 ∷ 101 ∷ 108 ∷ 108 ∷ 111 ∷ []

-- A reader that gives "hello" in two pieces.
abbrev hello_source : Source
hello_source = record {
  pieces = (104 ∷ 101 ∷ []) ∷ (108 ∷ 108 ∷ 111 ∷ []) ∷ [];
  end = eof;
  with_last = true;
}

abbrev hello_file : List ℕ
hello_file = encrypted toy_box nonce_255 hello

abbrev open_hello : OpenRangeSeek
open_hello offset (pos limit) =
    Result.ok
      (record { pieces = take limit (drop offset hello_file) ∷ []; end = eof; with_last = false })
open_hello offset (negsuc m) =
    Result.ok (record { pieces = drop offset hello_file ∷ []; end = eof; with_last = false })

hello-Serves : Serves open_hello hello_file
hello-Serves = record {
  whole = λ offset n. (_, refl, append-nil _, refl);
  slice = λ offset limit. (_, refl, append-nil _, refl);
}

increment_carries : increment nonce_255 ≡ 0 ∷ 1 ∷ replicate 22 0
unfolding increment
increment_carries = refl

sizes : (encrypted_size 65537 ≡ 65603) × (decrypted_size (pos 65603) ≡ ok 65537)
unfolding encrypted_size decrypted_size
sizes = (refl, refl)

new_decrypter_seek-drain_example :
    (fh : Decrypter) × (new_decrypter_seek toy_box open_hello 1 (pos 3) ≡ Result.ok fh)
    × (decrypt_drain toy_box 4 2 fh ≡ (101 ∷ 108 ∷ 108 ∷ [], some eof))
new_decrypter_seek-drain_example =
    new_decrypter_seek-drain toy_box nonce_255 hello (omega arith) (omega arith) open_hello
      hello-Serves 4 2 1 (pos 3) (omega arith) (inr (omega arith)) (omega arith) (omega arith)

hello_size : encrypted_size 5 ≡ 55
unfolding encrypted_size
hello_size = refl

start-drain_example :
    encrypt_drain toy_box 64 20 (start hello_source nonce_255)
    ≡ (encrypted toy_box nonce_255 hello, some eof)
start-drain_example =
    start-drain toy_box 64 20 hello_source nonce_255 (omega arith)
      (omega (arith, length-encrypted toy_box nonce_255 hello refl, hello_size))

-- A decrypter behind its header.
abbrev hello_decrypter : Decrypter
hello_decrypter = record {
  rc = record { pieces = body toy_box nonce_255 hello ∷ []; end = eof; with_last = false };
  nonce = nonce_255;
  initial_nonce = nonce_255;
  buf = [];
  buf_index = 0;
  failure = none;
  limit = pos 4;
  open_range = some open_hello;
}

length-encrypted_example : length (encrypted toy_box nonce_255 hello) ≡ encrypted_size 5
length-encrypted_example = length-encrypted toy_box nonce_255 hello refl

read_fill-Fills_example : Fills 3 hello_source (read_fill 3 hello_source)
read_fill-Fills_example = read_fill-Fills 3 hello_source

add_lem_example :
    IsBytes (add nonce_255 3)
    × (length (add nonce_255 3) ≡ 24)
    × (value (add nonce_255 3) ≡ (value nonce_255 + 3) % 2 ^ 192)
add_lem_example = add_lem nonce_255 3 (omega arith) refl (omega arith)

add-eq-increments_example : add nonce_255 3 ≡ increments 3 nonce_255
add-eq-increments_example = add-eq-increments nonce_255 3 (omega arith) refl (omega arith)

decrypted_size-eq-ok_iff_example :
    (encrypted_size 5 < 2 ^ 63)
    × ((decrypted_size (pos 55) ≡ ok 5) ↔ (pos 55 ≡ pos (encrypted_size 5)))
decrypted_size-eq-ok_iff_example = decrypted_size-eq-ok_iff (pos 55) 5 (omega arith) (omega arith)

calculate_underlying_covers_example :
    let u = calculate_underlying 65540 (pos 70000) in
    let count = blocks_to_read u.discard 70000 in
    (u.blocks * block_data_size + u.discard ≡ 65540)
    × (u.discard < block_data_size)
    × (u.offset ≡ file_header_size + u.blocks * block_size)
    × (u.limit ≡ pos (count * block_size))
    × (65540 + 70000 ≤ (u.blocks + count) * block_data_size)
    × ((count ≡ 1) ⊎ ((u.blocks + count - 1) * block_data_size < 65540 + 70000))
    × (u.offset + count * block_size < 2 ^ 63)
calculate_underlying_covers_example =
    calculate_underlying_covers 65540 70000 (omega arith) (omega arith)
