-- ===== src/Crypt/Decrypt/Header.antt =====
-- `newDecrypter` on an encrypted stream.
use teldrive_fork.Base.{
  subst, sym, ltb, false, Option, some, ℕ, ◌≡◌, ap, ◌∙◌, List, [], ◌++◌, take, drop, length, none,
  arith, take_all, take-append_eq, drop-append_eq, length-append,
}
use teldrive_fork.Base.Int.{negsuc}
use teldrive_fork.Crypt.Size.{file_header_size, file_nonce_size}
use teldrive_fork.Crypt.Nonce.{Nonce}
use teldrive_fork.Crypt.Io.{Error, eof, ok, Source, read_fill, contents}
use teldrive_fork.Crypt.Io.Fill.{Failure, filled, ended, read_fill-Fills}
use teldrive_fork.Crypt.Format.{file_magic}
use teldrive_fork.Crypt.Decrypt.{Decrypter, bytes_equal, from_buf, check_header, new_decrypter}

-- The decrypter that `newDecrypter` makes of a reader behind the header.
abbrev pub started : Source → Nonce → Decrypter
started rc n = record {
  rc = rc;
  nonce = n;
  initial_nonce = n;
  buf = [];
  buf_index = 0;
  failure = none;
  limit = negsuc 0;
  open_range = none;
}

from_buf-ok : (n : Nonce) → length n ≡ file_nonce_size → from_buf n ≡ ok n
unfolding from_buf
from_buf-ok n h = rw (take_all file_nonce_size n (omega arith), h)

check_header-ok :
    (n : Nonce) (rc : Source)
    → length n ≡ file_nonce_size
    → check_header (file_magic ++ n) none rc ≡ ok (started rc n)
unfolding check_header bytes_equal
check_header-ok n rc h = rw (from_buf-ok n h)

-- io.EOF with a whole header is accepted.
check_header-eof :
    (n : Nonce) (rc : Source)
    → length n ≡ file_nonce_size
    → check_header (file_magic ++ n) (some eof) rc ≡ ok (started rc n)
unfolding check_header bytes_equal
check_header-eof n rc h =
    let whole : ltb (length (file_magic ++ n)) file_header_size ≡ false =
      ground (arith, length-append file_magic n) in
    rw (whole, from_buf-ok n h)

-- A stream that begins with the magic and a nonce is accepted, and read to the end of its header.
pub new_decrypter-ok :
    (rc : Source) (n : Nonce) (blocks : List ℕ)
    → contents rc ≡ (file_magic ++ n) ++ blocks
    → length n ≡ file_nonce_size
    → rc.end ≡ eof
    → (rc' : Source) × (new_decrypter rc ≡ ok (started rc' n))
      × (contents rc' ≡ blocks)
      × (rc'.end ≡ rc.end)
unfolding new_decrypter
new_decrypter-ok rc n blocks e h ends =
    let v = read_fill-Fills file_header_size rc in
    let size : length (file_magic ++ n) ≡ file_header_size =
      omega (arith, length-append file_magic n) in
    let bytes =
      v.bytes
      ∙ ap (take file_header_size) e
      ∙ take-append_eq file_header_size (file_magic ++ n) blocks size in
    let rc' = (read_fill file_header_size rc).2 in
    (
      rc',
      ap (λ b. check_header b (read_fill file_header_size rc).1 rc') bytes
          ∙ checked (read_fill file_header_size rc).1 rc' v.failure,
      v.left
          ∙ ap (drop file_header_size) e
          ∙ drop-append_eq file_header_size (file_magic ++ n) blocks size,
      v.same_end,
    )
  where
    checked :
        (x : Option Error) (rc' : Source)
        → Failure file_header_size rc x
        → check_header (file_magic ++ n) x rc' ≡ ok (started rc' n)
    checked _ rc' (filled l) = check_header-ok n rc' h
    checked _ rc' (ended l w) =
        subst (λ y. check_header (file_magic ++ n) (some y) rc' ≡ ok (started rc' n)) (sym ends)
          (check_header-eof n rc' h)
