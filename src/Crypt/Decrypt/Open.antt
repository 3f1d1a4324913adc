-- ===== src/Crypt/Decrypt/Open.antt =====
-- `newDecrypterSeek`: the three ways to open an encrypted file all give the range that is wanted.
use teldrive_fork.Base.{
  ℕ, zero, suc, ◌+◌, ◌*◌, ◌^◌, ◌<◌, ◌≡◌, refl, sym, ap, ◌∙◌, ◌⊎◌, inl, inr, ◌==◌, List, [], ◌++◌,
  take, drop, length, some, arith, false, min, length-append, append-nil, take-take,
  take-append_right, take-append_eq,
}
use teldrive_fork.Base.Int.{ℤ, pos, negsuc, ◌+ℤ◌}
use teldrive_fork.Crypt.Size.{
  block_data_size, block_size, file_header_size, calculate_underlying, blocks_to_read,
}
use teldrive_fork.Crypt.Size.Cover.{blocks_to_read_lem}
use teldrive_fork.Crypt.Nonce.{Nonce}
use teldrive_fork.Crypt.Nonce.Value.{IsBytes}
use teldrive_fork.Crypt.Io.{eof, Result, ok}
use teldrive_fork.Crypt.Format.{Secretbox, encrypted, file_magic}
use teldrive_fork.Crypt.Format.Blocks.{body, take-body}
use teldrive_fork.Crypt.Decrypt.{
  Decrypter, OpenRangeSeek, new_decrypter, new_decrypter_seek, open_start, open_header, with_range,
  then_seek, after_seek,
}
use teldrive_fork.Crypt.Decrypt.Block.{Decrypts}
use teldrive_fork.Crypt.Decrypt.Stream.{clip, pending, drain, drain_lem}
use teldrive_fork.Crypt.Decrypt.Header.{new_decrypter-ok}
use teldrive_fork.Crypt.Decrypt.Seek.{Serves, ServesFor, Serves-ServesFor, opened, range_seek-ok}

+ℤ_pos : (a b : ℕ) → pos a +ℤ pos b ≡ pos (a + b)
+ℤ_pos a b = ground arith

-- `calculateUnderlying` at the offset 0.
start_limit :
    (limit : ℕ)
    → pos file_header_size +ℤ (calculate_underlying 0 (pos limit)).limit
      ≡ pos (file_header_size + blocks_to_read 0 limit * block_size)
unfolding calculate_underlying
start_limit limit = +ℤ_pos file_header_size (blocks_to_read 0 limit * block_size)

module _ (box : Secretbox) (n : Nonce) (content : List ℕ) (bytes : IsBytes n) (size : length n ≡ 24)
    (open_range : OpenRangeSeek) where
  -- What a successful opening has to give.
  abbrev pub Opens : ℕ → ℤ → Result Decrypter → Type 0
  Opens offset limit r =
      (fh : Decrypter) × (rest : List ℕ) × (r ≡ ok fh)
      × Decrypts box fh rest
      × (pending fh rest ≡ clip limit (drop offset content))

  header : 0 < length (encrypted box n content)
  unfolding encrypted
  header = omega arith

  start-Opens :
      (limit : ℤ)
      → ServesFor open_range (encrypted box n content) limit
      → Opens 0 limit (open_start box open_range limit)
  unfolding encrypted new_decrypter
  start-Opens (negsuc m) serves =
      let (s, e, c, x) = serves.whole m 0 refl in
      let (rc, made, left, ended) = new_decrypter-ok s n (body box n content) c size x in
      (
        record (opened open_range n rc) { limit = negsuc 0 },
        content,
        ap (λ r. with_range box open_range (negsuc 0) (open_header box r)) e
            ∙ ap (with_range box open_range (negsuc 0)) made,
        record { blocks = left; rc_end = ended ∙ x; alive = refl },
        refl,
      )
  start-Opens (pos limit) serves =
      let count = blocks_to_read 0 limit in
      let (s, e, c, x) =
        serves.slice 0 (file_header_size + count * block_size) (omega arith) header in
      let enough = (blocks_to_read_lem 0 limit (omega arith)).0 in
      let cut =
        take-append_right file_header_size (count * block_size) (file_magic ++ n)
          (body box n content) (omega (arith, length-append file_magic n))
        ∙ ap (λ t. (file_magic ++ n) ++ t) (take-body box count n content) in
      let part = take (count * block_data_size) content in
      let (rc, made, left, ended) = new_decrypter-ok s n (body box n part) (c ∙ cut) size x in
      (
        record (opened open_range n rc) { limit = pos limit },
        part,
        ap (λ l. with_range box open_range (pos limit) (open_header box (open_range 0 l)))
              (start_limit limit)
            ∙ ap (λ r. with_range box open_range (pos limit) (open_header box r)) e
            ∙ ap (with_range box open_range (pos limit)) made,
        record { blocks = left; rc_end = ended ∙ x; alive = refl },
        take-take limit (count * block_data_size) content
            ∙ ap (λ t. take t content)
                (let m : min limit (count * block_data_size) ≡ limit = omega arith in m),
      )

  -- At another offset the header is read alone, and then the blocks that the range needs.
  seek-Opens :
      (offset : ℕ) (limit : ℤ)
      → ServesFor open_range (encrypted box n content) limit
      → offset < length content
      → offset < 2 ^ 63
      → Opens offset limit (
          then_seek box open_range offset limit
            (open_header box (open_range 0 (pos file_header_size))))
  unfolding encrypted new_decrypter
  seek-Opens offset limit serves h b =
      let (s, e, c, x) = serves.slice 0 file_header_size (omega arith) header in
      let cut =
        take-append_eq file_header_size (file_magic ++ n) (body box n content)
          (omega (arith, length-append file_magic n))
        ∙ sym (append-nil (file_magic ++ n)) in
      let (rc, made, left, ended) = new_decrypter-ok s n [] (c ∙ cut) size x in
      let (fh, rest, sought, d, p) =
        range_seek-ok box n content bytes size open_range offset limit rc serves h b in
      (
        fh,
        rest,
        ap (λ r. then_seek box open_range offset limit (open_header box r)) e
            ∙ ap (then_seek box open_range offset limit) made
            ∙ ap (after_seek box) sought,
        d,
        p,
      )

  pub new_decrypter_seek-Opens :
      (offset : ℕ) (limit : ℤ)
      → ServesFor open_range (encrypted box n content) limit
      → (offset ≡ 0) ⊎ (offset < length content)
      → offset < 2 ^ 63
      → Opens offset limit (new_decrypter_seek box open_range offset limit)
  unfolding new_decrypter_seek
  new_decrypter_seek-Opens zero limit serves h b = start-Opens limit serves
  new_decrypter_seek-Opens (suc o) limit serves (inl e) b = absurd (omega arith)
  new_decrypter_seek-Opens (suc o) limit serves (inr h) b =
      let other : (suc o == 0) ≡ false = ground arith in
      rw other (seek-Opens (suc o) limit serves h b)

module _ (box : Secretbox) (n : Nonce) (content : List ℕ) (bytes : IsBytes n) (size : length n ≡ 24)
    (open_range : OpenRangeSeek) (serves : Serves open_range (encrypted box n content)) where
  -- Opening the encrypted file of a content at offset 0, or at an offset inside the content, gives
  -- a decrypter that delivers, read in any portions, exactly the bytes from the offset on, as many
  -- as the limit allows (a negative limit allows all), and then io.EOF.
  pub new_decrypter_seek-drain :
      (f room offset : ℕ) (limit : ℤ)
      → 0 < room
      → (offset ≡ 0) ⊎ (offset < length content)
      → offset < 2 ^ 63
      → length (clip limit (drop offset content)) < f
      → (fh : Decrypter) × (new_decrypter_seek box open_range offset limit ≡ ok fh)
        × (drain box f room fh ≡ (clip limit (drop offset content), some eof))
  new_decrypter_seek-drain f room offset limit p h b fuel =
      let (fh, rest, made, d, pend) =
        new_decrypter_seek-Opens box n content bytes size open_range offset limit
          (Serves-ServesFor open_range (encrypted box n content) limit serves) h b in
      (
        fh,
        made,
        drain_lem box f room fh rest p d (omega (arith, ap length pend))
            ∙ ap (λ t. (t, some eof)) pend,
      )
