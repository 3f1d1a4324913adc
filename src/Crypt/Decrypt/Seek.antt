-- ===== src/Crypt/Decrypt/Seek.antt =====
-- Opening an encrypted file at an offset gives the content from there on.
use teldrive_fork.Base.{
  ℕ, ◌+◌, ◌-◌, ◌*◌, ◌/◌, ◌%◌, ◌^◌, ◌≤◌, ◌<◌, ◌≡◌, ◌≢◌, refl, sym, ap, ◌∙◌, ltb, List, [], ◌++◌,
  take, drop, length, none, some, arith, false, min, length-take, length-drop, length-append,
  drop-append_left, take-append-drop, take-take, drop-take, drop-drop, drop-append_right,
  le→not-ltb,
}
use teldrive_fork.Base.Int.{ℤ, pos, negsuc}
use teldrive_fork.Crypt.Size.{
  block_data_size, block_size, file_header_size, calculate_underlying, blocks_to_read,
}
use teldrive_fork.Crypt.Size.Cover.{blocks_to_read_lem}
use teldrive_fork.Crypt.Nonce.{Nonce, add}
use teldrive_fork.Crypt.Nonce.Value.{IsBytes}
use teldrive_fork.Crypt.Nonce.Count.{increments, add-eq-increments}
use teldrive_fork.Crypt.Io.{eof, ok, Source, contents}
use teldrive_fork.Crypt.Format.{Secretbox, encrypted, file_magic}
use teldrive_fork.Crypt.Format.Blocks.{body, body-nonempty, drop-body, take-body}
use teldrive_fork.Crypt.Decrypt.{Decrypter, OpenRangeSeek, seek_filled, seek_opened, range_seek}
use teldrive_fork.Crypt.Decrypt.Block.{Decrypts, loaded, fill_buffer-block}
use teldrive_fork.Crypt.Decrypt.Stream.{clip, pending}
use teldrive_fork.Crypt.Decrypt.Header.{started}

-- The callback gives the part of a file that it is asked for, and then io.EOF.
pub record Serves (open_range : OpenRangeSeek) (file : List ℕ) : Type 0 where
  pub whole :
      (offset n : ℕ)
      → (s : Source) × (open_range offset (negsuc n) ≡ ok s)
        × (contents s ≡ drop offset file)
        × (s.end ≡ eof)
  pub slice :
      (offset limit : ℕ)
      → (s : Source) × (open_range offset (pos limit) ≡ ok s)
        × (contents s ≡ take limit (drop offset file))
        × (s.end ≡ eof)

-- What one opening with a limit asks of the callback: a part that begins inside the file, and all
-- from an offset on only where the limit is negative.
pub record ServesFor (open_range : OpenRangeSeek) (file : List ℕ) (limit : ℤ) : Type 0 where
  pub whole :
      (m offset : ℕ)
      → limit ≡ negsuc m
      → (s : Source) × (open_range offset (negsuc 0) ≡ ok s)
        × (contents s ≡ drop offset file)
        × (s.end ≡ eof)
  pub slice :
      (offset l : ℕ)
      → 0 < l
      → offset < length file
      → (s : Source) × (open_range offset (pos l) ≡ ok s)
        × (contents s ≡ take l (drop offset file))
        × (s.end ≡ eof)

pub Serves-ServesFor :
    (open_range : OpenRangeSeek) (file : List ℕ) (limit : ℤ)
    → Serves open_range file
    → ServesFor open_range file limit
Serves-ServesFor open_range file limit v = record {
  whole = λ m offset e. v.whole offset 0;
  slice = λ offset l p h. v.slice offset l;
}

-- A part behind `d` items of the first `k`, where these reach its end.
take_window :
    (d k l : ℕ) (xs : List ℕ) → d + l ≤ k → take l (drop d (take k xs)) ≡ take l (drop d xs)
take_window d k l xs h =
    ap (λ t. take l (drop d (take t xs))) (let e : k ≡ d + (k - d) = omega arith in e)
    ∙ ap (take l) (drop-take d (k - d) xs)
    ∙ take-take l (k - d) (drop d xs)
    ∙ ap (λ t. take t (drop d xs)) (let e : min l (k - d) ≡ l = omega arith in e)

-- Dropping whole blocks and then the rest of an offset is dropping the offset.
drop_offset :
    (offset : ℕ) (xs : List ℕ)
    → drop (offset % block_data_size) (drop (offset / block_data_size * block_data_size) xs)
      ≡ drop offset xs
drop_offset offset xs =
    drop-drop (offset / block_data_size * block_data_size) (offset % block_data_size) xs
    ∙ ap (λ t. drop t xs)
        (let e : offset / block_data_size * block_data_size + offset % block_data_size ≡ offset =
            omega arith in
          e)

underlying_small :
    (offset : ℕ) (limit : ℤ)
    → offset < 2 ^ 63
    → ((calculate_underlying offset limit).discard < block_data_size)
      × ((calculate_underlying offset limit).blocks < 2 ^ 64)
unfolding calculate_underlying
underlying_small offset limit h = (omega arith, omega arith)

seek_fits :
    (box : Secretbox) (offset discard : ℕ) (limit : ℤ) (fh : Decrypter)
    → ltb (length fh.buf) discard ≡ false
    → seek_filled box offset discard limit (none, fh)
      ≡ (ok offset, record fh { buf_index = discard; limit = limit })
unfolding seek_filled
seek_fits box offset discard limit fh h = rw h

-- A decrypter that has read the header.
abbrev pub opened : OpenRangeSeek → Nonce → Source → Decrypter
opened open_range n rc = record (started rc n) { open_range = some open_range }

module _ (box : Secretbox) (n : Nonce) (content : List ℕ) (bytes : IsBytes n)
    (size : length n ≡ 24) where
  -- The file behind its header and `j` blocks.
  drop-encrypted :
      (j : ℕ)
      → drop (file_header_size + j * block_size) (encrypted box n content)
        ≡ body box (increments j n) (drop (j * block_data_size) content)
  unfolding encrypted
  drop-encrypted j =
      drop-append_right file_header_size (j * block_size) (file_magic ++ n) (body box n content)
        (omega (arith, length-append file_magic n))
      ∙ drop-body box j n content

  -- An offset inside the content lies behind the header and whole blocks that are not all.
  inside-encrypted :
      (j : ℕ)
      → j * block_data_size < length content
      → file_header_size + j * block_size < length (encrypted box n content)
  inside-encrypted j h =
      let left = drop (j * block_data_size) content in
      let some_left : left ≢ [] =
        λ e. absurd (omega (arith, ap length e, length-drop (j * block_data_size) content)) in
      omega (
        arith,
        body-nonempty box (increments j n) left some_left,
        ap length (drop-encrypted j),
        length-drop (file_header_size + j * block_size) (encrypted box n content),
      )

  -- What is asked for at an offset, as blocks of a part of the content.
  abbrev served : ℕ → ℤ → List ℕ
  served offset (pos limit) =
      let u = calculate_underlying offset (pos limit) in
      take (blocks_to_read u.discard limit * block_data_size)
        (drop (u.blocks * block_data_size) content)
  served offset (negsuc m) =
      drop ((calculate_underlying offset (negsuc m)).blocks * block_data_size) content

  module _ (open_range : OpenRangeSeek) where
    open_at :
        (offset : ℕ) (limit : ℤ)
        → ServesFor open_range (encrypted box n content) limit
        → offset < length content
        → let u = calculate_underlying offset limit in
          (s : Source) × (open_range u.offset u.limit ≡ ok s)
          × (contents s ≡ body box (increments u.blocks n) (served offset limit))
          × (s.end ≡ eof)
    unfolding calculate_underlying
    open_at offset (pos limit) serves inside =
        let blocks = offset / block_data_size in
        let count = blocks_to_read (offset % block_data_size) limit in
        let (s, e, c, x) =
          serves.slice (file_header_size + blocks * block_size) (count * block_size)
            (omega (arith, (blocks_to_read_lem (offset % block_data_size) limit (omega arith)).1))
            (inside-encrypted blocks (omega arith)) in
        (
          s,
          e,
          c
              ∙ ap (take (count * block_size)) (drop-encrypted blocks)
              ∙ take-body box count (increments blocks n) (drop (blocks * block_data_size) content),
          x,
        )
    open_at offset (negsuc m) serves inside =
        let blocks = offset / block_data_size in
        let (s, e, c, x) = serves.whole m (file_header_size + blocks * block_size) refl in
        (s, e, c ∙ drop-encrypted blocks, x)

  -- What is served reaches past the start of the range, and holds what its limit leaves.
  length-served :
      (offset : ℕ) (limit : ℤ)
      → offset < length content
      → (calculate_underlying offset limit).discard < length (served offset limit)
  unfolding calculate_underlying
  length-served offset (pos limit) h =
      let discard = offset % block_data_size in
      let rest = drop (offset / block_data_size * block_data_size) content in
      let k = blocks_to_read discard limit * block_data_size in
      let enough = blocks_to_read_lem discard limit (omega arith) in
      omega (
        arith,
        length-take k rest,
        length-drop (offset / block_data_size * block_data_size) content,
        enough.1,
      )
  length-served offset (negsuc m) h =
      omega (arith, length-drop (offset / block_data_size * block_data_size) content)

  clip-served :
      (offset : ℕ) (limit : ℤ)
      → clip limit (drop (calculate_underlying offset limit).discard (served offset limit))
        ≡ clip limit (drop offset content)
  unfolding calculate_underlying
  clip-served offset (pos limit) =
      let discard = offset % block_data_size in
      take_window discard (blocks_to_read discard limit * block_data_size) limit
        (drop (offset / block_data_size * block_data_size) content)
        (blocks_to_read_lem discard limit (omega arith)).0
      ∙ ap (take limit) (drop_offset offset content)
  clip-served offset (negsuc m) = drop_offset offset content

  module _ (open_range : OpenRangeSeek) where
    -- A seek to an offset inside the content leaves the decrypter in front of that offset.
    pub range_seek-ok :
        (offset : ℕ) (limit : ℤ) (rc : Source)
        → ServesFor open_range (encrypted box n content) limit
        → offset < length content
        → offset < 2 ^ 63
        → (fh : Decrypter) × (rest : List ℕ) × (range_seek box offset 0 limit
              (opened open_range n rc)
            ≡ (ok offset, fh))
          × Decrypts box fh rest
          × (pending fh rest ≡ clip limit (drop offset content))
    unfolding range_seek
    range_seek-ok offset limit rc serves h b =
        let u = calculate_underlying offset limit in
        let (s, e, c, x) = open_at open_range offset limit serves h in
        let (small, few) = underlying_small offset limit b in
        let part = served offset limit in
        let long = length-served offset limit h in
        let at_block = record (opened open_range n rc) { nonce = add n u.blocks } in
        let nonces = add-eq-increments n u.blocks bytes size few in
        let d : Decrypts box (record at_block { rc = s }) part = record {
          blocks = c ∙ ap (λ k. body box k part) (sym nonces);
          rc_end = x;
          alive = refl;
        } in
        let (rc', filled, d') =
          fill_buffer-block box (record at_block { rc = s }) part d
            (λ z. absurd (omega (arith, ap length z))) in
        let fits : ltb (length (take block_data_size part)) u.discard ≡ false =
          le→not-ltb _ _ (omega (arith, length-take block_data_size part)) in
        let fh = record (loaded box (record at_block { rc = s }) rc' (take block_data_size part)) {
          buf_index = u.discard;
          limit = limit;
        } in
        (
          fh,
          drop block_data_size part,
          ap (λ r. seek_opened box offset u.discard limit r at_block) e
              ∙ ap (seek_filled box offset u.discard limit) filled
              ∙ seek_fits box offset u.discard limit
                  (loaded box (record at_block { rc = s }) rc' (take block_data_size part)) fits,
          record { blocks = d'.blocks; rc_end = d'.rc_end; alive = d'.alive },
          ap (clip limit) (
                sym (
                  drop-append_left u.discard (take block_data_size part) (drop block_data_size part)
                    (omega (arith, length-take block_data_size part)))
                ∙ ap (drop u.discard) (take-append-drop block_data_size part))
              ∙ clip-served offset limit,
        )
