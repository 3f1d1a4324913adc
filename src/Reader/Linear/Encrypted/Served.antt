-- ===== src/Reader/Linear/Encrypted/Served.antt =====
-- internal/reader/reader.go: the whole way from a byte range of an encrypted file to its bytes.
use teldrive_fork.Base.{
  subst, none, append-nil, length-append, ℕ, zero, suc, ◌+◌, ◌-◌, ◌/◌, ◌^◌, ◌≤◌, ◌<◌, ◌≡◌, refl,
  sym, ap, ◌∙◌, inr, List, [], ◌∷◌, ◌++◌, take, drop, length, get_or, concat, Option, some, true,
  arith, min, length-drop, take-take, take_all,
}
use teldrive_fork.Base.Int.{pos}
use teldrive_fork.Crypt.Io.{Error as CipherError, Source, contents}
use teldrive_fork.Crypt.Io.{eof as cipher_eof}
use teldrive_fork.Crypt.Nonce.{Nonce}
use teldrive_fork.Crypt.Nonce.Value.{IsBytes}
use teldrive_fork.Crypt.Format.{Secretbox, encrypted}
use teldrive_fork.Crypt.Decrypt.{Decrypter}
use teldrive_fork.Crypt.Decrypt.Block.{Decrypts}
use teldrive_fork.Crypt.Decrypt.Seek.{ServesFor}
use teldrive_fork.Crypt.Decrypt.Stream.{
  pending as decrypter_pending, Delivers as DecrypterDelivers, read-Delivers,
}
use teldrive_fork.Crypt.Decrypt.Stream.{part as decrypter_part, last as decrypter_last}
use teldrive_fork.Crypt.Decrypt.Open.{new_decrypter_seek-Opens}
use teldrive_fork.Reader.Ranges.Parts.{Uniform}
use teldrive_fork.Reader.TgReader.{Error, eof, ok, ChunkSource, TgReader, new_tg_reader}
use teldrive_fork.Reader.TgReader.{read as tg_read}
use teldrive_fork.Reader.TgReader.Invariant.{Reads, tail}
use teldrive_fork.Reader.TgReader.Stream.{
  pending as tg_pending, Live as TgLive, Delivers as TgDelivers, part as tg_part, last as tg_last,
  tg_read-Delivers, start-pending, start-Live,
}
use teldrive_fork.Reader.Linear.{Part, LinearReader, new_linear_reader}
use teldrive_fork.Reader.Linear.Stream.{PartStep, part, last, Serving, drain}
use teldrive_fork.Reader.Linear.Whole.{Each, get_elem-Each, PartsOpen, start_with-Gives}
use teldrive_fork.Reader.Linear.Encrypted.{
  read_all, last_piece, add_piece, chunk_stream, open_underlying, with_box, as_result,
  encrypted_parts,
}

-- A source that delivers these bytes, and then io.EOF.
abbrev Gives : Source → List ℕ → Type 0
Gives s bytes = (contents s ≡ bytes) × (s.end ≡ cipher_eof)

last_piece-Gives : (bytes : List ℕ) → Gives (last_piece bytes eof) bytes
last_piece-Gives [] = (refl, refl)
last_piece-Gives (b ∷ bs) = (append-nil (b ∷ bs), refl)

module _ (src : ChunkSource) (file : List ℕ) (reads : Reads src file) (end : ℕ)
    (inside : end < length file) where
  abbrev left_in : ℕ → TgReader → List ℕ
  left_in left r = tg_pending src file reads end inside left r

  read_all-Gives :
      (fuel left : ℕ) (r : TgReader)
      → TgLive src file reads end inside left r
      → length (left_in left r) < fuel
      → Gives (read_all src fuel r) (left_in left r)
  unfolding read_all
  read_all-Gives zero left r v h = absurd (omega arith)
  read_all-Gives (suc fuel) left r v h =
      step (tg_read src r.chunk_size r)
        (tg_read-Delivers src file reads end inside r.chunk_size left r v)
        (λ left' v' l. read_all-Gives fuel left' (tg_read src r.chunk_size r).2 v' l)
    where
      step :
          (out : List ℕ × Option Error × TgReader)
          → TgDelivers src file reads end inside r.chunk_size left r out
          → ((left' : ℕ)
              → TgLive src file reads end inside left' out.2
              → length (left_in left' out.2) < fuel
              → Gives (read_all src fuel out.2) (left_in left' out.2))
          → Gives
              (elim out.1 [
                | some x ↦ last_piece out.0 x
                | none ↦ add_piece out.0 (read_all src fuel out.2)
              ])
              (left_in left r)
      step (bs, e, r') (tg_last x b) ih =
          rw x (subst (Gives (last_piece bs eof)) b (last_piece-Gives bs))
      step (bs, e, r') (tg_part left' x v' b q) ih =
          let shorter : length (left_in left' r') < fuel =
            omega (arith, ap length b, length-append bs (left_in left' r'), q v.inv.sized) in
          let (c, ends) = ih left' v' shorter in rw x (ap (λ t. bs ++ t) c ∙ b, ends)

  chunk_stream-Gives :
      (start : ℕ)
      → start ≤ end
      → Gives (chunk_stream src start end) (take (end + 1 - start) (drop start file))
  unfolding chunk_stream
  chunk_stream-Gives start h =
      let r = new_tg_reader src start end in
      let all = start-pending src file reads end inside start h in
      let live = start-Live src file reads end inside start h in
      subst (Gives (read_all src (r.limit + 1) r)) all (
        read_all-Gives (r.limit + 1) r.total_parts r live
          (omega (arith, live.counted, length-append r.cur (tail end file inside r.total_parts r))))

module _ (src : ChunkSource) (file : List ℕ) (reads : Reads src file) where
  take-min : (l : ℕ) (xs : List ℕ) → take (min l (length xs)) xs ≡ take l xs
  take-min l xs =
      sym (take-take l (length xs) xs) ∙ ap (take l) (take_all (length xs) xs (omega arith))

  open_underlying-ServesFor :
      (size l : ℕ) → size ≡ length file → ServesFor (open_underlying src size) file (pos l)
  unfolding open_underlying chunk_stream
  open_underlying-ServesFor size l e = record {
    whole = λ m offset x. absurd (cc x);
    slice = λ offset k p h.
        let end = min (size - 1) (offset + k - 1) in
        let given = chunk_stream-Gives src file reads end (omega arith) offset (omega arith) in
        (
          chunk_stream src offset end,
          refl,
          given.0
              ∙ ap (λ t. take t (drop offset file))
                  (let z : end + 1 - offset ≡ min k (length (drop offset file)) =
                      omega (arith, length-drop offset file) in
                    z)
              ∙ take-min k (drop offset file),
          given.1,
        );
  }

-- A decrypter with these bytes left.
abbrev pub ServesPart : Secretbox × Decrypter → List ℕ → Type 0
ServesPart s bytes = (rest : List ℕ) × Decrypts s.0 s.1 rest × (decrypter_pending s.1 rest ≡ bytes)

decrypter-PartStep :
    (box : Secretbox) (room : ℕ) (fh : Decrypter) (rest bytes : List ℕ)
    (out : List ℕ × Option CipherError × Decrypter)
    → decrypter_pending fh rest ≡ bytes
    → DecrypterDelivers box room fh rest out
    → PartStep ServesPart room bytes (with_box box out)
decrypter-PartStep box room fh rest bytes (bs, e, fh') p (decrypter_part rest' x d b q) =
    rw x (part bs (decrypter_pending fh' rest') (box, fh') (rest', d, refl) (b ∙ p) q)
decrypter-PartStep box room fh rest bytes (bs, e, fh') p (decrypter_last x b) =
    rw (x, b, p) (last (box, fh'))

pub encrypted_serving :
    (sources : ℕ → ChunkSource) (boxes : Part → Secretbox) → Serving (encrypted_parts sources boxes)
encrypted_serving sources boxes = record {
  Serves = ServesPart;
  read_serves = λ room s bytes v.
      decrypter-PartStep s.0 room s.1 v.0 bytes _ v.2 (read-Delivers s.0 room s.1 v.0 v.1);
}

-- A part's chunk source serves the encrypted file of its content, which the part's size counts.
pub record Sealed (sources : ℕ → ChunkSource) (boxes : Part → Secretbox) (p : Part)
    (content : List ℕ) : Type 0 where
  pub nonce : Nonce
  pub bytes : IsBytes nonce
  pub nonce_size : length nonce ≡ 24
  pub reads : Reads (sources p.id) (encrypted (boxes p) nonce content)
  pub sized : p.size ≡ length (encrypted (boxes p) nonce content)
  pub small : length content < 2 ^ 63

encrypted-PartsOpen :
    (sources : ℕ → ChunkSource) (boxes : Part → Secretbox) (parts : List Part)
    (contents : List (List ℕ))
    → Each (Sealed sources boxes) parts contents
    → PartsOpen (encrypted_parts sources boxes) (encrypted_serving sources boxes) parts contents
unfolding encrypted_serving
encrypted-PartsOpen sources boxes parts contents stored = record {
  open_lem = λ r there lo within.
      let (p, found, v) =
        get_elem-Each (Sealed sources boxes) parts contents r.part_no stored there in
      let content = get_or contents r.part_no [] in
      let limit = r.end + 1 - r.start in
      let file = encrypted (boxes p) v.nonce content in
      let asks = open_underlying-ServesFor (sources p.id) file v.reads p.size limit v.sized in
      let (fh, rest, made, d, left) =
        new_decrypter_seek-Opens (boxes p) v.nonce content v.bytes v.nonce_size
          (open_underlying (sources p.id) p.size) r.start (pos limit) asks (inr (omega arith))
          (omega (arith, v.small)) in
      ((boxes p, fh), rw found (ap (as_result (boxes p)) made), (rest, d, left));
}

-- An encrypted file is stored in parts whose contents, but for a shorter last one, have the size
-- that is recorded for the first; each part is stored as an encrypted file of its own. The reader
-- of a range of the content can be made, and read to its end in any portions it delivers exactly
-- the bytes of the range of the content, both ends included, and then io.EOF.
pub encrypted_reader-drain :
    (sources : ℕ → ChunkSource) (boxes : Part → Secretbox) (first : Part) (parts : List Part)
    (contents : List (List ℕ)) (f room start end : ℕ)
    → Each (Sealed sources boxes) (first ∷ parts) contents
    → 0 < first.decrypted_size
    → Uniform first.decrypted_size contents
    → 0 < room
    → start ≤ end
    → end < length (concat contents)
    → end + 1 - start + (end / first.decrypted_size + 1 - start / first.decrypted_size) < f
    → (r : LinearReader (encrypted_parts sources boxes)) × (new_linear_reader
          (encrypted_parts sources boxes)
          true
          (first ∷ parts)
          start
          end
        ≡ ok r)
      × (drain (encrypted_parts sources boxes) f room r
          ≡ (take (end + 1 - start) (drop start (concat contents)), some eof))
unfolding new_linear_reader
encrypted_reader-drain sources boxes first parts contents f room start end stored sized u p h k
      fuel =
    start_with-Gives (encrypted_parts sources boxes) (encrypted_serving sources boxes)
      (first ∷ parts) contents (encrypted-PartsOpen sources boxes (first ∷ parts) contents stored)
      first.decrypted_size f room start end p sized u h k fuel
