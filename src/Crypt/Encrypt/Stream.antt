-- ===== src/Crypt/Encrypt/Stream.antt =====
-- The encrypter delivers the encrypted stream, however it is read.
use teldrive_fork.Base.{
  ℕ, zero, suc, ◌≤◌, ◌<◌, ◌≡◌, ◌≢◌, refl, sym, ap, subst, ◌∙◌, inl, inr, leb, List, [], ◌∷◌, ◌++◌,
  take, drop, length, Option, none, some, arith, Bool-cases, leb→le, not-leb→lt, length-take,
  length-drop, length-append, drop_all, copy_rest, chunks, chunks-nil, chunks-step,
}
use teldrive_fork.Crypt.Size.{block_data_size}
use teldrive_fork.Crypt.Nonce.{Nonce, increment}
use teldrive_fork.Crypt.Io.{Error, Source, contents}
use teldrive_fork.Crypt.Io.Fill.{Fills, read_fill-Fills, no_more-Failure}
use teldrive_fork.Crypt.Format.{Secretbox, sealed, encrypted}
use teldrive_fork.Crypt.Encrypt.{Encrypter, start, finish, copy_out, next_block, read}

module _ (box : Secretbox) where
  abbrev remaining_of : Option Error → Encrypter → List ℕ
  remaining_of (some e) fh = []
  remaining_of none fh =
      drop fh.buf_index fh.buf ++ sealed box fh.nonce (chunks block_data_size (contents fh.source))

  -- What the encrypter has still to deliver.
  abbrev pub remaining : Encrypter → List ℕ
  remaining fh = remaining_of fh.failure fh

  -- What a call on an encrypter that has not failed does.
  pub record Reads (room : ℕ) (fh : Encrypter) (r : List ℕ × Option Error × Encrypter)
      : Type 0 where
    pub bytes : r.0 ++ remaining r.2 ≡ remaining fh
    pub success : r.1 ≡ none → r.2.failure ≡ none
    pub progress : 0 < room → r.1 ≡ none → 0 < length r.0
    pub ended : r.1 ≢ none → (r.1 ≡ some fh.source.end) × (remaining fh ≡ []) × (r.0 ≡ [])
    pub same_end : r.2.source.end ≡ fh.source.end

  copy_out-Reads :
      (room : ℕ) (fh : Encrypter)
      → fh.failure ≡ none
      → fh.buf_index < length fh.buf
      → Reads room fh (copy_out room fh)
  unfolding copy_out
  copy_out-Reads room fh ok h = record {
    bytes = rw ok (
        copy_rest room fh.buf_index fh.buf
          (sealed box fh.nonce (chunks block_data_size (contents fh.source))));
    success = λ e. ok;
    progress = λ p e.
        omega (arith, length-take room (drop fh.buf_index fh.buf), length-drop fh.buf_index fh.buf);
    ended = λ e. absurd (e refl);
    same_end = refl;
  }

  -- Behind the last byte of the buffer only the blocks to come are left.
  remaining_blocks :
      (fh : Encrypter)
      → fh.failure ≡ none
      → length fh.buf ≤ fh.buf_index
      → remaining fh ≡ sealed box fh.nonce (chunks block_data_size (contents fh.source))
  remaining_blocks fh ok h =
      ap (λ f. remaining_of f fh) ok
      ∙ ap (λ t. t ++ sealed box fh.nonce (chunks block_data_size (contents fh.source)))
          (drop_all fh.buf_index fh.buf h)

  Reads-change :
      {room : ℕ} {fh gh : Encrypter} {r : List ℕ × Option Error × Encrypter}
      → Reads room gh r
      → remaining gh ≡ remaining fh
      → gh.source.end ≡ fh.source.end
      → Reads room fh r
  Reads-change v e f = record {
    bytes = v.bytes ∙ e;
    success = v.success;
    progress = v.progress;
    ended = λ x. let (a, b, c) = v.ended x in (a ∙ ap some f, sym e ∙ b, c);
    same_end = v.same_end ∙ f;
  }

  finish-Reads :
      (room : ℕ) (fh : Encrypter) (s : Source)
      → fh.failure ≡ none
      → remaining fh ≡ []
      → s.end ≡ fh.source.end
      → Reads room fh (finish (some fh.source.end) (record fh { source = s }))
  unfolding finish
  finish-Reads room fh s ok r e = simp ok (record {
    bytes = sym r;
    success = λ e. cc;
    progress = λ p e. cc;
    ended = λ x. (refl, r, refl);
    same_end = e;
  })

  no_bytes : (xs : List ℕ) → ◌≡◌ {A = List ℕ} [] (take block_data_size xs) → xs ≡ []
  no_bytes [] e = refl
  no_bytes (x ∷ xs) e = absurd (omega (arith, ap length e, length-take block_data_size (x ∷ xs)))

  first_block :
      (n : Nonce) (c xs ys : List ℕ)
      → c ≡ take block_data_size xs
      → c ≢ []
      → ys ≡ drop block_data_size xs
      → box.seal n c ++ sealed box (increment n) (chunks block_data_size ys)
        ≡ sealed box n (chunks block_data_size xs)
  first_block n c xs ys e h d =
      ap (λ t. box.seal n c ++ sealed box (increment n) (chunks block_data_size t)) d
      ∙ ap
          (λ t.
            box.seal n t
            ++ sealed box (increment n) (chunks block_data_size (drop block_data_size xs)))
          e
      ∙ sym (
          ap (sealed box n) (
            chunks-step block_data_size xs (omega arith)
              (λ z. h (e ∙ ap (take block_data_size) z))))

  next_block-Reads :
      (room : ℕ) (fh : Encrypter) (bytes : List ℕ) (e : Option Error) (s : Source)
      → fh.failure ≡ none
      → length fh.buf ≤ fh.buf_index
      → Fills block_data_size fh.source (bytes, e, s)
      → Reads room fh (next_block box room (record fh { source = s }) bytes e)
  unfolding next_block
  next_block-Reads room fh [] e s ok h v =
      let none_left : contents fh.source ≡ [] = no_bytes (contents fh.source) v.bytes in
      let ended : e ≡ some fh.source.end =
        no_more-Failure block_data_size fh.source e (omega arith) none_left v.failure in
      subst (λ x. Reads room fh (next_block box room (record fh { source = s }) [] x)) (sym ended)
        (finish-Reads room fh s ok
          (remaining_blocks fh ok h
            ∙ ap (λ t. sealed box fh.nonce (chunks block_data_size t)) none_left
            ∙ ap (sealed box fh.nonce) (chunks-nil block_data_size))
          v.same_end)
  next_block-Reads room fh (b ∷ bs) e s ok h v =
      Reads-change (copy_out-Reads room next ok (omega (arith, box.length-seal fh.nonce (b ∷ bs))))
        (ap (λ f. remaining_of f next) ok
          ∙ first_block fh.nonce (b ∷ bs) (contents fh.source) (contents s) v.bytes (λ z. cc) v.left
          ∙ sym (remaining_blocks fh ok h))
        v.same_end
    where
      next : Encrypter
      next = record fh {
        source = s;
        buf = box.seal fh.nonce (b ∷ bs);
        buf_index = 0;
        nonce = increment fh.nonce;
      }

  -- A call of `Read` on an encrypter that has not failed delivers the next bytes of what remains,
  -- at least one if there is room and something remains. It fails with the content's error (io.EOF
  -- at its end), and with no bytes, only if nothing remains.
  pub read-Reads :
      (room : ℕ) (fh : Encrypter) → fh.failure ≡ none → Reads room fh (read box room fh)
  unfolding read
  read-Reads room fh ok = elim (Bool-cases (leb (length fh.buf) fh.buf_index)) [
    | inl done ↦
        rw (ok, done)
          (next_block-Reads room (record fh { failure = none }) _ _ _ refl (leb→le _ _ done)
            (read_fill-Fills block_data_size fh.source))
    | inr more ↦
        rw (ok, more)
          (copy_out-Reads room (record fh { failure = none }) refl (not-leb→lt _ _ more))
  ]

  abbrev drain_more : List ℕ → List ℕ × Option Error → List ℕ × Option Error
  drain_more bs (more, e) = (bs ++ more, e)

  -- io.ReadAll with a buffer of `room` bytes, on fuel.
  pub drain : ℕ → ℕ → Encrypter → List ℕ × Option Error
  drain zero room fh = ([], none)
  drain (suc f) room fh =
      let (bs, e, fh') = read box room fh in
      let rest = drain f room fh' in elim e [ some x ↦ (bs, some x) | none ↦ drain_more bs rest ]

  -- Reading on to the first error gives all that remains, and then the content's error; a round for
  -- each byte and one more is enough.
  pub drain_lem :
      (f room : ℕ) (fh : Encrypter)
      → 0 < room
      → fh.failure ≡ none
      → length (remaining fh) < f
      → drain f room fh ≡ (remaining fh, some fh.source.end)
  unfolding drain
  drain_lem zero room fh p ok h = absurd (omega arith)
  drain_lem (suc f) room fh p ok h =
      step (read box room fh) (read-Reads room fh ok) (drain_lem f room (read box room fh).2 p)
    where
      step :
          (r : List ℕ × Option Error × Encrypter)
          → Reads room fh r
          → (r.2.failure ≡ none
              → length (remaining r.2) < f
              → drain f room r.2 ≡ (remaining r.2, some r.2.source.end))
          → elim r.1 [ some x ↦ (r.0, some x) | none ↦ drain_more r.0 (drain f room r.2) ]
            ≡ (remaining fh, some fh.source.end)
      step (bs, some x, fh') v ih = let (a, b, c) = v.ended (λ z. cc) in cc (a, b, c)
      step (bs, none, fh') v ih =
          let ok' = v.success refl in
          let shorter : length (remaining fh') < f =
            omega (arith, ap length v.bytes, length-append bs (remaining fh'), v.progress p refl) in
          rw (ih ok' shorter) (cc (v.bytes, v.same_end))

  -- An encrypter under a given nonce, read to its end in any portions, delivers the encrypted
  -- stream of all that the content's reader has, and then that reader's error.
  pub start-drain :
      (f room : ℕ) (source : Source) (n : Nonce)
      → 0 < room
      → length (encrypted box n (contents source)) < f
      → drain f room (start source n) ≡ (encrypted box n (contents source), some source.end)
  unfolding start encrypted
  start-drain f room source n p h = drain_lem f room (start source n) p refl h
