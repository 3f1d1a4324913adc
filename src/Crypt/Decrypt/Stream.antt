-- ===== src/Crypt/Decrypt/Stream.antt =====
-- The decrypter delivers the content, however it is read, and stops at its limit.
use teldrive_fork.Base.{
  ℕ, zero, suc, ◌+◌, ◌-◌, ◌≤◌, ◌<◌, ◌≡◌, ◌≢◌, refl, sym, ap, subst, ◌∙◌, inl, inr, leb, ◌==◌, List,
  [], ◌++◌, take, drop, length, Option, none, some, arith, Bool-cases, leb→le, not-leb→lt,
  length-take, length-drop, length-append, take_all, drop_all, length_pos, true, false, min,
  copy_rest, take-take, take_split, take-append_left, drop-append_left, drop-drop, nil-cases,
  ==_iff, append-nil, take-length-take, take-append-drop,
}
use teldrive_fork.Base.Int.{ℤ, pos, negsuc}
use teldrive_fork.Crypt.Size.{block_data_size}
use teldrive_fork.Crypt.Io.{Error, eof, Source}
use teldrive_fork.Crypt.Format.{Secretbox}
use teldrive_fork.Crypt.Decrypt.{
  Decrypter, to_copy, charge, copy_out, finish, fill_buffer, read, read_filled,
}
use teldrive_fork.Crypt.Decrypt.Block.{Decrypts, loaded, fill_buffer-block, fill_buffer-end}

-- What a limit leaves of a content; a negative one leaves all.
abbrev pub clip : ℤ → List ℕ → List ℕ
clip (pos l) xs = take l xs
clip (negsuc n) xs = xs

-- What the decrypter has still to deliver, when `rest` is behind its buffer.
abbrev pub pending : Decrypter → List ℕ → List ℕ
pending fh rest = clip fh.limit (drop fh.buf_index fh.buf ++ rest)

-- A copy of `m` items out of a limit of `l`.
copy_limited :
    (m l i : ℕ) (buf rest : List ℕ)
    → m ≤ l
    → m ≤ length (drop i buf)
    → take m (drop i buf) ++ take (l - m) (drop (i + m) buf ++ rest) ≡ take l (drop i buf ++ rest)
copy_limited m l i buf rest h k =
    ap (λ t. t ++ take (l - m) (drop (i + m) buf ++ rest))
      (sym (take-append_left m (drop i buf) rest k))
    ∙ ap (λ t. take m (drop i buf ++ rest) ++ take (l - m) (t ++ rest)) (sym (drop-drop i m buf))
    ∙ ap (λ t. take m (drop i buf ++ rest) ++ take (l - m) t)
        (sym (drop-append_left m (drop i buf) rest k))
    ∙ take_split m (l - m) (drop i buf ++ rest)
    ∙ ap (λ t. take t (drop i buf ++ rest)) (let e : m + (l - m) ≡ l = omega arith in e)

to_copy_limit : (l a : ℕ) → to_copy (pos l) a ≡ min l a
unfolding to_copy
to_copy_limit l a = ground arith

module _ (box : Secretbox) where
  -- What a call on a live decrypter does: it delivers a part and goes on, or all and ends.
  pub data Delivers (room : ℕ) (fh : Decrypter) (rest : List ℕ)
      (r : List ℕ × Option Error × Decrypter) : Type 0 where
    part :
        (rest' : List ℕ)
        → r.1 ≡ none
        → Decrypts box r.2 rest'
        → r.0 ++ pending r.2 rest' ≡ pending fh rest
        → (0 < room → 0 < length r.0)
        → Delivers room fh rest r
    last : r.1 ≡ some eof → r.0 ≡ pending fh rest → Delivers room fh rest r

  abbrev step_to : Decrypter → ℕ → Decrypter
  step_to fh m = record fh { buf_index = fh.buf_index + m }

  charge_limit :
      (l room : ℕ) (fh : Decrypter) (rest out : List ℕ)
      → fh.limit ≡ pos l
      → Decrypts box fh rest
      → out ≡ take (length out) (drop fh.buf_index fh.buf)
      → length out ≤ l
      → length out ≤ length (drop fh.buf_index fh.buf)
      → (0 < room → 0 < l → 0 < length out)
      → Delivers room fh rest (charge (pos l) out (step_to fh (length out)))
  unfolding charge finish
  charge_limit l room fh rest out el d e h k p = elim (Bool-cases (l - length out == 0)) [
    | inl done ↦
        let all : l - length out ≡ 0 = (==_iff _ 0).0 done in
        rw (done, d.alive)
          (last refl (
            sym (append-nil out)
            ∙ ap (λ t. out ++ take t (drop (fh.buf_index + length out) fh.buf ++ rest)) (sym all)
            ∙ total))
    | inr more ↦ rw more (
        part rest refl (record { blocks = d.blocks; rc_end = d.rc_end; alive = d.alive }) total
          (λ r. p r (ground arith)))
  ]
    where
      total :
          out ++ take (l - length out) (drop (fh.buf_index + length out) fh.buf ++ rest)
          ≡ pending fh rest
      total =
          ap (λ t. t ++ take (l - length out) (drop (fh.buf_index + length out) fh.buf ++ rest)) e
          ∙ copy_limited (length out) l fh.buf_index fh.buf rest h k
          ∙ ap (λ z. clip z (drop fh.buf_index fh.buf ++ rest)) (sym el)

  charge-limited :
      (l room : ℕ) (fh : Decrypter) (rest : List ℕ)
      → fh.limit ≡ pos l
      → Decrypts box fh rest
      → fh.buf_index < length fh.buf
      → let out =
          take room
            (take (to_copy (pos l) (length fh.buf - fh.buf_index)) (drop fh.buf_index fh.buf)) in
        Delivers room fh rest (charge (pos l) out (step_to fh (length out)))
  charge-limited l room fh rest el d h =
      let left = drop fh.buf_index fh.buf in
      let tc = to_copy (pos l) (length fh.buf - fh.buf_index) in
      let out = take room (take tc left) in
      let short : out ≡ take (min room tc) left = take-take room tc left in
      let size : length out ≡ min room (min tc (length left)) =
        omega (arith, length-take room (take tc left), length-take tc left) in
      let clipped : tc ≡ min l (length fh.buf - fh.buf_index) =
        to_copy_limit l (length fh.buf - fh.buf_index) in
      let whole : length left ≡ length fh.buf - fh.buf_index = length-drop fh.buf_index fh.buf in
      charge_limit l room fh rest out el d
        (short ∙ take-length-take (min room tc) left ∙ ap (λ t. take (length t) left) (sym short))
        (omega arith) (omega arith) (λ r p. omega arith)

  charge-Delivers :
      (lim : ℤ) (room : ℕ) (fh : Decrypter) (rest : List ℕ)
      → fh.limit ≡ lim
      → Decrypts box fh rest
      → fh.buf_index < length fh.buf
      → let out =
          take room
            (take (to_copy lim (length fh.buf - fh.buf_index)) (drop fh.buf_index fh.buf)) in
        Delivers room fh rest (charge lim out (step_to fh (length out)))
  unfolding charge to_copy finish
  charge-Delivers (negsuc n) room fh rest el d h =
      let unlimited = λ (xs : List ℕ). ap (λ z. clip z xs) el in
      let size = length-drop fh.buf_index fh.buf in
      rw (take_all (length fh.buf - fh.buf_index) (drop fh.buf_index fh.buf) (omega (arith, size)))
        (part rest refl (record { blocks = d.blocks; rc_end = d.rc_end; alive = d.alive })
          (ap (λ t. take room (drop fh.buf_index fh.buf) ++ t) (unlimited _)
            ∙ copy_rest room fh.buf_index fh.buf rest
            ∙ sym (unlimited _))
          (λ p. omega (arith, size, length-take room (drop fh.buf_index fh.buf))))
  charge-Delivers (pos l) room fh rest el d h = charge-limited l room fh rest el d h

  copy_out-Delivers :
      (room : ℕ) (fh : Decrypter) (rest : List ℕ)
      → Decrypts box fh rest
      → fh.buf_index < length fh.buf
      → Delivers room fh rest (copy_out room fh)
  unfolding copy_out
  copy_out-Delivers room fh rest d h = charge-Delivers fh.limit room fh rest refl d h

  Delivers-change :
      {room : ℕ} {fh gh : Decrypter} {rest left : List ℕ} {r : List ℕ × Option Error × Decrypter}
      → Delivers room gh left r
      → pending gh left ≡ pending fh rest
      → Delivers room fh rest r
  Delivers-change (part rest' e d b p) eq = part rest' e d (b ∙ eq) p
  Delivers-change (last e b) eq = last e (b ∙ eq)

  read-more :
      (room : ℕ) (fh : Decrypter)
      → fh.failure ≡ none
      → leb (length fh.buf) fh.buf_index ≡ false
      → read box room fh ≡ copy_out room fh
  unfolding read
  read-more room fh ok more = rw (ok, more)

  read-filled :
      (room : ℕ) (fh : Decrypter)
      → fh.failure ≡ none
      → leb (length fh.buf) fh.buf_index ≡ true
      → read box room fh ≡ read_filled box room (fill_buffer box fh)
  unfolding read
  read-filled room fh ok done = rw (ok, done)

  clip-nil : (z : ℤ) → clip z [] ≡ []
  clip-nil (pos l) = take_all l [] (omega arith)
  clip-nil (negsuc n) = refl

  pending-spent :
      (fh : Decrypter) (rest : List ℕ)
      → leb (length fh.buf) fh.buf_index ≡ true
      → pending fh rest ≡ clip fh.limit rest
  pending-spent fh rest done =
      ap (λ t. clip fh.limit (t ++ rest)) (drop_all fh.buf_index fh.buf (leb→le _ _ done))

  finish-last :
      (room : ℕ) (fh : Decrypter) (rc : Source)
      → fh.failure ≡ none
      → pending fh [] ≡ []
      → Delivers room fh [] (read_filled box room (some eof, record fh { rc = rc }))
  unfolding finish
  finish-last room fh rc ok e = simp ok (last refl (sym e))

  spent :
      (room : ℕ) (fh : Decrypter) (rest : List ℕ)
      → Decrypts box fh rest
      → leb (length fh.buf) fh.buf_index ≡ true
      → rest ≡ []
      → Delivers room fh rest (read_filled box room (fill_buffer box fh))
  spent room fh rest d done e =
      let d' = subst (Decrypts box fh) e d in
      let (rc, eq) = fill_buffer-end box fh d' in
      subst (λ x. Delivers room fh x (read_filled box room (fill_buffer box fh))) (sym e)
        (subst (λ r. Delivers room fh [] (read_filled box room r)) (sym eq)
          (finish-last room fh rc d.alive (pending-spent fh [] done ∙ clip-nil fh.limit)))

  refilled :
      (room : ℕ) (fh : Decrypter) (rest : List ℕ)
      → Decrypts box fh rest
      → leb (length fh.buf) fh.buf_index ≡ true
      → rest ≢ []
      → Delivers room fh rest (read_filled box room (fill_buffer box fh))
  refilled room fh rest d done left =
      let (rc, eq, d') = fill_buffer-block box fh rest d left in
      let next = loaded box fh rc (take block_data_size rest) in
      subst (λ r. Delivers room fh rest (read_filled box room r)) (sym eq)
        (Delivers-change
          (copy_out-Delivers room next (drop block_data_size rest) d'
            (omega (arith, length-take block_data_size rest, length_pos rest left)))
          (ap (clip fh.limit) (take-append-drop block_data_size rest)
            ∙ sym (pending-spent fh rest done)))

  -- A call of `Read` on a live decrypter, in front of the sealed blocks of `rest`, delivers the
  -- next bytes of the content that its limit leaves, at least one if there is room; or it delivers
  -- all of them and io.EOF.
  pub read-Delivers :
      (room : ℕ) (fh : Decrypter) (rest : List ℕ)
      → Decrypts box fh rest
      → Delivers room fh rest (read box room fh)
  read-Delivers room fh rest d = elim (Bool-cases (leb (length fh.buf) fh.buf_index)) [
    | inr more ↦
        subst (Delivers room fh rest) (sym (read-more room fh d.alive more))
          (copy_out-Delivers room fh rest d (not-leb→lt _ _ more))
    | inl done ↦
        subst (Delivers room fh rest) (sym (read-filled room fh d.alive done))
          (elim (nil-cases rest) [
            | inl e ↦ spent room fh rest d done e
            | inr left ↦ refilled room fh rest d done left
          ])
  ]

  abbrev drain_more : List ℕ → List ℕ × Option Error → List ℕ × Option Error
  drain_more bs (more, e) = (bs ++ more, e)

  -- io.ReadAll with a buffer of `room` bytes, on fuel.
  pub drain : ℕ → ℕ → Decrypter → List ℕ × Option Error
  drain zero room fh = ([], none)
  drain (suc f) room fh =
      let (bs, e, fh') = read box room fh in
      let rest = drain f room fh' in elim e [ some x ↦ (bs, some x) | none ↦ drain_more bs rest ]

  -- Reading on to the first error gives all that is pending, and io.EOF.
  pub drain_lem :
      (f room : ℕ) (fh : Decrypter) (rest : List ℕ)
      → 0 < room
      → Decrypts box fh rest
      → length (pending fh rest) < f
      → drain f room fh ≡ (pending fh rest, some eof)
  unfolding drain
  drain_lem zero room fh rest p d h = absurd (omega arith)
  drain_lem (suc f) room fh rest p d h =
      step (read box room fh) (read-Delivers room fh rest d)
        (λ rest' d'. drain_lem f room (read box room fh).2 rest' p d')
    where
      step :
          (r : List ℕ × Option Error × Decrypter)
          → Delivers room fh rest r
          → ((rest' : List ℕ)
              → Decrypts box r.2 rest'
              → length (pending r.2 rest') < f
              → drain f room r.2 ≡ (pending r.2 rest', some eof))
          → elim r.1 [ some x ↦ (r.0, some x) | none ↦ drain_more r.0 (drain f room r.2) ]
            ≡ (pending fh rest, some eof)
      step (bs, e, fh') (last x b) ih = rw (x, b)
      step (bs, e, fh') (part rest' x d' b q) ih =
          let shorter : length (pending fh' rest') < f =
            omega (arith, ap length b, length-append bs (pending fh' rest'), q p) in
          rw (x, ih rest' d' shorter, b)
