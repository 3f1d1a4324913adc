-- ===== src/Reader/TgReader/Stream.antt =====
-- The reader delivers the range of the file, however it is read.
use teldrive_fork.Base.{
  ℕ, zero, suc, ◌+◌, ◌-◌, ◌/◌, ◌%◌, ◌==◌, ◌≤◌, ◌<◌, ◌≡◌, refl, sym, ap, subst, ◌∙◌, inl, inr, ltb,
  List, [], ◌∷◌, ◌++◌, take, drop, length, Option, none, some, arith, Bool-cases, false,
  length-take, length-drop, length-append, take-append-drop, append_assoc, append-nil, take_all,
  ==_iff, le→not-ltb,
}
use teldrive_fork.Reader.TgReader.{
  Error, eof, ok, ChunkSource, TgReader, new_tg_reader, next, copy_out, copy_next, read,
}
use teldrive_fork.Reader.TgReader.Invariant.{
  Reads, Inv, new_tg_reader-Inv, tail, from_byte, to_byte, cut-window, Fetches, fetched,
}

no_items : (xs : List ℕ) → length xs ≡ 0 → xs ≡ []
no_items [] h = refl
no_items (x ∷ xs) h = absurd (omega arith)

some_chunks : (x c : ℕ) → 0 < c → 0 < (x + c) / c
some_chunks x c h = grind arith

abbrev drain_more : List ℕ → List ℕ × Option Error → List ℕ × Option Error
drain_more bs (more, e) = (bs ++ more, e)

module _ (src : ChunkSource) where
  -- io.ReadAll with a buffer of `room` bytes, on fuel.
  unfoldable pub drain : ℕ → ℕ → TgReader → List ℕ × Option Error
  drain zero room r = ([], none)
  drain (suc f) room r =
      let (bs, e, r') = read src room r in
      let rest = drain f room r' in elim e [ some x ↦ (bs, some x) | none ↦ drain_more bs rest ]

module _ (src : ChunkSource) (file : List ℕ) (reads : Reads src file) (end : ℕ)
    (inside : end < length file) where
  -- `limit` counts the bytes in the buffer and those still to be fetched.
  pub record Live (left : ℕ) (r : TgReader) : Type 0 where
    pub inv : Inv end left r
    pub counted : r.limit ≡ length r.cur + length (tail end file inside left r)

  abbrev pub pending : ℕ → TgReader → List ℕ
  pending left r = r.cur ++ tail end file inside left r

  -- What a call on a live reader does: it delivers a part and goes on, or all and ends.
  pub data Delivers (room left : ℕ) (r : TgReader) (out : List ℕ × Option Error × TgReader)
      : Type 0 where
    part :
        (left' : ℕ)
        → out.1 ≡ none
        → Live left' out.2
        → out.0 ++ pending left' out.2 ≡ pending left r
        → (0 < room → 0 < length out.0)
        → Delivers room left r out
    last : out.1 ≡ some eof → out.0 ≡ pending left r → Delivers room left r out

  Inv-copy :
      {left : ℕ} {r : TgReader} (cur : List ℕ) (limit : ℕ)
      → Inv end left r
      → Inv end left (record r { cur = cur; limit = limit })
  Inv-copy cur limit v = record {
    parts = v.parts;
    started = v.started;
    sized = v.sized;
    right_small = v.right_small;
    right_pos = v.right_pos;
    last = v.last;
    first = v.first;
  }

  copy_out-Delivers :
      (room left : ℕ) (r : TgReader)
      → Live left r
      → 0 < length r.cur
      → Delivers room left r (copy_out room r)
  unfolding copy_out
  copy_out-Delivers room left r v h = elim (Bool-cases (r.limit - length (take room r.cur) == 0)) [
    | inl done ↦
        let spent = (==_iff _ 0).0 done in
        let size = length-take room r.cur in
        let all : length r.cur ≤ room = omega (arith, v.counted) in
        let nothing : length (tail end file inside left r) ≡ 0 = omega (arith, v.counted) in
        rw done (
          last refl (
            take_all room r.cur all
            ∙ sym (append-nil r.cur)
            ∙ ap (λ t. r.cur ++ t) (sym (no_items _ nothing))))
    | inr more ↦
        let size = length-take room r.cur in
        rw more (
          part left refl
            (record {
              inv = Inv-copy (drop room r.cur) (r.limit - length (take room r.cur)) v.inv;
              counted = omega (arith, v.counted, length-drop room r.cur);
            })
            (sym (append_assoc (take room r.cur) (drop room r.cur) _)
              ∙ ap (λ t. t ++ tail end file inside left r) (take-append-drop room r.cur))
            (λ p. omega arith))
  ]

  pub next-ok :
      (left : ℕ) (r : TgReader)
      → Inv end (suc left) r
      → (piece : List ℕ) × (next src r
          ≡ ok (
            piece,
            record r { current_part = r.current_part + 1; offset = r.offset + r.chunk_size },
          ))
        × Fetches end file inside left r piece
  unfolding next
  next-ok left r v =
      let more : ltb r.total_parts r.current_part ≡ false =
        le→not-ltb _ _ (omega (arith, v.parts)) in
      (
        take (to_byte left r - from_byte r) (drop (r.offset + from_byte r) file),
        rw (more, reads.chunk_lem r.offset r.chunk_size, cut-window end file inside left r v) refl,
        fetched end file inside left r v,
      )

  Delivers-change :
      {room left left' : ℕ} {r r' : TgReader} {out : List ℕ × Option Error × TgReader}
      → Delivers room left' r' out
      → pending left' r' ≡ pending left r
      → Delivers room left r out
  Delivers-change (part l e v b p) eq = part l e v (b ∙ eq) p
  Delivers-change (last e b) eq = last e (b ∙ eq)

  -- With the buffer empty and bytes of the range left, the next chunk is fetched.
  fetch-Delivers :
      (room left : ℕ) (r : TgReader)
      → Live left r
      → length r.cur ≡ 0
      → 0 < r.limit
      → Delivers room left r (copy_next room r (next src r))
  fetch-Delivers room zero r v e h = absurd (omega (arith, v.counted))
  fetch-Delivers room (suc left) r v e h =
      let (piece, fetch, got) = next-ok left r v.inv in
      let r' = record r {
        cur = piece;
        current_part = r.current_part + 1;
        offset = r.offset + r.chunk_size;
      } in
      let bytes : pending left r' ≡ pending (suc left) r =
        got.bytes ∙ ap (λ t. t ++ tail end file inside (suc left) r) (sym (no_items r.cur e)) in
      subst (λ x. Delivers room (suc left) r (copy_next room r x)) (sym fetch)
        (Delivers-change
          (copy_out-Delivers room left r'
            (record {
              inv = Inv-copy piece r.limit got.inv;
              counted = omega (
                arith,
                v.counted,
                ap length got.bytes,
                length-append piece (tail end file inside left r'),
              );
            })
            got.nonempty)
          bytes)

  -- A call of `Read` on a live reader delivers the next bytes of the range, at least one if there
  -- is room; or it delivers all that is left of them and io.EOF.
  pub tg_read-Delivers :
      (room left : ℕ) (r : TgReader) → Live left r → Delivers room left r (read src room r)
  unfolding read
  tg_read-Delivers room left r v = elim (Bool-cases (r.limit == 0)) [
    | inl done ↦
        let nothing : length (r.cur ++ tail end file inside left r) ≡ 0 = omega (
          arith,
          v.counted,
          (==_iff _ 0).0 done,
          length-append r.cur (tail end file inside left r),
        ) in
        rw done (last refl (sym (no_items _ nothing)))
    | inr more ↦ elim (Bool-cases (length r.cur == 0)) [
      | inl empty ↦
          rw (more, empty) (fetch-Delivers room left r v ((==_iff _ 0).0 empty) (ground arith))
      | inr full ↦ rw (more, full) (copy_out-Delivers room left r v (ground arith))
    ]
  ]

  drain_lem :
      (f room left : ℕ) (r : TgReader)
      → 0 < room
      → Live left r
      → length (pending left r) < f
      → drain src f room r ≡ (pending left r, some eof)
  unfolding drain
  drain_lem zero room left r p v h = absurd (omega arith)
  drain_lem (suc f) room left r p v h =
      step (read src room r) (tg_read-Delivers room left r v)
        (λ left' v'. drain_lem f room left' (read src room r).2 p v')
    where
      step :
          (out : List ℕ × Option Error × TgReader)
          → Delivers room left r out
          → ((left' : ℕ)
              → Live left' out.2
              → length (pending left' out.2) < f
              → drain src f room out.2 ≡ (pending left' out.2, some eof))
          → elim out.1 [
            | some x ↦ (out.0, some x)
            | none ↦ drain_more out.0 (drain src f room out.2)
          ]
            ≡ (pending left r, some eof)
      step (bs, e, r') (last x b) ih = rw (x, b)
      step (bs, e, r') (part left' x v' b q) ih =
          let shorter : length (pending left' r') < f =
            omega (arith, ap length b, length-append bs (pending left' r'), q p) in
          rw (x, ih left' v' shorter, b)

  start-limit : (start : ℕ) → (new_tg_reader src start end).limit ≡ end + 1 - start
  unfolding new_tg_reader
  start-limit start = refl

  pub start-pending :
      (start : ℕ)
      → start ≤ end
      → pending (new_tg_reader src start end).total_parts (new_tg_reader src start end)
        ≡ take (end + 1 - start) (drop start file)
  unfolding new_tg_reader
  start-pending start h =
      let c = src.chunk_size start end in
      let some_parts : ((end - (start - start % c) + c) / c == 0) ≡ false =
        ground (arith, some_chunks (end - (start - start % c)) c (reads.positive start end)) in
      rw some_parts (
        ap (λ t. take (end + 1 - t) (drop t file))
          (let e : start - start % c + (start - (start - start % c)) ≡ start = omega arith in e))

  pub start-Live :
      (start : ℕ)
      → start ≤ end
      → Live (new_tg_reader src start end).total_parts (new_tg_reader src start end)
  start-Live start h = record {
    inv = new_tg_reader-Inv src start end (reads.positive start end) h;
    counted =
        start-limit start
        ∙ (let e : end + 1 - start ≡ length (take (end + 1 - start) (drop start file)) =
              omega
                (arith, length-take (end + 1 - start) (drop start file), length-drop start file) in
            e)
        ∙ ap length (sym (start-pending start h))
        ∙ length-append _ _;
  }

  -- The reader of a range inside the file, read to its end in any portions, delivers exactly the
  -- bytes of the range, both ends included, and then io.EOF.
  pub new_tg_reader-drain :
      (f room start : ℕ)
      → 0 < room
      → start ≤ end
      → end + 1 - start < f
      → drain src f room (new_tg_reader src start end)
        ≡ (take (end + 1 - start) (drop start file), some eof)
  new_tg_reader-drain f room start p h fuel =
      let size = length-take (end + 1 - start) (drop start file) in
      drain_lem f room _ (new_tg_reader src start end) p (start-Live start h)
        (omega (arith, ap length (start-pending start h)))
      ∙ ap (λ t. (t, some eof)) (start-pending start h)
