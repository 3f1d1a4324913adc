-- ===== src/Reader/Multi/Pieces.antt =====
-- internal/reader/tg_multi_reader.go: what the goroutine of `launch` makes of the chunks of a file.
-- The part of the range in a chunk is that which the sequential reader cuts out of it.
use teldrive_fork.Base.{
  ℕ, suc, ◌+◌, ◌-◌, ◌*◌, ◌/◌, ◌%◌, ◌==◌, ◌≤◌, ◌<◌, ◌≡◌, refl, sym, ap, ◌∙◌, inl, inr, ltb, ◌||◌,
  ◌≢◌, min, subst, take_all, take-take, List, [], ◌++◌, take, drop, length, true, false, arith,
  Bool-cases, length-take, length-drop, le→not-ltb,
}
use mathlib.Core.Path.{ap₂}
use teldrive_fork.Reader.TgReader.{
  Error, eof, panic, source, mismatch, invalid_range, unexpected_eof, deadline, timeout, canceled,
  abandoned, at_chunk, cipher, Result, ok, err, slice, ChunkSource, TgReader, new_tg_reader,
}
use teldrive_fork.Reader.TgReader.Invariant.{
  Reads, Inv, new_tg_reader-Inv, tail, from_byte, to_byte, slice-window, fetched,
}
use teldrive_fork.Reader.Multi.{
  Multi, new_tg_multi_reader, left_of, right_of, cut_part, cut_answer, at_part, launched,
}

-- The sequential reader of the same range, before it fetches a part.
abbrev pub at : Multi → ℕ → TgReader
at m part = record {
  cur = [];
  offset = m.offset + part * m.chunk_size;
  limit = m.limit;
  chunk_size = m.chunk_size;
  left_cut = m.left_cut;
  right_cut = m.right_cut;
  total_parts = m.total_parts;
  current_part = part + 1;
}

blocks : (p left t c : ℕ) → p + left ≡ t → p * c + left * c ≡ t * c
blocks p left t c e = grind arith

some_parts : (x c : ℕ) → 0 < c → 0 < (x + c) / c
some_parts x c h = grind arith

-- A reader made for a range: its numbers are those of the sequential reader.
pub record Made (m : Multi) (start end : ℕ) : Type 0 where
  pub inv : Inv end m.total_parts (at m 0)
  pub begins : m.offset + m.left_cut ≡ start
  pub counts : m.limit ≡ end + 1 - start
  pub some_left : 0 < m.total_parts
  pub concurrent : 0 < m.concurrency

at-Inv :
    (m : Multi) (start end part left : ℕ)
    → Made m start end
    → part + left ≡ m.total_parts
    → Inv end left (at m part)
at-Inv m start end part left made e =
    let v = made.inv in
    let base : m.offset + 0 * m.chunk_size + m.total_parts * m.chunk_size + m.right_cut
        ≡ end + 1 + m.chunk_size =
      v.last made.some_left in
    let product = blocks part left m.total_parts m.chunk_size e in
    record {
      parts = omega (arith, v.parts);
      started = omega arith;
      sized = v.sized;
      right_small = v.right_small;
      right_pos = v.right_pos;
      last = λ h. omega (arith, product, base);
      first = λ h.
          let (a, b) = v.first refl in
          (
            a,
            omega (arith, ap (λ (t : ℕ). t * m.chunk_size) (let e : part ≡ 0 = omega arith in e)),
          );
    }

-- What a source can answer that has a file: an error, the bytes that it was asked for, or fewer.
pub data Partial (bytes : List ℕ) : Result (List ℕ) → Type 0 where
  fails : (e : Error) → Partial bytes (err e)
  delivers : (n : ℕ) → Partial bytes (ok (take n bytes))

-- A source of a file whose chunks may fail or be cut short.
pub record MayFail (src : ChunkSource) (file : List ℕ) : Type 0 where
  pub chunk_lem :
      (offset limit : ℕ) → Partial (take limit (drop offset file)) (src.chunk offset limit)
  pub positive : (start end : ℕ) → 0 < src.chunk_size start end

pub Reads-MayFail : (src : ChunkSource) (file : List ℕ) → Reads src file → MayFail src file
Reads-MayFail src file reads = record {
  chunk_lem = λ offset limit.
      subst (Partial (take limit (drop offset file))) (sym (reads.chunk_lem offset limit)) (
        subst (λ t. Partial (take limit (drop offset file)) (ok t))
          (take_all limit (take limit (drop offset file))
            (omega (arith, length-take limit (drop offset file))))
          (delivers limit));
  positive = reads.positive;
}

-- A reader of a range inside a file, over a source of the file.
pub record Setting : Type 0 where
  pub m : Multi
  pub start : ℕ
  pub end : ℕ
  pub file : List ℕ
  pub inside : end < length file
  pub made : Made m start end
  pub src : ChunkSource
  pub reads : MayFail src file

module _ (g : Setting) where
  open g use {m, start, end, file, inside, made, src, reads}

  -- The bytes of the range in the chunk of a part, and those from this chunk on.
  abbrev pub piece : ℕ → List ℕ
  piece part =
      take (to_byte (m.total_parts - (part + 1)) (at m part) - from_byte (at m part))
        (drop ((at m part).offset + from_byte (at m part)) file)

  abbrev pub rest : ℕ → List ℕ
  rest part = tail end file inside (m.total_parts - part) (at m part)

  next_at :
      (part : ℕ)
      → record (at m part) {
        current_part = part + 1 + 1;
        offset = m.offset + part * m.chunk_size + m.chunk_size;
      }
        ≡ at m (part + 1)
  next_at part =
      ap (λ o. record (at m part) { current_part = part + 1 + 1; offset = o })
        (let e : m.offset + part * m.chunk_size + m.chunk_size
              ≡ m.offset + (part + 1) * m.chunk_size =
            omega arith in
          e)

  -- The pieces follow one another, and none is empty.
  pub piece-rest :
      (part : ℕ)
      → part < m.total_parts
      → (piece part ++ rest (part + 1) ≡ rest part) × (0 < length (piece part))
  piece-rest part h =
      let left = m.total_parts - (part + 1) in
      let got =
        fetched end file inside left (at m part)
          (at-Inv m start end part (suc left) made (omega arith)) in
      (
        ap (λ r. piece part ++ tail end file inside left r) (sym (next_at part))
            ∙ got.bytes
            ∙ ap (λ k. tail end file inside k (at m part))
                (let e : suc (m.total_parts - (part + 1)) ≡ m.total_parts - part = omega arith in
                  e),
        got.nonempty,
      )

  pub rest-end : (part : ℕ) → m.total_parts ≤ part → rest part ≡ []
  rest-end part h = let e : (m.total_parts - part == 0) ≡ true = ground arith in rw e refl

  -- From the first part on, they are the bytes of the range.
  pub rest-start : rest 0 ≡ take (end + 1 - start) (drop start file)
  rest-start =
      let e : (m.total_parts - 0 == 0) ≡ false = ground (arith, made.some_left) in
      rw e (
        ap (λ t. take (end + 1 - t) (drop t file))
          (let e : m.offset + 0 * m.chunk_size + m.left_cut ≡ start = omega (arith, made.begins) in
            e))

  left-from : (part : ℕ) → left_of m part ≡ from_byte (at m part)
  left-from part = ground arith

  right-to :
      (part : ℕ)
      → part < m.total_parts
      → right_of m part ≡ to_byte (m.total_parts - (part + 1)) (at m part)
  right-to part h = ground arith

  -- The cuts lie inside the chunk, and the chunk inside the file.
  cuts :
      (part : ℕ)
      → part < m.total_parts
      → (left_of m part ≤ right_of m part)
        × (right_of m part ≤ m.chunk_size)
        × (m.offset + part * m.chunk_size + right_of m part ≤ end + 1)
  cuts part h =
      let left = m.total_parts - (part + 1) in
      let v = at-Inv m start end part (suc left) made (omega arith) in
      let last : m.offset + part * m.chunk_size + suc left * m.chunk_size + m.right_cut
          ≡ end + 1 + m.chunk_size =
        v.last (omega arith) in
      elim (Bool-cases (part == m.total_parts - 1)) [
        | inl final ↦
            let none_left : left * m.chunk_size ≡ 0 * m.chunk_size =
              ap (λ (t : ℕ). t * m.chunk_size) (let e : left ≡ 0 = ground arith in e) in
            elim (Bool-cases (part == 0)) [
              | inl first ↦
                  let (a, b) = v.first (ground arith) in
                  rw (final, first) (omega arith, v.right_small, omega arith)
              | inr later ↦ rw (final, later) (omega arith, v.right_small, omega arith)
            ]
        | inr before ↦
            let one : 1 ≤ left = ground arith in
            let block : m.chunk_size ≤ left * m.chunk_size = grind arith in
            elim (Bool-cases (part == 0)) [
              | inl first ↦
                  let (a, b) = v.first (ground arith) in
                  rw (before, first) (omega arith, omega arith, omega (arith, v.right_pos))
              | inr later ↦
                  rw (before, later) (omega arith, omega arith, omega (arith, v.right_pos))
            ]
      ]

  -- The cuts of a chunk that is long enough are the piece.
  cut-piece :
      (part n : ℕ)
      → part < m.total_parts
      → right_of m part ≤ n
      → slice
          (left_of m part)
          (right_of m part)
          (take n (drop (m.offset + part * m.chunk_size) file))
        ≡ ok (piece part)
  cut-piece part n h enough =
      let (a, b, c) = cuts part h in
      slice-window (left_of m part) (right_of m part) n (m.offset + part * m.chunk_size) file a
        enough (omega arith)
      ∙ ap₂ (λ l r. ok (take (r - l) (drop (m.offset + part * m.chunk_size + l) file)))
          (left-from part) (right-to part h)

  -- What a goroutine sends for a whole chunk is the piece.
  pub launched-piece :
      (part : ℕ)
      → Reads src file
      → part < m.total_parts
      → launched m part (src.chunk (m.offset + part * m.chunk_size) m.chunk_size) ≡ ok (piece part)
  unfolding launched
  launched-piece part full_reads h =
      let offset = m.offset + part * m.chunk_size in
      let (a, b, c) = cuts part h in
      let full : ltb (length (take m.chunk_size (drop offset file))) (right_of m part) ≡ false =
        le→not-ltb _ _
          (omega (arith, length-take m.chunk_size (drop offset file), length-drop offset file)) in
      ap (λ x. at_part m part (cut_answer m part x)) (full_reads.chunk_lem offset m.chunk_size)
      ∙ rw full (ap (at_part m part) (cut-piece part m.chunk_size h b))

  no-chunk : (part : ℕ) (e : Error) (bytes : List ℕ) → cut_answer m part (err e) ≢ ok bytes
  no-chunk part deadline bytes h = cc h
  no-chunk part eof bytes h = cc h
  no-chunk part panic bytes h = cc h
  no-chunk part (source n) bytes h = cc h
  no-chunk part (mismatch n) bytes h = cc h
  no-chunk part invalid_range bytes h = cc h
  no-chunk part unexpected_eof bytes h = cc h
  no-chunk part timeout bytes h = cc h
  no-chunk part canceled bytes h = cc h
  no-chunk part abandoned bytes h = cc h
  no-chunk part (at_chunk n e) bytes h = cc h
  no-chunk part (cipher e) bytes h = cc h

  at_part-ok :
      (part : ℕ) (x : Result (List ℕ)) (bytes : List ℕ) → at_part m part x ≡ ok bytes → x ≡ ok bytes
  at_part-ok part (ok chunk) bytes h = h
  at_part-ok part (err e) bytes h = absurd (cc h)

  cut-Partial :
      (part : ℕ) (answer : Result (List ℕ)) (bytes : List ℕ)
      → part < m.total_parts
      → Partial (take m.chunk_size (drop (m.offset + part * m.chunk_size) file)) answer
      → cut_answer m part answer ≡ ok bytes
      → ok bytes ≡ ok (piece part)
  unfolding cut_part
  cut-Partial part _ bytes h (fails e) x = absurd (no-chunk part e bytes x)
  cut-Partial part _ bytes h (delivers n) x =
      let offset = m.offset + part * m.chunk_size in
      let xs = drop offset file in
      let same = take-take n m.chunk_size xs in
      let cut = ap (λ t. cut_answer m part (ok t)) (sym same) ∙ x in
      elim (Bool-cases (ltb (length (take (min n m.chunk_size) xs)) (right_of m part))) [
        | inl short ↦ absurd (cc (rw short at cut))
        | inr enough ↦
            sym (rw enough at cut)
            ∙ cut-piece part (min n m.chunk_size) h
                (ground (arith, enough, length-take (min n m.chunk_size) xs))
      ]

  -- What a goroutine sends for a chunk that may be cut short is the piece, or an error.
  pub launched-ok :
      (part : ℕ) (bytes : List ℕ)
      → part < m.total_parts
      → launched m part (src.chunk (m.offset + part * m.chunk_size) m.chunk_size) ≡ ok bytes
      → bytes ≡ piece part
  unfolding launched
  launched-ok part bytes h x =
      let answer = src.chunk (m.offset + part * m.chunk_size) m.chunk_size in
      let y =
        cut-Partial part answer bytes h
          (reads.chunk_lem (m.offset + part * m.chunk_size) m.chunk_size)
          (at_part-ok part (cut_answer m part answer) bytes x) in
      cc y

-- What the reader of a range inside the file has: the guard is passed, and the numbers are those of
-- the sequential reader.
pub new_tg_multi_reader-Made :
    (src : ChunkSource) (multi_threads buffers start end : ℕ)
    → 0 < src.chunk_size start end
    → 0 < multi_threads
    → start ≤ end
    → (m : Multi) × (new_tg_multi_reader src multi_threads buffers start end ≡ ok m)
      × Made m start end
unfolding new_tg_multi_reader new_tg_reader
new_tg_multi_reader-Made src multi_threads buffers start end p q h =
    let v = new_tg_reader-Inv src start end p h in
    let c = src.chunk_size start end in
    let range : (c == 0 || (ltb end start || multi_threads == 0)) ≡ false = ground arith in
    let offset = start - start % c in
    let m : Multi = record {
      offset = offset;
      limit = end + 1 - start;
      chunk_size = c;
      concurrency = multi_threads;
      left_cut = start - offset;
      right_cut = end % c + 1;
      total_parts = (end - offset + c) / c;
      buffers = buffers;
    } in
    (
      m,
      rw range refl,
      record {
        inv = record {
          parts = omega arith;
          started = omega arith;
          sized = p;
          right_small = v.right_small;
          right_pos = v.right_pos;
          last = λ h. omega (arith, v.last h);
          first = λ h. let (a, b) = v.first refl in (a, omega arith);
        };
        begins = omega arith;
        counts = refl;
        some_left = some_parts (end - (start - start % c)) c p;
        concurrent = q;
      },
    )
