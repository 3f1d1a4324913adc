-- ===== src/Reader/TgReader/Invariant.antt =====
-- What of the range is in the buffer and what is still to be fetched.
use teldrive_fork.Base.{
  ℕ, zero, suc, ◌+◌, ◌-◌, ◌*◌, ◌/◌, ◌%◌, ◌==◌, ◌≤◌, ◌<◌, ◌≡◌, refl, ap, ◌∙◌, inl, inr, leb,
  if◌then◌else◌, List, ◌++◌, take, drop, length, arith, min, Bool-cases, true, false, window_join,
  append-nil, length-take, length-drop, drop-take, take-take, drop-drop, ==_iff, le→leb,
}
use mathlib.Core.Path.{ap₂}
use teldrive_fork.Reader.TgReader.{ok, ChunkSource, TgReader, new_tg_reader, slice, cut}

-- The chunk source reads a file: a chunk is the bytes at its offset, fewer at the end of the file.
pub record Reads (src : ChunkSource) (file : List ℕ) : Type 0 where
  pub chunk_lem : (offset limit : ℕ) → src.chunk offset limit ≡ ok (take limit (drop offset file))
  pub positive : (start end : ℕ) → 0 < src.chunk_size start end

-- The first byte that the next chunk is to deliver.
abbrev pub position : TgReader → ℕ
position r = r.offset + (if r.current_part == 1 then r.left_cut else 0)

-- `left` chunks are to be fetched, up to the byte `end`.
pub record Inv (end left : ℕ) (r : TgReader) : Type 0 where
  pub parts : r.current_part + left ≡ r.total_parts + 1
  pub started : 1 ≤ r.current_part
  pub sized : 0 < r.chunk_size
  pub right_small : r.right_cut ≤ r.chunk_size
  pub right_pos : 1 ≤ r.right_cut
  pub last : 0 < left → r.offset + left * r.chunk_size + r.right_cut ≡ end + 1 + r.chunk_size
  pub first : r.current_part ≡ 1 → (r.left_cut < r.chunk_size) × (r.offset + r.left_cut ≤ end)

div_of : (q r c : ℕ) → r < c → (q * c + r) / c ≡ q
div_of q r c h = grind arith

div_mono : (x y d : ℕ) → 0 < d → x ≤ y → x / d ≤ y / d
div_mono x y d p h = grind arith

split_blocks :
    (start end c : ℕ)
    → 0 < c
    → start ≤ end
    → (end / c + 1 - start / c) * c + start / c * c ≡ end / c * c + c
split_blocks start end c p h =
    let up : start / c ≤ end / c = div_mono start end c p h in
    let blocks : end / c + 1 - start / c + start / c ≡ end / c + 1 = omega arith in
    omega (arith, ap (λ (t : ℕ). t * c) blocks)

total_of :
    (start end c : ℕ)
    → 0 < c
    → start ≤ end
    → (end - (start - start % c) + c) / c ≡ end / c + 1 - start / c
total_of start end c p h =
    ap (λ t. t / c) regroup ∙ div_of (end / c + 1 - start / c) (end % c) c (omega arith)
  where
    regroup : end - (start - start % c) + c ≡ (end / c + 1 - start / c) * c + end % c
    regroup = omega (arith, split_blocks start end c p h)

pub new_tg_reader-Inv :
    (src : ChunkSource) (start end : ℕ)
    → 0 < src.chunk_size start end
    → start ≤ end
    → Inv end (new_tg_reader src start end).total_parts (new_tg_reader src start end)
unfolding new_tg_reader
new_tg_reader-Inv src start end p h =
    let c = src.chunk_size start end in
    let total = total_of start end c p h in
    let product = ap (λ (t : ℕ). t * c) total in
    record {
      parts = omega arith;
      started = omega arith;
      sized = p;
      right_small = omega arith;
      right_pos = omega arith;
      last = λ _. omega (arith, product, split_blocks start end c p h);
      first = λ _. (omega arith, omega arith);
    }

-- A slice of a chunk is a window of the file.
pub slice-window :
    (left right size offset : ℕ) (file : List ℕ)
    → left ≤ right
    → right ≤ size
    → offset + right ≤ length file
    → slice left right (take size (drop offset file))
      ≡ ok (take (right - left) (drop (offset + left) file))
unfolding slice
slice-window l r size o file a b c =
    let long : leb r (length (take size (drop o file))) ≡ true =
      le→leb _ _ (omega (arith, length-take size (drop o file), length-drop o file)) in
    rw (le→leb _ _ a, long)
      (ap (λ t. ok (drop l t)) (take-take r size (drop o file))
        ∙ ap (λ t. ok (drop l (take t (drop o file))))
            (let e : min r size ≡ l + (r - l) = omega arith in e)
        ∙ ap ok (drop-take l (r - l) (drop o file))
        ∙ ap (λ t. ok (take (r - l) t)) (drop-drop o l file))

-- Where the part of the range in the next chunk begins and ends, in the chunk.
abbrev pub from_byte : TgReader → ℕ
from_byte r = if r.current_part == 1 then r.left_cut else 0

abbrev pub to_byte : ℕ → TgReader → ℕ
to_byte left r = if left == 0 then r.right_cut else r.chunk_size

module _ (end : ℕ) (file : List ℕ) (inside : end < length file) where
  -- The last chunk to fetch holds the end of the range.
  at_end :
      (left : ℕ) (r : TgReader)
      → Inv end (suc left) r
      → (left == 0) ≡ true
      → r.offset + r.right_cut ≡ end + 1
  at_end left r v h =
      omega (arith, v.last (omega arith), ap (λ (t : ℕ). t * r.chunk_size) ((==_iff left 0).0 h))

  -- Another one is full.
  whole_chunk :
      (left : ℕ) (r : TgReader)
      → Inv end (suc left) r
      → (left == 0) ≡ false
      → length (take r.chunk_size (drop r.offset file)) ≡ r.chunk_size
  whole_chunk left r v h =
      let pos : 1 ≤ left = ground arith in
      let product : r.chunk_size ≤ left * r.chunk_size = grind arith in
      omega (
        arith,
        v.last (omega arith),
        length-take r.chunk_size (drop r.offset file),
        length-drop r.offset file,
      )

  pub cut-window :
      (left : ℕ) (r : TgReader)
      → Inv end (suc left) r
      → cut r (take r.chunk_size (drop r.offset file))
        ≡ ok (take (to_byte left r - from_byte r) (drop (r.offset + from_byte r) file))
  unfolding cut
  cut-window left r v =
      let last = v.last (omega arith) in
      let parts = v.parts in
      elim (Bool-cases (r.total_parts == 1)) [
        | inl one ↦
            let only : (left == 0) ≡ true = ground arith in
            let first : (r.current_part == 1) ≡ true = ground arith in
            let (start_lo, start_hi) = v.first ((==_iff _ 1).0 first) in
            rw (one, only, first)
              (slice-window r.left_cut r.right_cut r.chunk_size r.offset file
                (omega (arith, at_end left r v only)) v.right_small
                (omega (arith, at_end left r v only)))
        | inr more ↦ elim (Bool-cases (r.current_part == 1)) [
          | inl first ↦
              let others : (left == 0) ≡ false = ground arith in
              let (start_lo, start_hi) = v.first ((==_iff _ 1).0 first) in
              let full = whole_chunk left r v others in
              rw (more, first, others)
                (ap (λ t. slice r.left_cut t (take r.chunk_size (drop r.offset file))) full
                  ∙ slice-window r.left_cut r.chunk_size r.chunk_size r.offset file (omega arith)
                      (omega arith)
                      (omega (
                        arith,
                        full,
                        length-take r.chunk_size (drop r.offset file),
                        length-drop r.offset file,
                      )))
          | inr later ↦ elim (Bool-cases (r.current_part == r.total_parts)) [
            | inl at_last ↦
                let only : (left == 0) ≡ true = ground arith in
                rw (more, later, at_last, only)
                  (slice-window 0 r.right_cut r.chunk_size r.offset file (omega arith) v.right_small
                    (omega (arith, at_end left r v only)))
            | inr middle ↦
                let others : (left == 0) ≡ false = ground arith in
                rw (more, later, middle, others)
                  (ap₂ (λ n s. ok (take n (drop s file)))
                    (let e : r.chunk_size ≡ r.chunk_size - 0 = omega arith in e)
                    (let e : r.offset ≡ r.offset + 0 = omega arith in e))
          ]
        ]
      ]

  -- What is still to be fetched.
  abbrev pub tail : ℕ → TgReader → List ℕ
  tail left r =
      take (if left == 0 then 0 else end + 1 - (r.offset + from_byte r))
        (drop (r.offset + from_byte r) file)

  -- A fetch gives the first piece of what is still to be fetched, which is not empty.
  pub record Fetches (left : ℕ) (r : TgReader) (piece : List ℕ) : Type 0 where
    pub inv :
        Inv end left
          (record r { current_part = r.current_part + 1; offset = r.offset + r.chunk_size })
    pub bytes :
        piece
          ++ tail left
              (record r { current_part = r.current_part + 1; offset = r.offset + r.chunk_size })
        ≡ tail (suc left) r
    pub nonempty : 0 < length piece

  advance-Inv :
      (left : ℕ) (r : TgReader)
      → Inv end (suc left) r
      → Inv end left
          (record r { current_part = r.current_part + 1; offset = r.offset + r.chunk_size })
  advance-Inv left r v = record {
    parts = omega (arith, v.parts);
    started = omega arith;
    sized = v.sized;
    right_small = v.right_small;
    right_pos = v.right_pos;
    last = λ h. omega (arith, v.last (omega arith));
    first = λ h. absurd (omega (arith, v.started));
  }

  from_byte-lt :
      (left : ℕ) (r : TgReader)
      → Inv end (suc left) r
      → (from_byte r < r.chunk_size) × (r.offset + from_byte r ≤ end)
  from_byte-lt left r v = elim (Bool-cases (r.current_part == 1)) [
    | inl one ↦ rw one (v.first ((==_iff _ 1).0 one))
    | inr more ↦ rw more (v.sized, omega (arith, v.last (omega arith), v.right_pos))
  ]

  next_from :
      (left : ℕ) (r : TgReader)
      → Inv end (suc left) r
      → from_byte (record r { current_part = r.current_part + 1; offset = r.offset + r.chunk_size })
        ≡ 0
  next_from left r v =
      let later : (r.current_part + 1 == 1) ≡ false = ground (arith, v.started) in rw later

  pub fetched :
      (left : ℕ) (r : TgReader)
      → Inv end (suc left) r
      → Fetches left r (take (to_byte left r - from_byte r) (drop (r.offset + from_byte r) file))
  fetched zero r v =
      let (small, low) = from_byte-lt zero r v in
      let stop = at_end zero r v refl in
      record {
        inv = advance-Inv zero r v;
        bytes =
            append-nil _
            ∙ ap (λ t. take t (drop (r.offset + from_byte r) file))
                (let e : r.right_cut - from_byte r ≡ end + 1 - (r.offset + from_byte r) =
                    omega arith in
                  e);
        nonempty = omega (
          arith,
          length-take (r.right_cut - from_byte r) (drop (r.offset + from_byte r) file),
          length-drop (r.offset + from_byte r) file,
        );
      }
  fetched (suc k) r v =
      let (small, low) = from_byte-lt (suc k) r v in
      let middle : (suc k == 0) ≡ false = ground arith in
      let more : (suc (suc k) == 0) ≡ false = ground arith in
      let full = whole_chunk (suc k) r v middle in
      let size = length-take r.chunk_size (drop r.offset file) in
      let behind = length-drop r.offset file in
      record {
        inv = advance-Inv (suc k) r v;
        bytes =
            rw (middle, more, next_from (suc k) r v)
              (window_join (r.offset + from_byte r) (r.offset + r.chunk_size + 0) _ _ _ file
                (omega arith) (omega (arith, v.last (omega arith))));
        nonempty = rw middle (
            omega (
              arith,
              length-take (r.chunk_size - from_byte r) (drop (r.offset + from_byte r) file),
              length-drop (r.offset + from_byte r) file,
            ));
      }
