-- ===== src/Reader/Ranges/Parts.antt =====
-- The ranges on the list of the parts' contents.
use teldrive_fork.Base.{
  ℕ, zero, suc, ◌+◌, ◌-◌, ◌*◌, ◌/◌, ◌≤◌, ◌<◌, ◌≡◌, refl, sym, ap, ◌∙◌, List, [], ◌∷◌, ◌++◌, take,
  drop, length, map, concat, some, arith, length-append, drop-append_left, take-append_left,
  drop-append_right, length-drop, get_or,
}
use mathlib.Core.Path.{ap₂}
use teldrive_fork.Reader.Ranges.{Range, calculate_part_byte_ranges}
use teldrive_fork.Reader.Ranges.Cover.{Consecutive, range_bytes, calculate_part_byte_ranges-cover}

-- The first part's size is the size of all, but for the last part, which is not longer.
abbrev pub Uniform {ℓ} : {A : Type ℓ} → ℕ → List (List A) → Type 0
Uniform part_size [] = Unit
Uniform part_size (x ∷ []) = length x ≤ part_size
Uniform part_size (x ∷ (y ∷ parts)) = (length x ≡ part_size) × Uniform part_size (y ∷ parts)

-- The bytes that are read of a part.
abbrev pub part_bytes {ℓ} : {A : Type ℓ} → List (List A) → Range → List A
part_bytes parts r = take (r.end + 1 - r.start) (drop r.start (get_or parts r.part_no []))

module _ {ℓ} {A : Type ℓ} where
  Uniform-tail :
      (ps : ℕ) (x : List A) (parts : List (List A)) → Uniform ps (x ∷ parts) → Uniform ps parts
  Uniform-tail ps x [] u = tt
  Uniform-tail ps x (y ∷ parts) u = u.1

  window_first :
      (ps s n : ℕ) (x rest : List A)
      → s + n ≤ length x
      → take n (drop (0 * ps + s) (x ++ rest)) ≡ take n (drop s x)
  window_first ps s n x rest h =
      ap (λ t. take n (drop t (x ++ rest))) (let e : 0 * ps + s ≡ s = omega arith in e)
      ∙ ap (take n) (drop-append_left s x rest (omega arith))
      ∙ take-append_left n (drop s x) rest (omega (arith, length-drop s x))

  window_next :
      (ps part s n : ℕ) (x rest : List A)
      → length x ≡ ps
      → take n (drop (suc part * ps + s) (x ++ rest)) ≡ take n (drop (part * ps + s) rest)
  window_next ps part s n x rest h =
      ap (λ t. take n (drop t (x ++ rest)))
        (let e : suc part * ps + s ≡ ps + (part * ps + s) = omega arith in e)
      ∙ ap (take n) (drop-append_right ps (part * ps + s) x rest h)

  -- A window inside part `part` is the same window of the whole.
  window-part :
      (ps part s n : ℕ) (parts : List (List A))
      → Uniform ps parts
      → 0 < n
      → s + n ≤ ps
      → part * ps + s + n ≤ length (concat parts)
      → (part < length parts)
        × (take n (drop (part * ps + s) (concat parts)) ≡ take n (drop s (get_or parts part [])))
  window-part ps part s n [] u p h k = absurd (omega arith)
  window-part ps zero s n (x ∷ []) u p h k =
      (omega arith, window_first ps s n x [] (omega (arith, length-append x [])))
  window-part ps zero s n (x ∷ (y ∷ parts)) u p h k =
      (omega arith, window_first ps s n x (concat (y ∷ parts)) (omega (arith, u.0)))
  window-part ps (suc part) s n (x ∷ []) u p h k = absurd (omega (arith, length-append x []))
  window-part ps (suc part) s n (x ∷ (y ∷ parts)) u p h k =
      let (found, same) =
        window-part ps part s n (y ∷ parts) u.1 p h
          (omega (arith, length-append x (concat (y ∷ parts)), u.0)) in
      (omega arith, window_next ps part s n x (concat (y ∷ parts)) u.0 ∙ same)

  -- All ranges of a list lie in parts that are there.
  abbrev pub Present : List (List A) → List Range → Type 0
  Present parts [] = Unit
  Present parts (r ∷ rs) = (r.part_no < length parts) × Present parts rs

  range_bytes-part :
      (ps end : ℕ) (parts : List (List A)) (r : Range)
      → Uniform ps parts
      → end < length (concat parts)
      → r.start ≤ r.end
      → r.end < ps
      → r.part_no * ps + r.end ≤ end
      → (r.part_no < length parts) × (range_bytes ps (concat parts) r ≡ part_bytes parts r)
  range_bytes-part ps end parts r u h a b c =
      window-part ps r.part_no r.start (r.end + 1 - r.start) parts u (omega arith) (omega arith)
        (omega arith)

  pub all-parts :
      (ps end part : ℕ) (parts : List (List A)) (rs : List Range)
      → Uniform ps parts
      → end < length (concat parts)
      → Consecutive ps end part rs
      → Present parts rs
        × (concat (map (range_bytes ps (concat parts)) rs) ≡ concat (map (part_bytes parts) rs))
  all-parts ps end part parts [] u h c = (tt, refl)
  all-parts ps end part parts (r ∷ rs) u h (a, lo, hi, e, c) =
      let (here, same) = range_bytes-part ps end parts r u h lo hi e in
      let (there, others) = all-parts ps end (part + 1) parts rs u h c in
      ((here, there), ap₂ ◌++◌ same others)

  -- Of a file whose parts, but for a shorter last one, all have the first part's size, and which
  -- holds the range that is asked for, every part that `calculatePartByteRanges` names exists, and
  -- the bytes that are read of these parts in order are the bytes of the range.
  pub calculate_part_byte_ranges-parts :
      (start end part_size : ℕ) (parts : List (List A))
      → 0 < part_size
      → Uniform part_size parts
      → start ≤ end
      → end < length (concat parts)
      → (rs : List Range) × (calculate_part_byte_ranges start end part_size ≡ some rs)
        × Present parts rs
        × (concat (map (part_bytes parts) rs) ≡ take (end + 1 - start) (drop start (concat parts)))
  calculate_part_byte_ranges-parts start end ps parts p u h k =
      let (rs, made, c, _, cover) =
        calculate_part_byte_ranges-cover start end ps (concat parts) p h in
      let (present, same) = all-parts ps end (start / ps) parts rs u k c in
      (rs, made, present, sym same ∙ cover)
