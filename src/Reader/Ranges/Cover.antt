-- ===== src/Reader/Ranges/Cover.antt =====
-- The ranges of the parts make up the range of the file.
use teldrive_fork.Base.{
  ℕ, zero, suc, ◌+◌, ◌-◌, ◌*◌, ◌/◌, ◌==◌, ◌≤◌, ◌<◌, ◌≡◌, refl, ap, ◌∙◌, false, List, [], ◌∷◌, ◌++◌,
  take, drop, length, map, concat, some, arith, window_join, append-nil,
}
use mathlib.Core.Path.{ap₂}
use teldrive_fork.Reader.Ranges.{Range, part_range, part_ranges, calculate_part_byte_ranges}

-- The bytes of a range, in a file whose parts are `part_size` bytes long.
abbrev pub range_bytes {ℓ} : {A : Type ℓ} → ℕ → List A → Range → List A
range_bytes part_size file r =
    take (r.end + 1 - r.start) (drop (r.part_no * part_size + r.start) file)

module _ {ℓ} {A : Type ℓ} (start end part_size : ℕ) (file : List A) (p : 0 < part_size) where
  -- With the parts from `part` on, the bytes from there or from `start` on.
  part_ranges-cover :
      (count part : ℕ)
      → part * part_size ≤ end
      → end < (part + count) * part_size
      → (part + count) * part_size ≤ end + part_size
      → start < (part + 1) * part_size
      → start ≤ end
      → concat (map (range_bytes part_size file) (part_ranges start end part_size count part))
        ≡ take
            (end + 1 - (part * part_size + (start - part * part_size)))
            (drop (part * part_size + (start - part * part_size)) file)
  unfolding part_ranges
  part_ranges-cover zero part a b c d e = absurd (omega arith)
  part_ranges-cover (suc zero) part a b c d e =
      append-nil _ ∙ cong_window (omega arith) (omega arith)
    where
      cong_window :
          {n n' s s' : ℕ} → n ≡ n' → s ≡ s' → take n (drop s file) ≡ take n' (drop s' file)
      cong_window x y = ap₂ (λ n s. take n (drop s file)) x y
  part_ranges-cover (suc (suc count)) part a b c d e =
      ap (λ t. range_bytes part_size file (part_range start end part_size part) ++ t)
        (part_ranges-cover (suc count) (part + 1) (omega arith) (omega arith) (omega arith)
          (omega arith) e)
      ∙ window_join (part * part_size + (start - part * part_size)) _ _ _ _ file (omega arith)
          (omega arith)

-- Ranges inside their parts and up to the byte `end`, of one part after the other from `part` on.
abbrev pub Consecutive : ℕ → ℕ → ℕ → List Range → Type 0
Consecutive part_size end part [] = Unit
Consecutive part_size end part (r ∷ rs) =
    (r.part_no ≡ part)
    × (r.start ≤ r.end)
    × (r.end < part_size)
    × (r.part_no * part_size + r.end ≤ end)
    × Consecutive part_size end (part + 1) rs

part_ranges-Consecutive :
    (start end part_size count part : ℕ)
    → 0 < part_size
    → (0 < count → (part + count) * part_size ≤ end + part_size)
    → start < (part + 1) * part_size
    → start ≤ end
    → Consecutive part_size end part (part_ranges start end part_size count part)
unfolding part_ranges
part_ranges-Consecutive start end ps zero part p c d e = tt
part_ranges-Consecutive start end ps (suc count) part p c d e =
    let c' = c (omega arith) in
    (
      refl,
      omega arith,
      omega arith,
      omega arith,
      part_ranges-Consecutive start end ps count (part + 1) p (λ h. omega arith) (omega arith) e,
    )

length-part_ranges :
    (start end part_size count part : ℕ)
    → length (part_ranges start end part_size count part) ≡ count
unfolding part_ranges
length-part_ranges start end ps zero part = refl
length-part_ranges start end ps (suc count) part =
    ap suc (length-part_ranges start end ps count (part + 1))

div_bounds : (x d : ℕ) → 0 < d → (x / d * d ≤ x) × (x < (x / d + 1) * d)
div_bounds x d p = (omega arith, omega arith)

div_mono : (x y d : ℕ) → 0 < d → x ≤ y → x / d ≤ y / d
div_mono x y d p h = grind arith

-- A range of a file is cut into one range for each part from the first to the last that it
-- touches, each inside its part; put together in order, their bytes are the bytes of the range.
pub calculate_part_byte_ranges-cover {ℓ} :
    {A : Type ℓ} (start end part_size : ℕ) (file : List A)
    → 0 < part_size
    → start ≤ end
    → (rs : List Range) × (calculate_part_byte_ranges start end part_size ≡ some rs)
      × Consecutive part_size end (start / part_size) rs
      × (length rs ≡ end / part_size + 1 - start / part_size)
      × (concat (map (range_bytes part_size file) rs) ≡ take (end + 1 - start) (drop start file))
unfolding calculate_part_byte_ranges
calculate_part_byte_ranges-cover start end ps file p h =
    let first = start / ps in
    let count = end / ps + 1 - first in
    let (s_lo, s_hi) = div_bounds start ps p in
    let (e_lo, e_hi) = div_bounds end ps p in
    let up : first ≤ end / ps = div_mono start end ps p h in
    let last : (first + count) * ps ≡ (end / ps + 1) * ps =
      ap (λ t. t * ps) (let e : first + count ≡ end / ps + 1 = omega arith in e) in
    let nonzero : (ps == 0) ≡ false = ground arith in
    (
      part_ranges start end ps count first,
      rw nonzero,
      part_ranges-Consecutive start end ps count first p (λ _. omega arith) s_hi h,
      length-part_ranges start end ps count first,
      part_ranges-cover start end ps file p count first (omega arith) (omega arith) (omega arith)
            s_hi h
          ∙ ap (λ t. take (end + 1 - t) (drop t file))
              (let e : first * ps + (start - first * ps) ≡ start = omega arith in e),
    )
