-- ===== src/Middleware/Streaming.antt =====
-- internal/middleware/scan_detector.go: which Range headers are significant, for headers of one range.
use teldrive_fork.Base.{
  ℕ, ◌+◌, ◌-◌, ◌*◌, ◌^◌, ◌≤◌, ◌<◌, ◌≡◌, refl, ap, ◌∙◌, leb, ltb, ◌==◌, [], ◌∷◌, ◌++◌, length, some,
  ◌&&◌, Bool, true, false, Text, arith, le→leb, lt→ltb,
}
use mathlib.Core.Path.{ap₂}
use teldrive_fork.Retry.{has_prefix}
use teldrive_fork.Tgc.AuthRecovery.{split}
use teldrive_fork.Middleware.{
  is_space, scan_signed, trim_left, leading, scan_int, is_large, significant_parts, bytes_prefix,
  is_significant_range,
}

-- Decimal digits, and the number that they write, behind those of `n`.
unfoldable pub Digits : Text → Type 0
Digits [] = Unit
Digits (c ∷ s) = (b'0' ≤ c) × (c ≤ b'9') × Digits s

unfoldable pub number_from : ℕ → Text → ℕ
number_from n [] = n
number_from n (c ∷ s) = number_from (n * 10 + (c - b'0')) s

-- The Range headers of one range, and whether it is significant: no header is not, a range without an
-- end is, and one from `start` to `end` is if it has more than 32 KiB.
pub data Asks : Text → Bool → Type 0 where
  no_header : Asks [] false
  to_end : (start : Text) → Digits start → Asks (bytes_prefix ++ (start ++ (b'-' ∷ []))) true
  between :
      (start end : Text)
      → Digits start
      → Digits end
      → 0 < length start
      → 0 < length end
      → number_from 0 start < 2 ^ 63
      → number_from 0 end + 1 < 2 ^ 63
      → Asks
          (bytes_prefix ++ (start ++ (b'-' ∷ end)))
          (ltb (number_from 0 start + 32 * 1024) (number_from 0 end + 1))

split-Digits : (s : Text) → Digits s → split b'-' s ≡ s ∷ []
unfolding split Digits
split-Digits [] d = refl
split-Digits (c ∷ s) (lo, hi, d) =
    let other : (c == b'-') ≡ false = ground arith in rw (split-Digits s d, other) refl

split-two :
    (start end : Text)
    → Digits start
    → Digits end
    → split b'-' (start ++ (b'-' ∷ end)) ≡ start ∷ (end ∷ [])
unfolding split Digits
split-two [] end d d' = rw (split-Digits end d') refl
split-two (c ∷ s) end (lo, hi, d) d' =
    let other : (c == b'-') ≡ false = ground arith in rw (split-two s end d d', other) refl

leading-number : (n : ℕ) (s : Text) → Digits s → leading n s ≡ number_from n s
unfolding leading number_from Digits
leading-number n [] d = refl
leading-number n (c ∷ s) (lo, hi, d) =
    let a : leb b'0' c ≡ true = le→leb _ _ lo in
    let b : leb c b'9' ≡ true = le→leb _ _ hi in
    rw (a, b) (leading-number (n * 10 + (c - b'0')) s d)

scan_int-number :
    (s : Text)
    → Digits s
    → 0 < length s
    → number_from 0 s < 2 ^ 63
    → scan_int s ≡ some (number_from 0 s)
unfolding scan_int trim_left number_from Digits
scan_int-number [] d p h = absurd (omega arith)
scan_int-number (c ∷ s) (lo, hi, d) p h =
    let a : leb b'0' c ≡ true = le→leb _ _ lo in
    let b : leb c b'9' ≡ true = le→leb _ _ hi in
    let blank : is_space c ≡ false = ground arith in
    let plus : (c == b'+') ≡ false = ground arith in
    let start : c - b'0' ≡ 0 * 10 + (c - b'0') = omega arith in
    let same : leading (c - b'0') s ≡ number_from (0 * 10 + (c - b'0')) s =
      leading-number (c - b'0') s d ∙ ap (λ n. number_from n s) start in
    let small : ltb (number_from (0 * 10 + (c - b'0')) s) (2 ^ 63) ≡ true = lt→ltb _ _ h in
    ap scan_signed (let trimmed : trim_left (c ∷ s) ≡ c ∷ s = rw blank refl in trimmed)
    ∙ rw (plus, a, b, same, small) refl

and_true : (a b : Bool) → b ≡ true → (a && b) ≡ a
and_true true b h = h
and_true false b h = refl

pub Asks-significant :
    (header : Text) (large : Bool) → Asks header large → is_significant_range header ≡ large
unfolding is_significant_range has_prefix split Digits
Asks-significant _ _ no_header = refl
Asks-significant _ _ (to_end start d) = ap significant_parts (split-two start [] d tt)
Asks-significant _ _ (between start end d d' p q lo hi) =
    let given : (length end == 0) ≡ false = ground arith in
    let small : ltb (number_from 0 end + 1) (number_from 0 start + 2 ^ 63) ≡ true =
      lt→ltb _ _ (omega arith) in
    ap significant_parts (split-two start end d d')
    ∙ rw given (
        ap₂ is_large (scan_int-number start d p lo) (scan_int-number end d' q (omega arith))
        ∙ and_true _ _ small)
