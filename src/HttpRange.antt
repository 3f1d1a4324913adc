-- ===== src/HttpRange.antt =====
-- internal/http_range/range.go: the parser of the Range header.
pub mod Bounds
mod Tests
use teldrive_fork.Base.{
  ℕ, zero, suc, ◌+◌, ◌-◌, ◌*◌, ◌^◌, leb, ltb, ◌==◌, if◌then◌else◌, List, [], ◌∷◌, Option, none,
  some, Bool, true, false, ◌&&◌, ◌||◌, Text,
}
use teldrive_fork.Base.Int.{ℤ, pos, negsuc, ◌-ℤ◌, ltb_ℤ, leb_ℤ}
use teldrive_fork.Tgc.AuthRecovery.{split}

pub record Range : Type 0 where
  pub start : ℤ
  pub end : ℤ

pub data Error : Type 0 where
  no_overlap invalid : Error

-- The results of `Parse`; `panicked` is the panic of an index out of range.
pub data Parsed : Type 0 where
  ok : List Range → Parsed
  err : Error → Parsed
  panicked : Parsed

-- The text behind the first "=".
unfoldable pub after_equals : Text → Option Text
after_equals [] = none
after_equals (c ∷ s) = if c == b'=' then some s else after_equals s

-- strconv.ParseInt(s, 10, 64) of a text without "-", as the pieces of a split at "-" are.
unfoldable pub digits : ℕ → Text → Option ℕ
digits n [] = some n
digits n (c ∷ s) =
    let rest = digits (n * 10 + (c - b'0')) s in if leb b'0' c && leb c b'9' then rest else none

abbrev pub in_int64 : Option ℕ → Option ℕ
in_int64 none = none
in_int64 (some n) = if ltb n (2 ^ 63) then some n else none

abbrev pub one_digit : Text → Option ℕ
one_digit [] = none
one_digit (c ∷ s) = in_int64 (digits 0 (c ∷ s))

unfoldable pub parse_int : Text → Option ℕ
unfolding digits
parse_int [] = none
parse_int (c ∷ s) = if c == b'+' then one_digit s else one_digit (c ∷ s)

-- The end of the loop's body, for the bounds that it has found.
unfoldable pub clamp : ℕ → ℤ → ℤ → Option Range
clamp size start end0 =
    let end = if leb_ℤ (pos size) end0 then pos size -ℤ pos 1 else end0 in
    if ltb_ℤ end start || ltb_ℤ start (pos 0)
    then none
    else some (record { start = start; end = end })

-- The loop's body behind the two calls of ParseInt, whose errors are `none`.
unfoldable pub range_of : ℕ → Option ℕ → Option ℕ → Option Range
unfolding clamp
range_of size none none = none
range_of size none (some end) = clamp size (pos size -ℤ pos end) (pos size -ℤ pos 1)
range_of size (some start) none = clamp size (pos start) (pos size -ℤ pos 1)
range_of size (some start) (some end) = clamp size (pos start) (pos end)

-- The loop's body for one value, split at "-": `r[0]` is there, `r[1]` may not be.
abbrev pub body : ℕ → List Text → Option (Option Range)
body size (first ∷ (second ∷ more)) = some (range_of size (parse_int first) (parse_int second))
body size _ = none

abbrev pub keep : Option Range → List Range → List Range
keep none rs = rs
keep (some r) rs = r ∷ rs

abbrev pub collect : Option (Option Range) → Option (List Range) → Option (List Range)
collect (some r) (some rs) = some (keep r rs)
collect none rs = none
collect (some r) none = none

-- The loop of `Parse`; `none` where it panics.
unfoldable pub parse_values : ℕ → List Text → Option (List Range)
unfolding split range_of parse_int
parse_values size [] = some []
parse_values size (value ∷ values) =
    collect (body size (split b'-' value)) (parse_values size values)

abbrev pub result : Option (List Range) → Parsed
result none = panicked
result (some []) = err no_overlap
result (some (r ∷ rs)) = ok (r ∷ rs)

-- `Parse` for a file of `size` bytes.
unfoldable pub parse : Text → ℕ → Parsed
unfolding after_equals parse_values
parse header size = elim (after_equals header) [
  | none ↦ err invalid
  | some spec ↦ result (parse_values size (split b',' spec))
]
