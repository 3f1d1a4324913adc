-- ===== src/HttpRange/Bounds.antt =====
-- The ranges that the parser returns lie within the file.
use teldrive_fork.Base.{
  ℕ, ◌≤◌, ◌<◌, ◌≡◌, refl, sym, subst, if◌then◌else◌, List, [], ◌∷◌, length, Option, none, some,
  true, false, ◌||◌, Text, Bool-cases, Option-cases, inl, inr, arith,
}
use teldrive_fork.Base.Int.{ℤ, pos, negsuc, ◌-ℤ◌, ltb_ℤ, leb_ℤ}
use teldrive_fork.Tgc.AuthRecovery.{split}
use teldrive_fork.HttpRange.{
  Range, Parsed, ok, err, invalid, after_equals, parse_int, clamp, range_of, body, keep, collect,
  parse_values, result, parse,
}

-- A range inside a file of `size` bytes.
abbrev pub Within : ℕ → Range → Type 0
Within size r = (s : ℕ) × (e : ℕ) × (r.start ≡ pos s) × (r.end ≡ pos e) × (s ≤ e) × (e < size)

abbrev pub AllWithin : ℕ → List Range → Type 0
AllWithin size [] = Unit
AllWithin size (r ∷ rs) = Within size r × AllWithin size rs

abbrev pub MaybeWithin : ℕ → Option Range → Type 0
MaybeWithin size none = Unit
MaybeWithin size (some r) = Within size r

bounded :
    (size : ℕ) (start end : ℤ)
    → (ltb_ℤ end start || ltb_ℤ start (pos 0)) ≡ false
    → ltb_ℤ end (pos size) ≡ true
    → Within size (record { start = start; end = end })
bounded size (pos s) (pos e) h k = (s, e, refl, refl, ground arith, ground arith)
bounded size (pos s) (negsuc e) h k = absurd (ground arith)
bounded size (negsuc s) (pos e) h k = absurd (ground arith)
bounded size (negsuc s) (negsuc e) h k = absurd (ground arith)

clamped_end :
    (size : ℕ) (end : ℤ)
    → ltb_ℤ (if leb_ℤ (pos size) end then pos size -ℤ pos 1 else end) (pos size) ≡ true
clamped_end size (pos e) = ground arith
clamped_end size (negsuc e) = ground arith

clamp-Within : (size : ℕ) (start end : ℤ) → MaybeWithin size (clamp size start end)
unfolding clamp
clamp-Within size start end0 =
    let end = if leb_ℤ (pos size) end0 then pos size -ℤ pos 1 else end0 in
    elim (Bool-cases (ltb_ℤ end start || ltb_ℤ start (pos 0))) [
      | inl out ↦ rw out tt
      | inr inside ↦ rw inside (bounded size start end inside (clamped_end size end0))
    ]

range_of-Within : (size : ℕ) (start end : Option ℕ) → MaybeWithin size (range_of size start end)
unfolding range_of
range_of-Within size none none = tt
range_of-Within size none (some e) = clamp-Within size (pos size -ℤ pos e) (pos size -ℤ pos 1)
range_of-Within size (some s) none = clamp-Within size (pos s) (pos size -ℤ pos 1)
range_of-Within size (some s) (some e) = clamp-Within size (pos s) (pos e)

abbrev pub OptionWithin : ℕ → Option (List Range) → Type 0
OptionWithin size none = Unit
OptionWithin size (some rs) = AllWithin size rs

keep-AllWithin :
    (size : ℕ) (r : Option Range) (rs : List Range)
    → MaybeWithin size r
    → AllWithin size rs
    → AllWithin size (keep r rs)
keep-AllWithin size none rs a b = b
keep-AllWithin size (some r) rs a b = (a, b)

collect-OptionWithin :
    (size : ℕ) (parts : List Text) (rest : Option (List Range))
    → OptionWithin size rest
    → OptionWithin size (collect (body size parts) rest)
collect-OptionWithin size [] rest h = tt
collect-OptionWithin size (first ∷ []) rest h = tt
collect-OptionWithin size (first ∷ (second ∷ more)) none h = tt
collect-OptionWithin size (first ∷ (second ∷ more)) (some rs) h =
    keep-AllWithin size _ rs (range_of-Within size (parse_int first) (parse_int second)) h

parse_values-OptionWithin :
    (size : ℕ) (values : List Text) → OptionWithin size (parse_values size values)
unfolding parse_values
parse_values-OptionWithin size [] = tt
parse_values-OptionWithin size (value ∷ values) =
    collect-OptionWithin size (split b'-' value) _ (parse_values-OptionWithin size values)

abbrev pub Good : ℕ → Parsed → Type 0
Good size (ok rs) = (0 < length rs) × AllWithin size rs
Good size _ = Unit

result-Good : (size : ℕ) (o : Option (List Range)) → OptionWithin size o → Good size (result o)
result-Good size none h = tt
result-Good size (some []) h = tt
result-Good size (some (r ∷ rs)) h = (omega arith, h)

-- Whatever the header says, the ranges of a successful parse are at least one, and each starts and
-- ends inside the file, its start not behind its end.
pub parse-Good : (header : Text) (size : ℕ) → Good size (parse header size)
unfolding parse
parse-Good header size = elim (Option-cases (after_equals header)) [
  | inl e ↦
      subst (λ x. Good size x)
        (sym (let y : parse header size ≡ err invalid = rw (parse, e) refl in y)) tt
  | inr (spec, e) ↦
      let y : parse header size ≡ result (parse_values size (split b',' spec)) =
        rw (parse, e) refl in
      subst (Good size) (sym y) (
        result-Good size (parse_values size (split b',' spec))
          (parse_values-OptionWithin size (split b',' spec)))
]
