-- ===== src/Retry.antt =====
-- internal/retry/retry.go: the middleware that repeats a request after a transient error. The next
-- invoker, the context and its cancellation during a delay are the environment's, one for each
-- attempt.
pub mod Bounds
mod Tests
use teldrive_fork.Base.{
  ℕ, zero, suc, ◌+◌, ◌-◌, ◌*◌, ◌/◌, ◌%◌, ◌^◌, ◌==◌, min, leb, ltb, if◌then◌else◌, List, [], ◌∷◌,
  ◌++◌, Option, none, some, Bool, true, false, not, ◌&&◌, ◌||◌, Text, text_key,
}
use teldrive_fork.Base.Int.{ℤ, pos, negsuc, ltb_ℤ}

-- An error: its text, and the RPC error that tgerr.As finds in it.
pub record Rpc : Type 0 where
  pub code : ℤ
  pub message : Text
  pub kind : Text

pub record Error : Type 0 where
  pub text : Text
  pub rpc : Option Rpc

pub data Request : Type 0 where
  upload_get_file channels_get_messages channels_get_channels : Request
  api : ℕ → Request

-- strings.HasPrefix and strings.Contains
unfoldable pub has_prefix : Text → Text → Bool
has_prefix s [] = true
has_prefix [] (p ∷ ps) = false
has_prefix (c ∷ s) (p ∷ ps) = c == p && has_prefix s ps

unfoldable pub contains : Text → Text → Bool
unfolding has_prefix
contains [] sub = has_prefix [] sub
contains (c ∷ s) sub = has_prefix (c ∷ s) sub || contains s sub

-- The loop of `isErrorMatch`.
unfoldable pub contains_any : Text → List Text → Bool
unfolding contains
contains_any s [] = false
contains_any s (t ∷ ts) = contains s t || contains_any s ts

-- `internalErrors`
abbrev pub internal_errors : List Text
internal_errors =
    (b'T' ∷ b'i' ∷ b'm' ∷ b'e' ∷ b'd' ∷ b'o' ∷ b'u' ∷ b't' ∷ [])
    ∷ (b'N' ∷ b'o' ∷ b' ' ∷ b'w' ∷ b'o' ∷ b'r' ∷ b'k' ∷ b'e' ∷ b'r' ∷ b's' ∷ b' ' ∷ b'r' ∷ b'u'
        ∷ b'n' ∷ b'n' ∷ b'i' ∷ b'n' ∷ b'g' ∷ [])
    ∷ (b'R' ∷ b'P' ∷ b'C' ∷ b'_' ∷ b'C' ∷ b'A' ∷ b'L' ∷ b'L' ∷ b'_' ∷ b'F' ∷ b'A' ∷ b'I' ∷ b'L'
        ∷ [])
    ∷ (b'R' ∷ b'P' ∷ b'C' ∷ b'_' ∷ b'M' ∷ b'C' ∷ b'G' ∷ b'E' ∷ b'T' ∷ b'_' ∷ b'F' ∷ b'A' ∷ b'I'
        ∷ b'L' ∷ [])
    ∷ (b'W' ∷ b'O' ∷ b'R' ∷ b'K' ∷ b'E' ∷ b'R' ∷ b'_' ∷ b'B' ∷ b'U' ∷ b'S' ∷ b'Y' ∷ b'_' ∷ b'T'
        ∷ b'O' ∷ b'O' ∷ b'_' ∷ b'L' ∷ b'O' ∷ b'N' ∷ b'G' ∷ b'_' ∷ b'R' ∷ b'E' ∷ b'T' ∷ b'R' ∷ b'Y'
        ∷ [])
    ∷ (b'm' ∷ b'e' ∷ b'm' ∷ b'o' ∷ b'r' ∷ b'y' ∷ b' ' ∷ b'l' ∷ b'i' ∷ b'm' ∷ b'i' ∷ b't' ∷ b' '
        ∷ b'e' ∷ b'x' ∷ b'i' ∷ b't' ∷ [])
    ∷ (b'c' ∷ b'o' ∷ b'n' ∷ b'n' ∷ b'e' ∷ b'c' ∷ b't' ∷ b'i' ∷ b'o' ∷ b'n' ∷ b' ' ∷ b'd' ∷ b'e'
        ∷ b'a' ∷ b'd' ∷ [])
    ∷ (b'e' ∷ b'n' ∷ b'g' ∷ b'i' ∷ b'n' ∷ b'e' ∷ b' ' ∷ b'w' ∷ b'a' ∷ b's' ∷ b' ' ∷ b'c' ∷ b'l'
        ∷ b'o' ∷ b's' ∷ b'e' ∷ b'd' ∷ [])
    ∷ (b'S' ∷ b'T' ∷ b'O' ∷ b'R' ∷ b'A' ∷ b'G' ∷ b'E' ∷ b'_' ∷ b'C' ∷ b'H' ∷ b'O' ∷ b'O' ∷ b'S'
        ∷ b'E' ∷ b'_' ∷ b'V' ∷ b'O' ∷ b'L' ∷ b'U' ∷ b'M' ∷ b'E' ∷ b'_' ∷ b'F' ∷ b'A' ∷ b'I' ∷ b'L'
        ∷ b'E' ∷ b'D' ∷ [])
    ∷ []

abbrev pub timeout_message : Text
timeout_message = (b'T' ∷ b'i' ∷ b'm' ∷ b'e' ∷ b'o' ∷ b'u' ∷ b't' ∷ [])

-- The middleware: the most attempts, and the kinds of RPC errors to retry.
pub record Retry : Type 0 where
  pub max : ℕ
  pub errors : List Text

-- `New`
unfoldable pub new : ℕ → List Text → Retry
new max errors = record { max = max; errors = errors ++ internal_errors }

-- `isErrorMatch`
unfoldable pub is_error_match : Error → Bool
unfolding contains_any
is_error_match e = contains_any e.text internal_errors

abbrev pub is_read : Request → Bool
is_read (api n) = false
is_read _ = true

abbrev pub equal_ℤ : ℤ → ℤ → Bool
equal_ℤ (pos a) (pos b) = a == b
equal_ℤ (negsuc a) (negsuc b) = a == b
equal_ℤ _ _ = false

-- `isReadTimeout`
unfoldable pub is_read_timeout : Request → Error → Bool
is_read_timeout input e = elim e.rpc [
  | none ↦ false
  | some rpc ↦
      if equal_ℤ rpc.code (negsuc 502) && text_key.same rpc.message timeout_message
      then is_read input
      else false
]

abbrev pub is_one_of : Text → List Text → Bool
is_one_of kind [] = false
is_one_of kind (t ∷ ts) = text_key.same kind t || is_one_of kind ts

-- tgerr.Is(err, r.errors...)
unfoldable pub has_kind : List Text → Error → Bool
has_kind kinds e = elim e.rpc [ none ↦ false | some rpc ↦ is_one_of rpc.kind kinds ]

-- A product as an int64.
unfoldable pub to_int64 : ℕ → ℤ
to_int64 n = let m = n % 2 ^ 64 in if ltb m (2 ^ 63) then pos m else negsuc (2 ^ 64 - m - 1)

abbrev pub three_seconds : ℕ
three_seconds = 3 * 1000000000

-- The delay behind the attempt number `retries`, in nanoseconds, with the overflows of the shift and
-- the products.
unfoldable pub delay : ℕ → ℤ
unfolding to_int64
delay retries =
    let d = to_int64 (200 * 2 ^ (retries - 1) * 1000000) in
    if ltb_ℤ (pos three_seconds) d then pos three_seconds else d

-- What the middleware meets in its attempts.
pub record Environment : Type 0 where
  pub context_error : ℕ → Option Error
  pub invoke : ℕ → Option Error
  pub canceled : ℕ → Option Error

-- The results of `Handle`: none, the context's error, an error that is not retried, and the end of
-- the retries.
pub data Outcome : Type 0 where
  success : Outcome
  context_ended : Error → Outcome
  skipped : Error → Outcome
  limit_reached : ℕ → Option Error → Outcome

-- A result with the number of calls of the next invoker.
abbrev pub counted : ℕ → Outcome × ℕ → Outcome × ℕ
counted n (o, calls) = (o, n + calls)

-- Whether an error is retried.
unfoldable pub retryable : Retry → Request → Error → Bool
unfolding is_read_timeout has_kind is_error_match
retryable r input e = is_read_timeout input e || (has_kind r.errors e || is_error_match e)

abbrev pub new_max : Request → Error → ℕ → ℕ
new_max input e max = if is_read_timeout input e then min max 3 else max

module _ (r : Retry) (env : Environment) (input : Request) where
  -- The branch of the loop for an error of the next invoker, with what the loop does afterwards.
  unfoldable pub after_error : Error → ℕ → ℕ → (ℕ → Outcome × ℕ) → Outcome × ℕ
  unfolding retryable
  after_error e retries max continue =
      let max' = new_max input e max in
      if not (retryable r input e)
      then (skipped e, 0)
      else if leb max' (retries + 1)
      then (limit_reached (retries + 1) (some e), 0)
      else elim (env.canceled retries) [ some x ↦ (context_ended x, 0) | none ↦ continue max' ]

  abbrev pub after_invoke : Option Error → ℕ → ℕ → (ℕ → Outcome × ℕ) → Outcome × ℕ
  after_invoke none retries max continue = (success, 0)
  after_invoke (some e) retries max continue = after_error e retries max continue

  -- The loop of `Handle`, on fuel: `retries` attempts were made.
  unfoldable pub loop : ℕ → ℕ → ℕ → Option Error → Outcome × ℕ
  unfolding after_error
  loop zero retries max last = (limit_reached retries last, 0)
  loop (suc fuel) retries max last =
      if ltb retries max
      then elim (env.context_error retries) [
        | some x ↦ (context_ended x, 0)
        | none ↦ counted 1 (
            after_invoke (env.invoke retries) retries max
              (λ max'. loop fuel (retries + 1) max' (env.invoke retries)))
      ]
      else (limit_reached retries last, 0)

  -- `Handle`: each round makes an attempt, so as many rounds as attempts are enough.
  unfoldable pub handle : Outcome × ℕ
  unfolding loop
  handle = loop r.max 0 r.max none
