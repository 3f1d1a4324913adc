-- ===== src/Reader/Multi/Invariant.antt =====
-- internal/reader/tg_multi_reader.go: what every step of the parallel reader keeps.
pub mod Slots
pub mod Moves
pub mod Passing
pub mod Steps
use teldrive_fork.Base.{
  ℕ, zero, suc, ◌+◌, ◌-◌, ◌*◌, ◌/◌, ◌%◌, ◌==◌, ◌≤◌, ◌<◌, ◌≡◌, ◌≢◌, refl, sym, ap, subst, ◌∙◌, inl,
  inr, ltb, if◌then◌else◌, length-take, length-drop, List, [], ◌∷◌, ◌++◌, take, drop, length,
  concat, Option, none, some, Bool, true, false, or_else, arith, Bool-cases, length-append,
  append_assoc, append-nil, take-append-drop, min, ==_iff,
}
use mathlib.Core.Path.{ap₂}
use native.Mathlib.Decide.{dec_lt}
use native.Mathlib.Nat.{mod-add-div'}
use teldrive_fork.Reader.TgReader.{
  Error, eof, at_chunk, canceled, deadline, Result, ok, err, ChunkSource,
}
use teldrive_fork.Reader.TgReader.Invariant.{Reads}
use teldrive_fork.Reader.Multi.{
  Multi, window, launched, at_part, cut_answer, Slot, idle, running, arrived, Producer, receiving,
  sending, stopped, System, Output, set_slot, cancel, stop, copied, start_system, sent, received,
  Answer, answered, expired, dropped, Step, bytes_of, Run, started, stepped,
}
use teldrive_fork.Reader.Multi.Pieces.{Setting, piece, rest, piece-rest, rest-start, launched-piece}

mul_le : (a b w : ℕ) → a ≤ b → a * w ≤ b * w
mul_le a b w h = grind arith

-- Parts in one window have different slots.
pub mod_near : (n q w : ℕ) → n < q → q < n + w → (n % w == q % w) ≡ false
mod_near n q w a b = elim (Bool-cases (n % w == q % w)) [
  | inr apart ↦ apart
  | inl same ↦
      let equal = (==_iff (n % w) (q % w)).0 same in
      let n_is = mod-add-div' n w in
      let q_is = mod-add-div' q w in
      elim (dec_lt (n / w) (q / w)) [
        | yes more ↦ absurd (omega (arith, mul_le (n / w + 1) (q / w) w (omega arith)))
        | no less ↦ absurd (omega (arith, mul_le (q / w) (n / w) w (omega arith)))
      ]
]

pub mod_next : (n w : ℕ) → 0 < w → (n + w) % w ≡ n % w
mod_next n w h = grind arith

pub mod_small : (q w : ℕ) → q < w → q % w ≡ q
mod_small q w h = grind arith

pub concat-snoc :
    (xs : List (List ℕ)) (y r : List ℕ) → concat (xs ++ (y ∷ [])) ++ r ≡ concat xs ++ (y ++ r)
concat-snoc [] y r = ap (λ t. t ++ r) (append-nil y)
concat-snoc (x ∷ xs) y r =
    append_assoc x (concat (xs ++ (y ∷ []))) r
    ∙ ap (λ t. x ++ t) (concat-snoc xs y r)
    ∙ sym (append_assoc x (concat xs) (y ++ r))

module _ (g : Setting) where
  open g use {m, start, end, file, inside, made, src, reads}

  -- What the goroutine of a part leaves in its slot.
  pub data Filled (part : ℕ) : Slot → Type 0 where
    flying : Filled part (running part)
    landed :
        (result : Result (List ℕ))
        → ((bytes : List ℕ) → result ≡ ok bytes → bytes ≡ piece g part)
        → result ≢ err eof
        → Filled part (arrived result)

  -- The slots hold the parts from one on, up to another or the last.
  abbrev pub Window : ℕ → ℕ → (ℕ → Slot) → Type 0
  Window from to slots =
      (part : ℕ)
      → from ≤ part
      → part < to
      → part < m.total_parts
      → Filled part (slots (part % window m))

  -- Where `fillBuffer` stands when it has passed on a number of parts.
  unfoldable pub Stands : ℕ → (ℕ → Slot) → Bool → Option Error → Producer → Type 0
  Stands passed slots closed cause (receiving part) =
      (part ≡ passed) × (closed ≡ false) × Window passed (passed + window m) slots
  Stands passed slots closed cause (sending part chunk) =
      (part ≡ passed)
      × (closed ≡ false)
      × (passed < m.total_parts)
      × (chunk ≡ piece g passed)
      × Window (passed + 1) (passed + window m) slots
  Stands passed slots closed cause stopped =
      (closed ≡ true) × (cause ≡ none → passed ≡ m.total_parts)

  -- No buffer is empty.
  unfoldable pub Full : List (List ℕ) → Type 0
  Full [] = Unit
  Full (x ∷ xs) = (0 < length x) × Full xs

  -- What is buffered, and what is still to be passed on.
  abbrev pub ahead : ℕ → System → List ℕ
  ahead passed s = s.cur ++ (concat s.queue ++ rest g passed)

  -- `out` is what the calls of `Read` have returned.
  pub record Inv (out : List ℕ) (s : System) : Type 0 where
    pub passed : ℕ
    pub bounded : passed ≤ m.total_parts
    pub stands : Stands passed s.slots s.closed s.cause s.producer
    pub bytes : out ++ ahead passed s ≡ rest g 0
    pub counted : s.limit ≡ length (ahead passed s)
    pub room_left : length s.queue ≤ m.buffers
    pub full : Full s.queue
    pub not_eof : s.cause ≢ some eof
    pub waits : (room : ℕ) → s.waiting ≡ some room → (s.cur ≡ []) × (0 < s.limit)
