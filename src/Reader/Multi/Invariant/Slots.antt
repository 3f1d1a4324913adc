-- ===== src/Reader/Multi/Invariant/Slots.antt =====
-- internal/reader/tg_multi_reader.go: what the slots hold as results arrive and parts are passed on.
use teldrive_fork.Base.{
  ℕ, ◌+◌, ◌%◌, ◌==◌, ◌≤◌, ◌<◌, ◌≡◌, ◌≢◌, refl, sym, ap, subst, ◌∙◌, inl, inr, ltb, List, Option,
  some, Bool, true, or_else, arith, Bool-cases, ==_iff,
}
use native.Mathlib.Decide.{dec_lt}
use teldrive_fork.Reader.TgReader.{Error, eof, Result, ok, err}
use teldrive_fork.Reader.Multi.{
  window, launched, at_part, cut_answer, Slot, idle, running, arrived, Producer, receiving, sending,
  stopped, System, set_slot, sent, Answer, answered, expired, dropped,
}
use teldrive_fork.Reader.Multi.Pieces.{Setting, piece, launched-ok}
use teldrive_fork.Reader.Multi.Invariant.{mod_near, mod_next, Filled, flying, landed, Stands}

module _ (g : Setting) where
  open g use {m, start, end, file, inside, made, src, reads}

  Filled-running : (q part : ℕ) → Filled g q (running part) → part ≡ q
  Filled-running q part flying = refl

  answer-piece :
      (s : System) (part : ℕ) (answer : Result (List ℕ)) (bytes : List ℕ)
      → part < m.total_parts
      → Answer m src s part answer
      → launched m part answer ≡ ok bytes
      → bytes ≡ piece g part
  unfolding launched
  answer-piece s part answer bytes low answered e = launched-ok g part bytes low e
  answer-piece s part answer bytes low expired e = absurd (cc e)
  answer-piece s part answer bytes low (dropped c) e = absurd (cc e)

  -- A wrapped error is not io.EOF.
  at_part-eof : (part : ℕ) (answer : Result (List ℕ)) → at_part m part answer ≢ err eof
  at_part-eof part (ok chunk) h = cc h
  at_part-eof part (err e) h = cc h

  -- A result that arrives in a slot.
  Filled-launched :
      (s : System) (i part : ℕ) (answer : Result (List ℕ))
      → s.slots i ≡ running part
      → Answer m src s part answer
      → (q : ℕ) → q < m.total_parts
      → Filled g q (s.slots (q % window m))
      → Filled g q (set_slot s.slots i (arrived (launched m part answer)) (q % window m))
  unfolding launched
  Filled-launched s i part answer h a q low f = elim (Bool-cases (i == q % window m)) [
    | inr apart ↦ rw apart f
    | inl same ↦
        let here : s.slots (q % window m) ≡ running part =
          ap s.slots (sym ((==_iff i (q % window m)).0 same)) ∙ h in
        let this = Filled-running q part (subst (Filled g q) here f) in
        rw same (
          landed (launched m part answer)
            (λ bytes e.
              answer-piece s part answer bytes (subst (λ t. t < m.total_parts) (sym this) low) a e
              ∙ ap (piece g) this)
            (at_part-eof part (cut_answer m part answer)))
  ]

  pub fetch-Stands :
      (s : System) (i part n : ℕ) (answer : Result (List ℕ)) (pc : Producer)
      → s.slots i ≡ running part
      → Answer m src s part answer
      → Stands g n s.slots s.closed s.cause pc
      → Stands g n (set_slot s.slots i (arrived (launched m part answer))) s.closed s.cause pc
  unfolding Stands
  fetch-Stands s i part n answer (receiving p) h a (e, c, w) =
      (e, c, λ q x y z. Filled-launched s i part answer h a q z (w q x y z))
  fetch-Stands s i part n answer (sending p chunk) h a (e, c, b, o, w) =
      (e, c, b, o, λ q x y z. Filled-launched s i part answer h a q z (w q x y z))
  fetch-Stands s i part n answer stopped h a st = st

  pub cancel-Stands :
      (n : ℕ) (slots : ℕ → Slot) (closed : Bool) (cause : Option Error) (e : Error) (pc : Producer)
      → Stands g n slots closed cause pc
      → Stands g n slots closed (some (or_else cause e)) pc
  unfolding Stands
  cancel-Stands n slots closed cause e (receiving p) st = st
  cancel-Stands n slots closed cause e (sending p chunk) st = st
  cancel-Stands n slots closed cause e stopped (c, d) = (c, λ h. cc h)

  -- The window when a part has been passed on and its slot refilled.
  pub sent-Stands :
      (n part : ℕ) (chunk : List ℕ) (s : System)
      → Stands g n s.slots s.closed s.cause (sending part chunk)
      → Stands g (n + 1) (sent m part s).slots s.closed s.cause (receiving (part + 1))
  unfolding Stands sent
  sent-Stands n part chunk s (e, c, b, o, w) = (ap (λ t. t + 1) e, c, λ q x y z. refilled q x y z)
    where
      same : n % window m ≡ part % window m
      same = ap (λ t. t % window m) (sym e)

      refilled :
          (q : ℕ)
          → n + 1 ≤ q
          → q < n + 1 + window m
          → q < m.total_parts
          → Filled g q ((sent m part s).slots (q % window m))
      refilled q x y z = elim (dec_lt q (n + window m)) [
        | yes before ↦ elim (Bool-cases (ltb (part + window m) m.total_parts)) [
          | inl more ↦
              rw (more, sym same, mod_near n q (window m) (omega arith) before) (w q x before z)
          | inr over ↦ rw over (w q x before z)
        ]
        | no behind ↦
            let this : q ≡ part + window m = omega arith in
            let more : ltb (part + window m) m.total_parts ≡ true = ground arith in
            let slot : (part % window m == q % window m) ≡ true =
              (==_iff (part % window m) (q % window m)).1 (
                sym (
                  ap (λ t. t % window m) this
                  ∙ mod_next part (window m) (omega (arith, made.some_left, made.concurrent)))) in
            rw (more, slot) (subst (λ t. Filled g q (running t)) this flying)
      ]

  Filled-ok : (q : ℕ) (chunk : List ℕ) → Filled g q (arrived (ok chunk)) → chunk ≡ piece g q
  Filled-ok q chunk (landed _ h n) = h chunk refl

  Filled-err : (q : ℕ) (e : Error) → Filled g q (arrived (err e)) → e ≢ eof
  Filled-err q e (landed _ h n) x = n (ap err x)

  -- The next part of the window, with the result that is in its slot.
  first-Filled :
      (n part : ℕ) (result : Result (List ℕ)) (slots : ℕ → Slot) (closed : Bool)
      (cause : Option Error)
      → Stands g n slots closed cause (receiving part)
      → part < m.total_parts
      → slots (part % window m) ≡ arrived result
      → Filled g n (arrived result)
  unfolding Stands
  first-Filled n part result slots closed cause (e, c, w) low a =
      subst (Filled g n) (ap (λ t. slots (t % window m)) (sym e) ∙ a)
        (w n (omega arith) (omega (arith, made.some_left, made.concurrent)) (omega arith))

  pub received-Stands :
      (n part : ℕ) (chunk : List ℕ) (slots : ℕ → Slot) (closed : Bool) (cause : Option Error)
      → Stands g n slots closed cause (receiving part)
      → part < m.total_parts
      → slots (part % window m) ≡ arrived (ok chunk)
      → Stands g n (set_slot slots (part % window m) idle) closed cause (sending part chunk)
  unfolding Stands
  received-Stands n part chunk slots closed cause st low a =
      let (e, c, w) = st in
      (
        e,
        c,
        omega arith,
        Filled-ok n chunk (first-Filled n part (ok chunk) slots closed cause st low a),
        λ q x y z.
            rw (mod_near part q (window m) (omega arith) (omega arith)) (w q (omega arith) y z),
      )

  pub received-error :
      (n part : ℕ) (e : Error) (slots : ℕ → Slot) (closed : Bool) (cause : Option Error)
      → Stands g n slots closed cause (receiving part)
      → part < m.total_parts
      → slots (part % window m) ≡ arrived (err e)
      → e ≢ eof
  received-error n part e slots closed cause st low a =
      Filled-err n e (first-Filled n part (err e) slots closed cause st low a)
