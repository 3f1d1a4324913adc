-- ===== src/Reader/Linear/Stream.antt =====
-- The reader delivers the bytes of its ranges, in order.
use teldrive_fork.Base.{
  ℕ, zero, suc, ◌+◌, ◌-◌, ◌≤◌, ◌<◌, ◌≡◌, refl, sym, ap, subst, ◌∙◌, ltb, List, [], ◌∷◌, ◌++◌, drop,
  length, get_elem?, concat, Option, none, some, true, false, arith, Bool-cases, inl, inr,
  length-append, append_assoc, append-nil,
}
use teldrive_fork.Base.Int.{ℤ, pos, negsuc, ◌-ℤ◌, ltb_ℤ, leb_ℤ}
use teldrive_fork.Reader.Ranges.{Range}
use teldrive_fork.Reader.TgReader.{Error, eof, ok}
use teldrive_fork.Reader.Linear.{
  Part, PartReader, LinearReader, open_range, initialize_reader, move_to_next_part, after_read,
  read, get_part_reader, with_reader, moved, start_with, ready,
}

-- What a call of a part reader does: it delivers a part and goes on, or all and ends.
pub data PartStep {State : Type 0} (Serves : State → List ℕ → Type 0) (room : ℕ) (bytes : List ℕ)
    : List ℕ × Option Error × State → Type 0 where
  part :
      (out rest : List ℕ) (s : State)
      → Serves s rest
      → out ++ rest ≡ bytes
      → (0 < room → 0 < length out)
      → PartStep Serves room bytes (out, none, s)
  last : (s : State) → PartStep Serves room bytes (bytes, some eof, s)

-- The contract of a part reader: a state that serves some bytes delivers just these.
pub record Serving (source : PartReader) : Type 1 where
  pub Serves : source.State → List ℕ → Type 0
  pub read_serves :
      (room : ℕ) (s : source.State) (bytes : List ℕ)
      → Serves s bytes
      → PartStep Serves room bytes (source.read_part room s)

module _ (source : PartReader) (serving : Serving source) where
  open serving use {Serves, read_serves}

  -- Each of the ranges can be opened, and then serves its bytes.
  pub data Opens (parts : List Part) : List Range → List (List ℕ) → Type 0 where
    done : Opens parts [] []
    more :
        (r : Range) (rs : List Range) (bytes : List ℕ) (later : List (List ℕ)) (s : source.State)
        → open_range source parts (some r) ≡ ok s
        → Serves s bytes
        → Opens parts rs later
        → Opens parts (r ∷ rs) (bytes ∷ later)

  -- The reader of the current part serves `now`, and the ranges behind it `later`.
  pub record Live (r : LinearReader source) (now : List ℕ) (later : List (List ℕ)) : Type 0 where
    pub state : source.State
    pub opened : r.reader ≡ some state
    pub serves : Serves state now
    pub counted : r.remaining ≡ pos (length now + length (concat later))
    pub opens : Opens r.parts (drop (suc r.position) r.ranges) later

  -- What a call on a live reader does. `later` gets shorter when a part ends.
  pub data Delivers (room : ℕ) (now : List ℕ) (later : List (List ℕ))
      (out : List ℕ × Option Error × LinearReader source) : Type 0 where
    going :
        (now' : List ℕ) (later' : List (List ℕ))
        → out.1 ≡ none
        → Live out.2 now' later'
        → out.0 ++ (now' ++ concat later') ≡ now ++ concat later
        → (0 < room → length later' < length later + length out.0)
        → length later' ≤ length later
        → Delivers room now later out
    ended : out.1 ≡ some eof → out.0 ≡ now ++ concat later → Delivers room now later out

  -- The next range, when one is left.
  next_range :
      (parts : List Part) (rs : List Range) (i : ℕ) (later : List (List ℕ))
      → Opens parts (drop i rs) later
      → 0 < length (concat later)
      → (r : Range) × (bytes : List ℕ) × (later' : List (List ℕ)) × (s : source.State) × (get_elem?
            rs i
          ≡ some r)
        × (i < length rs)
        × (later ≡ bytes ∷ later')
        × (open_range source parts (some r) ≡ ok s)
        × Serves s bytes
        × Opens parts (drop (suc i) rs) later'
  next_range parts [] zero _ done h = absurd (omega arith)
  next_range parts [] (suc i) _ done h = absurd (omega arith)
  next_range parts (r ∷ rs) zero _ (more _ _ bytes later s e v o) h =
      (r, bytes, later, s, refl, omega arith, refl, e, v, o)
  next_range parts (r ∷ rs) (suc i) later o h =
      let (r', bytes, later', s, g, l, e, f, v, o') = next_range parts rs i later o h in
      (r', bytes, later', s, g, omega arith, e, f, v, o')

  abbrev advanced : LinearReader source → source.State → LinearReader source
  advanced r s = record r { position = r.position + 1; reader = some s }

  -- `moveToNextPart` with bytes left opens the next range.
  move-ok :
      (r : LinearReader source) (later : List (List ℕ))
      → Opens r.parts (drop (suc r.position) r.ranges) later
      → 0 < length (concat later)
      → (bytes : List ℕ) × (later' : List (List ℕ)) × (s : source.State) × (move_to_next_part source
            r
          ≡ (none, advanced r s))
        × (later ≡ bytes ∷ later')
        × Serves s bytes
        × Opens r.parts (drop (suc (r.position + 1)) r.ranges) later'
  unfolding move_to_next_part initialize_reader get_part_reader
  move-ok r later o h =
      let behind : suc r.position ≡ r.position + 1 = omega arith in
      let (range, bytes, later', s, there, l, e, made, v, o') =
        next_range r.parts r.ranges (r.position + 1) later
          (subst (λ i. Opens r.parts (drop i r.ranges) later) behind o) h in
      let inside : ltb (r.position + 1) (length r.ranges) ≡ true = ground arith in
      (bytes, later', s, rw (inside, there, made) refl, e, v, o')

  minus_lem : (k m : ℕ) → m ≤ k → pos k -ℤ pos m ≡ pos (k - m)
  minus_lem k m h = ground arith

  left_over :
      (remaining : ℤ) (now rest : ℕ) (m : ℕ)
      → remaining ≡ pos (now + rest)
      → m ≤ now
      → remaining -ℤ pos m ≡ pos (now - m + rest)
  left_over remaining now rest m e h =
      ap (λ x. x -ℤ pos m) e
      ∙ minus_lem (now + rest) m (omega arith)
      ∙ ap pos (let x : now + rest - m ≡ now - m + rest = omega arith in x)

  no_items : (xs : List ℕ) → length xs ≡ 0 → xs ≡ []
  no_items [] h = refl
  no_items (x ∷ xs) h = absurd (omega arith)

  some_left : (x : ℤ) (n : ℕ) → ltb_ℤ (pos 0) x ≡ true → x ≡ pos n → 0 < n
  some_left (pos k) n h e = ground arith
  some_left (negsuc k) n h e = ground arith

  none_left : (x : ℤ) (n : ℕ) → ltb_ℤ (pos 0) x ≡ false → x ≡ pos n → n ≡ 0
  none_left (pos k) n h e = ground arith
  none_left (negsuc k) n h e = ground arith

  -- The part has ended and bytes are left: the next part is opened.
  moved-Delivers :
      (room : ℕ) (now : List ℕ) (later : List (List ℕ)) (r : LinearReader source)
      → r.remaining ≡ pos (length (concat later))
      → Opens r.parts (drop (suc r.position) r.ranges) later
      → 0 < length (concat later)
      → Delivers room now later (moved source now (move_to_next_part source r))
  moved-Delivers room now later r c o h =
      let (bytes, later', s, e, split, v, o') = move-ok r later o h in
      rw e (
        going bytes later' refl
          (record {
            state = s;
            opened = refl;
            serves = v;
            counted =
                c
                ∙ ap (λ l. pos (length (concat l))) split
                ∙ ap pos (length-append bytes (concat later'));
            opens = o';
          })
          (ap (λ l. now ++ concat l) (sym split)) (λ p. omega (arith, ap length split))
          (omega (arith, ap length split)))

  after_read-Delivers :
      (room : ℕ) (r : LinearReader source) (now : List ℕ) (later : List (List ℕ))
      (out : List ℕ × Option Error × source.State)
      → Live r now later
      → PartStep Serves room now out
      → Delivers room now later (after_read source r out)
  unfolding after_read
  after_read-Delivers room r now later _ v (part out rest s sv e p) =
      let size = length-append out rest in
      going rest later refl
        (record {
          state = s;
          opened = refl;
          serves = sv;
          counted =
              left_over r.remaining (length now) (length (concat later)) (length out) v.counted
                (omega (arith, ap length e))
              ∙ ap pos (
                  let x : length now - length out + length (concat later)
                      ≡ length rest + length (concat later) =
                    omega (arith, ap length e) in
                  x);
          opens = v.opens;
        })
        (sym (append_assoc out rest (concat later)) ∙ ap (λ t. t ++ concat later) e)
        (λ q. omega (arith, p q)) (omega arith)
  after_read-Delivers room r now later _ v (last s) =
      let c =
        left_over r.remaining (length now) (length (concat later)) (length now) v.counted
          (omega arith)
        ∙ ap pos (
            let x : length now - length now + length (concat later) ≡ length (concat later) =
              omega arith in
            x) in
      let r' = record r { reader = some s; remaining = r.remaining -ℤ pos (length now) } in
      elim (Bool-cases (ltb_ℤ (pos 0) (r.remaining -ℤ pos (length now)))) [
        | inl more_left ↦
            rw more_left (moved-Delivers room now later r' c v.opens (some_left _ _ more_left c))
        | inr all ↦ rw all (
            ended refl
              (sym (append-nil now) ∙ ap (λ t. now ++ t) (sym (no_items _ (none_left _ _ all c)))))
      ]

  spent_lem : (x : ℤ) (n : ℕ) → leb_ℤ x (pos 0) ≡ true → x ≡ pos n → n ≡ 0
  spent_lem (pos k) n h e = ground arith
  spent_lem (negsuc k) n h e = ground arith

  -- A call of `Read` on a live reader delivers the next bytes of the range and goes on, if need be
  -- with the next part; or it delivers all that is left of them and io.EOF.
  pub linear_read-Delivers :
      (room : ℕ) (r : LinearReader source) (now : List ℕ) (later : List (List ℕ))
      → Live r now later
      → Delivers room now later (read source room r)
  unfolding read
  linear_read-Delivers room r now later v = elim (Bool-cases (leb_ℤ r.remaining (pos 0))) [
    | inl spent ↦
        let nothing = spent_lem r.remaining _ spent v.counted in
        rw spent (
          ended refl (
            sym (no_items (now ++ concat later) (omega (arith, length-append now (concat later))))))
    | inr more_left ↦
        rw (more_left, v.opened)
          (after_read-Delivers room r now later (source.read_part room v.state) v
            (read_serves room v.state now v.serves))
  ]

abbrev drain_more : List ℕ → List ℕ × Option Error → List ℕ × Option Error
drain_more bs (more_bytes, e) = (bs ++ more_bytes, e)

module _ (source : PartReader) where
  -- io.ReadAll with a buffer of `room` bytes, on fuel.
  unfoldable pub drain : ℕ → ℕ → LinearReader source → List ℕ × Option Error
  drain zero room r = ([], none)
  drain (suc f) room r =
      let (bs, e, r') = read source room r in
      let rest = drain f room r' in elim e [ some x ↦ (bs, some x) | none ↦ drain_more bs rest ]

module _ (source : PartReader) (serving : Serving source) where
  pub drain_lem :
      (f room : ℕ) (r : LinearReader source) (now : List ℕ) (later : List (List ℕ))
      → 0 < room
      → Live source serving r now later
      → length (now ++ concat later) + length later < f
      → drain source f room r ≡ (now ++ concat later, some eof)
  unfolding drain
  drain_lem zero room r now later p v h = absurd (omega arith)
  drain_lem (suc f) room r now later p v h =
      step (read source room r) (linear_read-Delivers source serving room r now later v)
        (λ now' later' v'. drain_lem f room (read source room r).2 now' later' p v')
    where
      step :
          (out : List ℕ × Option Error × LinearReader source)
          → Delivers source serving room now later out
          → ((now' : List ℕ) (later' : List (List ℕ))
              → Live source serving out.2 now' later'
              → length (now' ++ concat later') + length later' < f
              → drain source f room out.2 ≡ (now' ++ concat later', some eof))
          → elim out.1 [
            | some x ↦ (out.0, some x)
            | none ↦ drain_more out.0 (drain source f room out.2)
          ]
            ≡ (now ++ concat later, some eof)
      step (bs, e, r') (ended x b) ih = rw (x, b)
      step (bs, e, r') (going now' later' x v' b q l) ih =
          let shorter : length (now' ++ concat later') + length later' < f =
            omega (arith, ap length b, length-append bs (now' ++ concat later'), q p) in
          rw (x, ih now' later' v' shorter, b)

  -- A fresh reader over ranges that can all be opened.
  pub start-Live :
      (parts : List Part) (r : Range) (rs : List Range) (bytes : List ℕ) (later : List (List ℕ))
      (remaining : ℤ)
      → Opens source serving parts (r ∷ rs) (bytes ∷ later)
      → remaining ≡ pos (length bytes + length (concat later))
      → (made : LinearReader source) × (start_with source parts remaining (some (r ∷ rs)) ≡ ok made)
        × Live source serving made bytes later
  unfolding initialize_reader get_part_reader
  start-Live parts r rs bytes later remaining (more _ _ _ _ s e v o) c =
      let blank : LinearReader source = record {
        parts = parts;
        ranges = r ∷ rs;
        position = 0;
        reader = none;
        remaining = remaining;
      } in
      (
        record blank { reader = some s },
        ap (λ x. ready source (with_reader source blank x)) e,
        record { state = s; opened = refl; serves = v; counted = c; opens = o },
      )
