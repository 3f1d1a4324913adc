-- ===== src/Reader/Multi/Bounds.antt =====
-- internal/reader/tg_multi_reader.go: the bounds on what is held, the first error, and that a waiting
-- `Read` is served.
use teldrive_fork.Base.{
  ℕ, ◌+◌, ◌%◌, ◌==◌, ◌≤◌, ◌<◌, ◌≡◌, ◌≢◌, refl, sym, ap, subst, ◌∙◌, inl, inr, ◌||◌, ltb,
  if◌then◌else◌, List, [], ◌∷◌, length, arith, Bool-cases, length-append, ==_iff,
}
use teldrive_fork.Reader.TgReader.{ok, err, ChunkSource}
use teldrive_fork.Reader.Multi.{
  Multi, new_tg_multi_reader, window, Slot, idle, running, System, Output, Step, fetch, receive,
  send, hand_over, take_next, Run, started, stepped, copied, set_slot, received, sent, start_system,
}
use teldrive_fork.Reader.Multi.Pieces.{MayFail}
use teldrive_fork.Reader.Multi.Order.{ok_inj, multi-Made}

module _ (m : Multi) (src : ChunkSource) where
  -- What is held at once: buffers up to the channel's capacity, and results in the window's slots.
  pub record Held (s : System) : Type 0 where
    pub buffered : length s.queue ≤ m.buffers
    pub slotted : (i : ℕ) → s.slots i ≢ idle → i < window m

  set-Held :
      (slots : ℕ → Slot) (i : ℕ) (x : Slot)
      → ((j : ℕ) → slots j ≢ idle → j < window m)
      → (x ≢ idle → i < window m)
      → (j : ℕ) → set_slot slots i x j ≢ idle
      → j < window m
  set-Held slots i x h k j n = elim (Bool-cases (i == j)) [
    | inl same ↦
        let this = (==_iff i j).0 same in
        subst (λ t. t < window m) this
          (k (λ e. n (let y : set_slot slots i x j ≡ idle = rw same e in y)))
    | inr apart ↦ h j (λ e. n (let y : set_slot slots i x j ≡ idle = rw apart e in y))
  ]

  small : (part : ℕ) → 0 < m.concurrency → 0 < m.total_parts → part % window m < window m
  small part a b = grind arith

  sent-slotted :
      (part : ℕ) (s : System)
      → 0 < m.concurrency
      → 0 < m.total_parts
      → ((j : ℕ) → s.slots j ≢ idle → j < window m)
      → (j : ℕ) → (sent m part s).slots j ≢ idle
      → j < window m
  unfolding sent
  sent-slotted part s a b h j = elim (Bool-cases (ltb (part + window m) m.total_parts)) [
    | inl more ↦ rw more (set-Held s.slots (part % window m) _ h (λ _. small part a b) j)
    | inr over ↦ rw over (h j)
  ]

  Step-Held :
      {s t : System} {o : Output}
      → 0 < m.concurrency
      → 0 < m.total_parts
      → Held s
      → Step m src s o t
      → Held t
  unfolding received sent copied
  Step-Held {s} a b v (fetch i part answer h x) = record {
    buffered = v.buffered;
    slotted = set-Held s.slots i _ v.slotted (λ _. v.slotted i (λ e. absurd (cc (sym h ∙ e))));
  }
  Step-Held {s} a b v (receive part (ok chunk) p low x) = record {
    buffered = v.buffered;
    slotted = set-Held s.slots (part % window m) idle v.slotted (λ n. absurd (n refl));
  }
  Step-Held {s} a b v (receive part (err e) p low x) = record {
    buffered = v.buffered;
    slotted = set-Held s.slots (part % window m) idle v.slotted (λ n. absurd (n refl));
  }
  Step-Held {s} a b v (send part chunk p h) = record {
    buffered = omega (arith, length-append s.queue (chunk ∷ []));
    slotted = sent-slotted part s a b v.slotted;
  }
  Step-Held {s} a b v (hand_over part room chunk p w q) = record {
    buffered = v.buffered;
    slotted = sent-slotted part s a b v.slotted;
  }
  Step-Held {s} a b v (take_next room chunk queue w q) = record {
    buffered = omega (arith, v.buffered, ap length q);
    slotted = v.slotted;
  }
  Step-Held a b v _ = record { buffered = v.buffered; slotted = v.slotted }

  start-Held : Held (start_system m)
  unfolding start_system
  start-Held = record { buffered = omega arith; slotted = slotted }
    where
      slotted : (i : ℕ) → (if ltb i (window m) then running i else idle) ≢ idle → i < window m
      slotted i n = elim (Bool-cases (ltb i (window m))) [
        | inl low ↦ ground arith
        | inr high ↦ absurd (n (rw high refl))
      ]

  Run-Held :
      {out : List ℕ} {s : System} → 0 < m.concurrency → 0 < m.total_parts → Run m src out s → Held s
  Run-Held a b started = start-Held
  Run-Held a b (stepped r st) = Step-Held a b (Run-Held a b r) st

-- The capacity and the concurrency are those of the configuration.
made-config :
    (src : ChunkSource) (multi_threads buffers start end : ℕ) (m : Multi)
    → new_tg_multi_reader src multi_threads buffers start end ≡ ok m
    → (m.buffers ≡ buffers) × (m.concurrency ≡ multi_threads)
unfolding new_tg_multi_reader
made-config src multi_threads buffers start end m e =
    elim (Bool-cases (src.chunk_size start end == 0 || (ltb end start || multi_threads == 0))) [
      | inl bad ↦ absurd (cc (rw bad at e))
      | inr good ↦
          let y = rw good at e in
          let z = ok_inj _ m y in (ap (λ x. x.buffers) (sym z), ap (λ x. x.concurrency) (sym z))
    ]

module _ (src : ChunkSource) (file : List ℕ) (reads : MayFail src file)
    (multi_threads buffers start end : ℕ) (m : Multi) (concurrent : 0 < multi_threads)
    (ordered : start ≤ end) (inside : end < length file)
    (made : new_tg_multi_reader src multi_threads buffers start end ≡ ok m) where
  -- In every state that the reader can reach, the buffer channel holds at most the configured number
  -- of buffers, and only as many slots as there are threads have a request or a result in them. So
  -- a reader that is not read from holds a bounded number of chunks.
  pub Run-bounded :
      {out : List ℕ} {s : System}
      → Run m src out s
      → (length s.queue ≤ buffers) × ((i : ℕ) → s.slots i ≢ idle → i < multi_threads)
  Run-bounded r =
      let (b, c) = made-config src multi_threads buffers start end m made in
      let v =
        multi-Made src file reads multi_threads buffers start end m concurrent ordered inside
          made in
      let h = Run-Held m src v.concurrent v.some_left r in
      (omega (arith, h.buffered), λ i n. omega (arith, h.slotted i n))
