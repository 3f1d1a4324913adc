-- ===== src/Reader/Multi/Order.antt =====
-- internal/reader/tg_multi_reader.go: what the calls of `Read` return, in whichever order the
-- goroutines run and the chunks arrive.
use teldrive_fork.Base.{
  ℕ, ◌+◌, ◌-◌, ◌==◌, ◌≤◌, ◌<◌, ◌≡◌, refl, sym, ap, subst, ◌∙◌, inl, inr, ◌⊎◌, if◌then◌else◌, List,
  [], ◌∷◌, ◌++◌, take, drop, length, concat, Option, none, some, Bool, true, false, or_else, arith,
  append-nil, ==_iff,
}
use mathlib.Core.Path.{ap₂}
use teldrive_fork.Reader.TgReader.{Error, eof, abandoned, ok, ChunkSource}
use teldrive_fork.Reader.Multi.{
  Multi, new_tg_multi_reader, Slot, Producer, receiving, sending, stopped, System, Output, returned,
  output, Step, hand_over, read_done, read_current, take_next, see_closed, see_canceled, Run,
  copied, sent,
}
use teldrive_fork.Reader.Multi.Pieces.{
  MayFail, Setting, Made, rest, rest-start, rest-end, new_tg_multi_reader-Made,
}
use teldrive_fork.Reader.Multi.Invariant.{Inv, Stands, ahead}
use teldrive_fork.Reader.Multi.Invariant.Steps.{Step-Inv, Run-Inv}

no_items : (xs : List ℕ) → length xs ≡ 0 → xs ≡ []
no_items [] h = refl
no_items (x ∷ xs) h = absurd (omega arith)

some_chosen :
    (b : Bool) (e : Error) → (if b then some eof else none) ≡ some e → (b ≡ true) × (e ≡ eof)
some_chosen true e h = (refl, sym (cc h))
some_chosen false e h = absurd (cc h)

pub ok_inj : (a b : Multi) → ok a ≡ ok b → a ≡ b
ok_inj a b h = cc h

returned_error : (a b : List ℕ) (x y : Option Error) → returned a x ≡ returned b y → x ≡ y
returned_error a b x y h = cc h

-- A copy that reports an error has counted the limit down.
output-error :
    (room : ℕ) (s : System) (bytes : List ℕ) (e : Error)
    → output room s ≡ returned bytes (some e)
    → (e ≡ eof) × ((copied room s).limit ≡ 0)
unfolding output copied
output-error room s bytes e h =
    let (last, it) =
      some_chosen (s.limit - length (take room s.cur) == 0) e
        (returned_error _ bytes _ (some e) h) in
    (it, (==_iff _ 0).0 last)

-- The error that ends a `Read`, of a state with an invariant.
module _ (g : Setting) where
  open g use {m, src}

  closed-passed :
      (n : ℕ) (slots : ℕ → Slot) (closed : Bool) (cause : Option Error) (pc : Producer)
      → Stands g n slots closed cause pc
      → closed ≡ true
      → cause ≡ none
      → n ≡ m.total_parts
  unfolding Stands
  closed-passed n slots closed cause (receiving part) st c h = absurd (cc (sym c ∙ st.1))
  closed-passed n slots closed cause (sending part chunk) st c h = absurd (cc (sym c ∙ st.1))
  closed-passed n slots closed cause stopped st c h = st.1 h

  -- With all passed on and nothing buffered, nothing is left.
  pub nothing_left :
      {out : List ℕ} {s : System} (v : Inv g out s)
      → v.passed ≡ m.total_parts
      → s.cur ≡ []
      → s.queue ≡ []
      → s.limit ≡ 0
  nothing_left {s = s} v p c q =
      v.counted
      ∙ ap length (ap₂ (λ x y. x ++ (concat y ++ rest g v.passed)) c q)
      ∙ ap length (rest-end g v.passed (omega arith))

  closed_error :
      {out : List ℕ} {s : System} (room : ℕ)
      → Inv g out s
      → s.waiting ≡ some room
      → s.queue ≡ []
      → s.closed ≡ true
      → (c : Option Error) → s.cause ≡ c
      → c ≡ some (or_else c abandoned)
  closed_error room v w q c (some e) h = refl
  closed_error {s = s} room v w q c none h =
      let (empty, left) = v.waits room w in
      let all = closed-passed v.passed s.slots s.closed s.cause s.producer v.stands c h in
      absurd (omega (arith, nothing_left v all empty q))

  pub error_of :
      {out : List ℕ} {s t : System} {o : Output} (bytes : List ℕ) (e : Error)
      → Inv g out s
      → Step m src s o t
      → o ≡ returned bytes (some e)
      → ((e ≡ eof) × (t.limit ≡ 0)) ⊎ (s.cause ≡ some e)
  unfolding copied sent
  error_of bytes e v (read_done w h) x = inl (sym (cc (returned_error [] bytes _ _ x)), h)
  error_of {s = s} bytes e v (read_current room w h c) x = inl (output-error room s bytes e x)
  error_of {s = s} bytes e v (hand_over part room chunk p w q) x =
      inl (output-error room (record s { cur = chunk }) bytes e x)
  error_of {s = s} bytes e v (take_next room chunk queue w q) x =
      inl (output-error room (record s { cur = chunk }) bytes e x)
  error_of {s = s} bytes e v (see_closed room w q c) x =
      inr (closed_error room v w q c s.cause refl ∙ returned_error [] bytes _ _ x)
  error_of bytes e v (see_canceled room e' w c) x = inr (c ∙ returned_error [] bytes _ _ x)
  error_of bytes e v _ x = absurd (cc x)

module _ (src : ChunkSource) (file : List ℕ) (reads : MayFail src file)
    (multi_threads buffers start end : ℕ) (m : Multi) (concurrent : 0 < multi_threads)
    (ordered : start ≤ end) (inside : end < length file)
    (made : new_tg_multi_reader src multi_threads buffers start end ≡ ok m) where
  pub multi-Made : Made m start end
  multi-Made =
      let (m', e, v) =
        new_tg_multi_reader-Made src multi_threads buffers start end (reads.positive start end)
          concurrent ordered in
      subst (λ x. Made x start end) (ok_inj m' m (sym e ∙ made)) v

  abbrev pub setting : Setting
  setting = record {
    m = m;
    start = start;
    end = end;
    file = file;
    inside = inside;
    made = multi-Made;
    src = src;
    reads = reads;
  }

  abbrev range : List ℕ
  range = take (end + 1 - start) (drop start file)

  -- The reader of a range inside the file, over a source whose chunks may fail or be cut short: in
  -- every state that it can reach, whichever order the goroutines run and the chunks arrive in,
  -- whatever times out and whenever the context is canceled, the bytes that the
  -- calls of `Read` have returned are the first bytes of the range, in order.
  pub Run-prefix :
      {out : List ℕ} {s : System} → Run m src out s → (later : List ℕ) × (out ++ later ≡ range)
  Run-prefix {s = s} r =
      let v = Run-Inv setting r in (ahead setting v.passed s, v.bytes ∙ rest-start setting)

  pub Step-error :
      {out bytes : List ℕ} {s t : System} {e : Error}
      → Run m src out s
      → Step m src s (returned bytes (some e)) t
      → ((e ≡ eof) × (out ++ bytes ≡ range)) ⊎ (s.cause ≡ some e)
  Step-error {out} {bytes} {s} {t} {e} r st =
      let v = Run-Inv setting r in
      let w = Step-Inv setting v st in
      elim (error_of setting bytes e v st refl) [
        | inr cause ↦ inr cause
        | inl (it, spent) ↦ inl (
          it,
          sym (append-nil (out ++ bytes))
              ∙ ap (λ t. (out ++ bytes) ++ t)
                  (sym (no_items (ahead setting w.passed t) (sym w.counted ∙ spent)))
              ∙ w.bytes
              ∙ rest-start setting,
        )
      ]
