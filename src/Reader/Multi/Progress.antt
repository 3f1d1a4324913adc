-- ===== src/Reader/Multi/Progress.antt =====
-- internal/reader/tg_multi_reader.go: a waiting `Read` is served, and the first error is the one reported.
use teldrive_fork.Base.{
  ℕ, suc, ◌+◌, ◌-◌, ◌%◌, ◌==◌, ◌≤◌, ◌<◌, ◌≡◌, ◌≢◌, refl, sym, ap, subst, ◌∙◌, inl, inr, ◌⊎◌, List,
  [], ◌∷◌, ◌++◌, take, drop, length, Option, none, some, true, arith, length-take, ==_iff,
}
use native.Mathlib.Decide.{dec_lt}
use teldrive_fork.Reader.TgReader.{Error, eof, ok, err, ChunkSource}
use teldrive_fork.Reader.TgReader.Invariant.{Reads}
use teldrive_fork.Reader.Multi.{
  Multi, new_tg_multi_reader, window, Slot, arrived, Producer, receiving, sending, stopped, System,
  Output, quiet, returned, output, answered, expired, dropped, Step, fetch, receive, hand_over,
  take_next, close, expire, Run, copied, received, sent,
}
use teldrive_fork.Reader.Multi.Pieces.{
  MayFail, Reads-MayFail, Setting, piece, piece-rest, launched-piece,
}
use teldrive_fork.Reader.Multi.Invariant.{Inv, Stands, Filled, flying, landed, Full}
use teldrive_fork.Reader.Multi.Invariant.Steps.{Run-Inv}
use teldrive_fork.Reader.Multi.Order.{nothing_left, setting, Step-error}

-- The context's cause is the first one.
pub Step-cause :
    (m : Multi) (src : ChunkSource) {s t : System} {o : Output} (e : Error)
    → s.cause ≡ some e
    → Step m src s o t
    → t.cause ≡ some e
unfolding received sent copied
Step-cause m src e h (receive part (ok chunk) p low x) = h
Step-cause m src e h (receive part (err f) p low x) = rw h refl
Step-cause m src e h close = rw h refl
Step-cause m src e h expire = rw h refl
Step-cause m src e h (hand_over part room chunk p w q) = h
Step-cause m src e h (take_next room chunk queue w q) = h
Step-cause m src e h _ = h

-- The steps that neither cancel nor time out.
unfoldable pub Calm :
    (m : Multi) (src : ChunkSource) {s t : System} {o : Output} → Step m src s o t → Type 0
Calm m src (fetch i part _ h answered) = Unit
Calm m src (fetch i part _ h expired) = ⊥
Calm m src (fetch i part _ h (dropped c)) = ⊥
Calm m src close = ⊥
Calm m src expire = ⊥
Calm m src _ = Unit

module _ (m : Multi) (src : ChunkSource) where
  -- In at most so many steps, none of which cancels or times out, `Read` returns at least one byte.
  pub data Served : ℕ → System → Type 0 where
    here :
        {n : ℕ} {s t : System} {bytes : List ℕ} {e : Option Error}
        → Step m src s (returned bytes e) t
        → 0 < length bytes
        → Served (suc n) s
    behind :
        {n : ℕ} {s t : System} (st : Step m src s quiet t)
        → Calm m src st
        → Served n t
        → Served (suc n) s

  -- No request has failed yet.
  abbrev pub Clean : System → Type 0
  Clean s = (i : ℕ) (e : Error) → s.slots i ≢ arrived (err e)

module _ (g : Setting) (full_reads : Reads g.src g.file) where
  open g use {m, src, made}

  hand_over-Served :
      {n : ℕ} (part room : ℕ) (chunk : List ℕ) (s : System)
      → s.producer ≡ sending part chunk
      → s.waiting ≡ some room
      → s.queue ≡ []
      → 0 < room
      → 0 < length chunk
      → Served m src (suc n) s
  unfolding output
  hand_over-Served part room chunk s p w q r h =
      here (hand_over part room chunk p w q) (omega (arith, length-take room chunk))

  receive-Served :
      {n : ℕ} (part room : ℕ) (s : System)
      → s.producer ≡ receiving part
      → s.waiting ≡ some room
      → s.queue ≡ []
      → 0 < room
      → part < m.total_parts
      → s.slots (part % window m) ≡ arrived (ok (piece g part))
      → Served m src (suc (suc n)) s
  unfolding received Calm
  receive-Served part room s p w q r low a = behind (receive part (ok (piece g part)) p low a) tt (
      hand_over-Served part room (piece g part) (received m part (ok (piece g part)) s) refl w q r
        (piece-rest g part low).1)

  fetch-Served :
      (part room : ℕ) (s : System)
      → s.producer ≡ receiving part
      → s.waiting ≡ some room
      → s.queue ≡ []
      → 0 < room
      → part < m.total_parts
      → Clean m src s
      → (x : Slot) → s.slots (part % window m) ≡ x
      → Filled g part x
      → Served m src 3 s
  unfolding Calm
  fetch-Served part room s p w q r low c _ a flying =
      let now = launched-piece g part full_reads low in
      behind (fetch (part % window m) part _ a answered) tt (
        receive-Served part room _ p w q r low (
          let e : (part % window m == part % window m) ≡ true = (==_iff _ _).1 refl in
          rw (e, now) refl))
  fetch-Served part room s p w q r low c _ a (landed (ok chunk) h n) =
      receive-Served part room s p w q r low (a ∙ ap (λ t. arrived (ok t)) (h chunk refl))
  fetch-Served part room s p w q r low c _ a (landed (err e) h n) = absurd (c (part % window m) e a)

  queue-Served :
      {n : ℕ} (room : ℕ) (s : System) (queue : List (List ℕ)) {out : List ℕ} (v : Inv g out s)
      → s.waiting ≡ some room
      → 0 < room
      → s.queue ≡ queue
      → (s.queue ≡ [] → Served m src (suc n) s)
      → Served m src (suc n) s
  unfolding Full output
  queue-Served room s [] v w r e h = h e
  queue-Served room s (chunk ∷ queue) v w r e h =
      let full = subst (Full g) e v.full in
      here (take_next room chunk queue w e) (omega (arith, full.0, length-take room chunk))

  not_all :
      {out : List ℕ} (room : ℕ) (s : System) (v : Inv g out s)
      → s.waiting ≡ some room
      → s.queue ≡ []
      → v.passed < m.total_parts
  not_all room s v w q = elim (dec_lt v.passed m.total_parts) [
    | yes low ↦ low
    | no all ↦
        let (empty, left) = v.waits room w in
        absurd (omega (arith, v.bounded, nothing_left g v (omega (arith, v.bounded)) empty q))
  ]

  producer-Served :
      {out : List ℕ} (room : ℕ) (s : System) (v : Inv g out s) (pc : Producer)
      → s.producer ≡ pc
      → Stands g v.passed s.slots s.closed s.cause pc
      → s.waiting ≡ some room
      → 0 < room
      → s.queue ≡ []
      → s.cause ≡ none
      → Clean m src s
      → Served m src 3 s
  unfolding Stands
  producer-Served room s v (receiving part) p (e, c, w) wt r q no_cause clean =
      let low : v.passed < m.total_parts = not_all room s v wt q in
      fetch-Served part room s p wt q r (omega arith) clean _ refl (
        subst (λ t. Filled g t (s.slots (t % window m))) (sym e)
          (w v.passed (omega arith) (omega (arith, made.some_left, made.concurrent)) low))
  producer-Served room s v (sending part chunk) p (e, c, b, o, w) wt r q no_cause clean =
      hand_over-Served part room chunk s p wt q r
        (subst (λ t. 0 < length t) (sym o) (piece-rest g v.passed b).1)
  producer-Served room s v stopped p (c, h) wt r q no_cause clean =
      absurd (omega (arith, not_all room s v wt q, h no_cause))

-- The steps from one state to another.
pub data Later (m : Multi) (src : ChunkSource) (s : System) : System → Type 0 where
  same : Later m src s s
  next : {t u : System} {o : Output} → Later m src s t → Step m src t o u → Later m src s u

Later-cause :
    (m : Multi) (src : ChunkSource) {s t : System} (e : Error)
    → s.cause ≡ some e
    → Later m src s t
    → t.cause ≡ some e
Later-cause m src e h same = h
Later-cause m src e h (next l st) = Step-cause m src e (Later-cause m src e h l) st

module _ (src : ChunkSource) (file : List ℕ) (reads : Reads src file)
    (multi_threads buffers start end : ℕ) (m : Multi) (concurrent : 0 < multi_threads)
    (ordered : start ≤ end) (inside : end < length file)
    (made : new_tg_multi_reader src multi_threads buffers start end ≡ ok m) where
  abbrev here_is : Setting
  here_is =
      setting src file (Reads-MayFail src file reads) multi_threads buffers start end m concurrent
        ordered inside made

  -- The reader of a range inside the file, in every state that it can reach: a call of `Read` that
  -- waits for bytes, with room for one at least, while nothing is canceled and no request has
  -- failed, can be served. At most three steps of the goroutines, none of which cancels or times
  -- out, lead to its return with a byte at least. So the reader never deadlocks.
  pub Run-Served :
      {out : List ℕ} {s : System} (room : ℕ)
      → Run m src out s
      → s.waiting ≡ some room
      → 0 < room
      → s.cause ≡ none
      → Clean m src s
      → Served m src 3 s
  Run-Served {s = s} room r w p c clean =
      let v = Run-Inv here_is r in
      queue-Served here_is reads room s s.queue v w p refl
        (λ q. producer-Served here_is reads room s v s.producer refl v.stands w p q c clean)

module _ (src : ChunkSource) (file : List ℕ) (reads : MayFail src file)
    (multi_threads buffers start end : ℕ) (m : Multi) (concurrent : 0 < multi_threads)
    (ordered : start ≤ end) (inside : end < length file)
    (made : new_tg_multi_reader src multi_threads buffers start end ≡ ok m) where
  -- The first error wins. Once the context is canceled, by a chunk that failed, by `Close` or by a
  -- time limit, a call of `Read` that returns an error at any later time returns that first cause,
  -- or io.EOF when the calls have returned the whole range.
  pub Later-first_error :
      {out bytes : List ℕ} {s t u : System} (e : Error) {f : Error}
      → s.cause ≡ some e
      → Later m src s t
      → Run m src out t
      → Step m src t (returned bytes (some f)) u
      → ((f ≡ eof) × (out ++ bytes ≡ take (end + 1 - start) (drop start file))) ⊎ (f ≡ e)
  Later-first_error e {f} h l r st =
      elim (Step-error src file reads multi_threads buffers start end m concurrent ordered inside
        made r st) [ inl x ↦ inl x | inr x ↦ let y = sym x ∙ Later-cause m src e h l in inr (cc y) ]
