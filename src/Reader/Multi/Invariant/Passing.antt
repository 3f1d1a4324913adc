-- ===== src/Reader/Multi/Invariant/Passing.antt =====
-- internal/reader/tg_multi_reader.go: a buffer that is passed on, by the channel or from it, keeps the invariant.
use teldrive_fork.Base.{
  ℕ, ◌+◌, ◌<◌, ◌≡◌, sym, ap, subst, ◌∙◌, List, [], ◌∷◌, ◌++◌, length, concat, none, some, arith,
  length-append, append_assoc,
}
use mathlib.Core.Path.{ap₂}
use teldrive_fork.Reader.Multi.{sending, System, sent}
use teldrive_fork.Reader.Multi.Pieces.{Setting, piece, rest, piece-rest}
use teldrive_fork.Reader.Multi.Invariant.{concat-snoc, Stands, Full, ahead, Inv}
use teldrive_fork.Reader.Multi.Invariant.Slots.{sent-Stands}

module _ (g : Setting) where
  open g use {m, start, end, file, inside, made, src, reads}

  Full-snoc :
      (queue : List (List ℕ)) (chunk : List ℕ)
      → Full g queue
      → 0 < length chunk
      → Full g (queue ++ (chunk ∷ []))
  unfolding Full
  Full-snoc [] chunk f h = (h, tt)
  Full-snoc (x ∷ xs) chunk f h = (f.0, Full-snoc xs chunk f.1 h)

  -- What is ahead does not change when a part is passed on.
  pass :
      (n : ℕ) (cur : List ℕ) (queue : List (List ℕ)) (chunk : List ℕ)
      → n < m.total_parts
      → chunk ≡ piece g n
      → cur ++ (concat (queue ++ (chunk ∷ [])) ++ rest g (n + 1))
        ≡ cur ++ (concat queue ++ rest g n)
  pass n cur queue chunk h e =
      ap (λ t. cur ++ t)
        (concat-snoc queue chunk (rest g (n + 1))
          ∙ ap (λ t. concat queue ++ (t ++ rest g (n + 1))) e
          ∙ ap (λ t. concat queue ++ t) (piece-rest g n h).0)

  pub send-Inv :
      (out : List ℕ) (part : ℕ) (chunk : List ℕ) (s : System)
      → Inv g out s
      → s.producer ≡ sending part chunk
      → length s.queue < m.buffers
      → Inv g out (sent m part (record s { queue = s.queue ++ (chunk ∷ []) }))
  unfolding sent Stands
  send-Inv out part chunk s v p room =
      let st : Stands g v.passed s.slots s.closed s.cause (sending part chunk) =
        subst (Stands g v.passed s.slots s.closed s.cause) p v.stands in
      let (e, c, b, o, w) = st in
      let same = pass v.passed s.cur s.queue chunk b o in
      record {
        passed = v.passed + 1;
        bounded = omega arith;
        stands = sent-Stands g v.passed part chunk s st;
        bytes = ap (λ t. out ++ t) same ∙ v.bytes;
        counted = v.counted ∙ ap length (sym same);
        room_left = omega (arith, length-append s.queue (chunk ∷ []));
        full =
            Full-snoc s.queue chunk v.full
              (subst (λ t. 0 < length t) (sym o) (piece-rest g v.passed b).1);
        not_eof = v.not_eof;
        waits = v.waits;
      }

  -- A buffer that a waiting `Read` gets from `fillBuffer` itself, and one that it gets from the queue.
  pub hand_over-Inv :
      (out : List ℕ) (part room : ℕ) (chunk : List ℕ) (s : System)
      → Inv g out s
      → s.producer ≡ sending part chunk
      → s.waiting ≡ some room
      → s.queue ≡ []
      → Inv g out (sent m part (record s { cur = chunk; waiting = none }))
  unfolding sent Stands
  hand_over-Inv out part room chunk s v p wt q =
      let st : Stands g v.passed s.slots s.closed s.cause (sending part chunk) =
        subst (Stands g v.passed s.slots s.closed s.cause) p v.stands in
      let (e, c, b, o, w) = st in
      let (empty, limit) = v.waits room wt in
      let same : chunk ++ (concat s.queue ++ rest g (v.passed + 1)) ≡ ahead g v.passed s =
        ap (λ t. chunk ++ (concat t ++ rest g (v.passed + 1))) q
        ∙ ap (λ t. t ++ rest g (v.passed + 1)) o
        ∙ (piece-rest g v.passed b).0
        ∙ ap₂ (λ x y. x ++ (concat y ++ rest g v.passed)) (sym empty) (sym q) in
      record {
        passed = v.passed + 1;
        bounded = omega arith;
        stands = sent-Stands g v.passed part chunk s st;
        bytes = ap (λ t. out ++ t) same ∙ v.bytes;
        counted = v.counted ∙ ap length (sym same);
        room_left = v.room_left;
        full = v.full;
        not_eof = v.not_eof;
        waits = λ r x. cc;
      }

  pub take_next-Inv :
      (out : List ℕ) (room : ℕ) (chunk : List ℕ) (queue : List (List ℕ)) (s : System)
      → Inv g out s
      → s.waiting ≡ some room
      → s.queue ≡ chunk ∷ queue
      → Inv g out (record s { cur = chunk; queue = queue; waiting = none })
  unfolding Full
  take_next-Inv out room chunk queue s v wt q =
      let (empty, limit) = v.waits room wt in
      let r = rest g v.passed in
      let same : chunk ++ (concat queue ++ r) ≡ ahead g v.passed s =
        sym (append_assoc chunk (concat queue) r)
        ∙ ap₂ (λ x y. x ++ (concat y ++ r)) (sym empty) (sym q) in
      record {
        passed = v.passed;
        bounded = v.bounded;
        stands = v.stands;
        bytes = ap (λ t. out ++ t) same ∙ v.bytes;
        counted = v.counted ∙ ap length (sym same);
        room_left = omega (arith, v.room_left, ap length q);
        full = (subst (Full g) q v.full).1;
        not_eof = v.not_eof;
        waits = λ r x. cc;
      }
