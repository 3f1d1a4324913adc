-- ===== src/Reader/Multi/Invariant/Moves.antt =====
-- internal/reader/tg_multi_reader.go: each of the changes that the steps make keeps the invariant.
use teldrive_fork.Base.{
  ℕ, ◌+◌, ◌-◌, ◌%◌, ◌≤◌, ◌<◌, ◌≡◌, ◌≢◌, refl, sym, ap, subst, ◌∙◌, ltb, if◌then◌else◌, length-take,
  length-drop, List, [], ◌++◌, take, drop, length, concat, Option, none, some, true, or_else, arith,
  length-append, append_assoc, take-append-drop,
}
use teldrive_fork.Reader.TgReader.{Error, eof, Result, ok, err}
use teldrive_fork.Reader.Multi.{
  window, launched, idle, running, arrived, receiving, System, set_slot, cancel, stop, copied,
  start_system, received, Answer,
}
use teldrive_fork.Reader.Multi.Pieces.{Setting, rest, rest-start}
use teldrive_fork.Reader.Multi.Invariant.{mod_small, Filled, flying, Stands, Full, Inv}
use teldrive_fork.Reader.Multi.Invariant.Slots.{
  fetch-Stands, cancel-Stands, received-Stands, received-error,
}

module _ (g : Setting) where
  open g use {m, start, end, file, inside, made, src, reads}

  pub start-Inv : Inv g [] (start_system m)
  unfolding start_system Stands Full
  start-Inv = record {
    passed = 0;
    bounded = omega arith;
    stands = (refl, refl, λ part a b c. at_start part b);
    bytes = refl;
    counted =
        made.counts
        ∙ (let e : end + 1 - start ≡ length (take (end + 1 - start) (drop start file)) =
              omega
                (arith, length-take (end + 1 - start) (drop start file), length-drop start file) in
            e)
        ∙ ap length (sym (rest-start g));
    room_left = omega arith;
    full = tt;
    not_eof = λ e. cc;
    waits = λ room e. cc;
  }
    where
      at_start :
          (part : ℕ)
          → part < 0 + window m
          → Filled g part
              (if ltb (part % window m) (window m) then running (part % window m) else idle)
      at_start part h =
          let small : ltb part (window m) ≡ true = ground arith in
          rw (mod_small part (window m) (omega arith), small) flying

  pub copied-Inv :
      (out : List ℕ) (room : ℕ) (s : System)
      → Inv g out s
      → Inv g (out ++ take room s.cur) (copied room s)
  unfolding copied
  copied-Inv out room s v =
      let behind = concat s.queue ++ rest g v.passed in
      record {
        passed = v.passed;
        bounded = v.bounded;
        stands = v.stands;
        bytes =
            append_assoc out (take room s.cur) (drop room s.cur ++ behind)
            ∙ ap (λ t. out ++ t)
                (sym (append_assoc (take room s.cur) (drop room s.cur) behind)
                  ∙ ap (λ t. t ++ behind) (take-append-drop room s.cur))
            ∙ v.bytes;
        counted = omega (
          arith,
          v.counted,
          length-append s.cur behind,
          length-append (drop room s.cur) behind,
          length-take room s.cur,
          length-drop room s.cur,
        );
        room_left = v.room_left;
        full = v.full;
        not_eof = v.not_eof;
        waits = λ r e. cc;
      }

  or_else-eof :
      (cause : Option Error) (e : Error)
      → cause ≢ some eof
      → e ≢ eof
      → some (or_else cause e) ≢ some eof
  or_else-eof none e a b h = b (cc h)
  or_else-eof (some c) e a b h = a h

  pub cancel-Inv :
      (out : List ℕ) (e : Error) (s : System) → e ≢ eof → Inv g out s → Inv g out (cancel e s)
  cancel-Inv out e s h v = record {
    passed = v.passed;
    bounded = v.bounded;
    stands = cancel-Stands g v.passed s.slots s.closed s.cause e s.producer v.stands;
    bytes = v.bytes;
    counted = v.counted;
    room_left = v.room_left;
    full = v.full;
    not_eof = or_else-eof s.cause e v.not_eof h;
    waits = v.waits;
  }

  pub stop-Inv :
      (out : List ℕ) (s : System) (v : Inv g out s)
      → (s.cause ≡ none → v.passed ≡ m.total_parts)
      → Inv g out (stop s)
  unfolding Stands
  stop-Inv out s v h = record {
    passed = v.passed;
    bounded = v.bounded;
    stands = (refl, h);
    bytes = v.bytes;
    counted = v.counted;
    room_left = v.room_left;
    full = v.full;
    not_eof = v.not_eof;
    waits = v.waits;
  }

  pub received-ok :
      (out : List ℕ) (part : ℕ) (chunk : List ℕ) (s : System)
      → Inv g out s
      → s.producer ≡ receiving part
      → part < m.total_parts
      → s.slots (part % window m) ≡ arrived (ok chunk)
      → Inv g out (received m part (ok chunk) s)
  unfolding received Stands
  received-ok out part chunk s v p low a =
      let st = subst (Stands g v.passed s.slots s.closed s.cause) p v.stands in
      record {
        passed = v.passed;
        bounded = v.bounded;
        stands = received-Stands g v.passed part chunk s.slots s.closed s.cause st low a;
        bytes = v.bytes;
        counted = v.counted;
        room_left = v.room_left;
        full = v.full;
        not_eof = v.not_eof;
        waits = v.waits;
      }

  -- An error that is received cancels the context.
  pub received_error-Inv :
      (out : List ℕ) (part : ℕ) (e : Error) (s : System)
      → Inv g out s
      → s.producer ≡ receiving part
      → part < m.total_parts
      → s.slots (part % window m) ≡ arrived (err e)
      → Inv g out (received m part (err e) s)
  unfolding received Stands
  received_error-Inv out part e s v p low a =
      let st = subst (Stands g v.passed s.slots s.closed s.cause) p v.stands in
      record {
        passed = v.passed;
        bounded = v.bounded;
        stands = (refl, λ h. cc h);
        bytes = v.bytes;
        counted = v.counted;
        room_left = v.room_left;
        full = v.full;
        not_eof =
            or_else-eof s.cause e v.not_eof
              (received-error g v.passed part e s.slots s.closed s.cause st low a);
        waits = v.waits;
      }

  pub fetch-Inv :
      (out : List ℕ) (i part : ℕ) (answer : Result (List ℕ)) (s : System)
      → Inv g out s
      → s.slots i ≡ running part
      → Answer m src s part answer
      → Inv g out (record s { slots = set_slot s.slots i (arrived (launched m part answer)) })
  fetch-Inv out i part answer s v h a = record {
    passed = v.passed;
    bounded = v.bounded;
    stands = fetch-Stands g s i part v.passed answer s.producer h a v.stands;
    bytes = v.bytes;
    counted = v.counted;
    room_left = v.room_left;
    full = v.full;
    not_eof = v.not_eof;
    waits = v.waits;
  }

  -- `fillBuffer` has passed all on when its loop ends.
  pub finish-passed :
      (out : List ℕ) (part : ℕ) (s : System) (v : Inv g out s)
      → s.producer ≡ receiving part
      → m.total_parts ≤ part
      → v.passed ≡ m.total_parts
  unfolding Stands
  finish-passed out part s v p h =
      let (e, c, w) = subst (Stands g v.passed s.slots s.closed s.cause) p v.stands in
      omega (arith, v.bounded)
