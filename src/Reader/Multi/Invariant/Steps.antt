-- ===== src/Reader/Multi/Invariant/Steps.antt =====
-- internal/reader/tg_multi_reader.go: every step keeps the invariant.
use teldrive_fork.Base.{ℕ, sym, subst, List, [], ◌++◌, none, append-nil}
use teldrive_fork.Reader.TgReader.{ok, err}
use teldrive_fork.Reader.Multi.{
  System, Output, Step, fetch, receive, finish, send, hand_over, leave, read_done, read_current,
  read_wait, take_next, see_closed, see_canceled, close, expire, bytes_of, Run, started, stepped,
  copied, sent, output,
}
use teldrive_fork.Reader.Multi.Pieces.{Setting}
use teldrive_fork.Reader.Multi.Invariant.{Inv}
use teldrive_fork.Reader.Multi.Invariant.Passing.{send-Inv, hand_over-Inv, take_next-Inv}
use teldrive_fork.Reader.Multi.Invariant.Moves.{
  start-Inv, copied-Inv, cancel-Inv, stop-Inv, received-ok, received_error-Inv, fetch-Inv,
  finish-passed,
}

module _ (g : Setting) where
  open g use {m, src}

  -- A step that returns no bytes.
  quiet-Inv : {out : List ℕ} {s : System} → Inv g out s → Inv g (out ++ []) s
  quiet-Inv {out} {s} v = subst (λ t. Inv g t s) (sym (append-nil out)) v

  not_waiting : {out : List ℕ} {s : System} → Inv g out s → Inv g out (record s { waiting = none })
  not_waiting v = record {
    passed = v.passed;
    bounded = v.bounded;
    stands = v.stands;
    bytes = v.bytes;
    counted = v.counted;
    room_left = v.room_left;
    full = v.full;
    not_eof = v.not_eof;
    waits = λ r e. cc e;
  }

  pub Step-Inv :
      {out : List ℕ} {s t : System} {o : Output}
      → Inv g out s
      → Step m src s o t
      → Inv g (out ++ bytes_of m o) t
  unfolding copied output sent
  Step-Inv {out} {s} v (fetch i part answer h a) = quiet-Inv (fetch-Inv g out i part answer s v h a)
  Step-Inv {out} {s} v (receive part (ok chunk) p low a) =
      quiet-Inv (received-ok g out part chunk s v p low a)
  Step-Inv {out} {s} v (receive part (err e) p low a) =
      quiet-Inv (received_error-Inv g out part e s v p low a)
  Step-Inv {out} {s} v (finish part p h) =
      quiet-Inv (stop-Inv g out s v (λ _. finish-passed g out part s v p h))
  Step-Inv {out} {s} v (send part chunk p h) = quiet-Inv (send-Inv g out part chunk s v p h)
  Step-Inv {out} {s} v (hand_over part room chunk p w q) =
      copied-Inv g out room (sent m part (record s { cur = chunk; waiting = none }))
        (hand_over-Inv g out part room chunk s v p w q)
  Step-Inv {out} {s} v (leave p h) = quiet-Inv (stop-Inv g out s v (λ e. absurd (h e)))
  Step-Inv v (read_done w h) = quiet-Inv v
  Step-Inv {out} {s} v (read_current room w h c) = copied-Inv g out room s v
  Step-Inv {out} {s} v (read_wait room w h c) = quiet-Inv (record {
    passed = v.passed;
    bounded = v.bounded;
    stands = v.stands;
    bytes = v.bytes;
    counted = v.counted;
    room_left = v.room_left;
    full = v.full;
    not_eof = v.not_eof;
    waits = λ r e. (c, h);
  })
  Step-Inv {out} {s} v (take_next room chunk queue w q) =
      copied-Inv g out room (record s { cur = chunk; queue = queue; waiting = none })
        (take_next-Inv g out room chunk queue s v w q)
  Step-Inv v (see_closed room w q c) = quiet-Inv (not_waiting v)
  Step-Inv v (see_canceled room e w c) = quiet-Inv (not_waiting v)
  Step-Inv {out} {s} v close = quiet-Inv (cancel-Inv g out _ s (λ e. cc e) v)
  Step-Inv {out} {s} v expire = quiet-Inv (cancel-Inv g out _ s (λ e. cc e) v)

  pub Run-Inv : {out : List ℕ} {s : System} → Run m src out s → Inv g out s
  Run-Inv started = start-Inv g
  Run-Inv (stepped r st) = Step-Inv (Run-Inv r) st
