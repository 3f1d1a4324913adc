-- ===== src/Crypt/Io.antt =====
-- internal/crypt/cipher.go: its errors, and `readFill` over any io.Reader.
pub mod Fill
use teldrive_fork.Base.{
  ℕ, zero, suc, ◌+◌, ◌-◌, ◌==◌, leb, if◌then◌else◌, List, [], ◌∷◌, ◌++◌, take, drop, length, concat,
  Option, none, some, Bool, ◌&&◌,
}

-- The error variables and the errors made in place; `foreign` is one of a callee.
pub data Error : Type 0 where
  eof file_closed encrypted_file_too_short encrypted_file_bad_header encrypted_bad_magic bad_seek :
      Error
  cannot_seek only_from_start short_buffer short_nonce_nil : Error
  short_nonce : Error → Error
  reopen : Error → Error
  foreign : ℕ → Error

pub data Result {ℓ} (A : Type ℓ) : Type ℓ where
  ok : A → Result A
  err : Error → Result A

-- An io.Reader: what its calls can deliver at most, one piece a call, and the error behind the
-- last piece, or with it where `with_last` holds. A piece longer than the buffer is delivered over
-- several calls.
pub record Source : Type 0 where
  pub pieces : List (List ℕ)
  pub end : Error
  pub with_last : Bool

read_pieces : ℕ → Bool → List (List ℕ) → Error → List ℕ × Option Error × Source
read_pieces room early [] e = ([], some e, record { pieces = []; end = e; with_last = early })
read_pieces room early (c ∷ cs) e = (
  take room c,
  if early && (length cs == 0 && leb (length c) room) then some e else none,
  record {
    pieces = if leb (length c) room then cs else drop room c ∷ cs;
    end = e;
    with_last = early;
  },
)

-- `r.Read(p)` for a buffer of `room` bytes.
unfoldable pub read : ℕ → Source → List ℕ × Option Error × Source
unfolding read_pieces
read room s = read_pieces room s.with_last s.pieces s.end

abbrev fill_more : List ℕ → List ℕ × Option Error × Source → List ℕ × Option Error × Source
fill_more bs (more, e, s) = (bs ++ more, e, s)

-- The loop of `readFill`, on fuel.
unfoldable pub fill : ℕ → ℕ → Source → List ℕ × Option Error × Source
fill zero room s = ([], none, s)
fill (suc fuel) room s =
    let (bs, e, s') = read room s in
    let rest = fill fuel (room - length bs) s' in
    if room == 0
    then ([], none, s)
    else elim e [ none ↦ fill_more bs rest | some x ↦ (bs, some x, s') ]

-- `readFill`: each round but the last two uses up a piece, so the fuel is enough.
unfoldable pub read_fill : ℕ → Source → List ℕ × Option Error × Source
unfolding fill
read_fill room s = fill (length s.pieces + 2) room s

-- All that a reader has left to deliver.
abbrev pub contents : Source → List ℕ
contents s = concat s.pieces
