-- ===== src/Crypt/Io/Fill.antt =====
-- What `readFill` delivers does not depend on how the reader cuts its bytes.
use teldrive_fork.Base.{
  Bool, true, ◌&&◌, ◌⊎◌, subst, ==_iff, drop_all, ℕ, zero, suc, ◌+◌, ◌-◌, ◌==◌, ◌≤◌, ◌<◌, ◌≡◌, refl,
  sym, ap, ◌∙◌, inl, inr, leb, List, [], ◌∷◌, ◌++◌, take, drop, length, concat, Option, none, some,
  arith, Bool-cases, leb→le, not-leb→lt, take_all, take-append_left, drop-append_left,
  take-append_right, drop-append_right, length-append, length-take, append-nil, false,
}
use teldrive_fork.Crypt.Io.{Error, Source, read, fill, read_fill, contents}

-- No error where the buffer is full; the reader's error where it has no more, which with a full
-- buffer is only seen if the error comes with the last bytes.
pub data Failure (room : ℕ) (s : Source) : Option Error → Type 0 where
  filled : room ≤ length (contents s) → Failure room s none
  ended :
      length (contents s) ≤ room
      → (length (contents s) < room) ⊎ (s.with_last ≡ true)
      → Failure room s (some s.end)

-- The result that is wanted of a call on `s`.
pub record Fills (room : ℕ) (s : Source) (r : List ℕ × Option Error × Source) : Type 0 where
  pub bytes : r.0 ≡ take room (contents s)
  pub failure : Failure room s r.1
  pub left : contents r.2 ≡ drop room (contents s)
  pub same_end : r.2.end ≡ s.end

-- With nothing left there is always the error.
pub no_more-Failure :
    (room : ℕ) (s : Source) (x : Option Error)
    → 0 < room
    → contents s ≡ []
    → Failure room s x
    → x ≡ some s.end
no_more-Failure room s _ p h (filled l) = absurd (omega (arith, ap length h))
no_more-Failure room s _ p h (ended l w) = refl

fill-zero : (fuel : ℕ) (s : Source) → fill fuel 0 s ≡ ([], none, s)
unfolding fill
fill-zero zero s = refl
fill-zero (suc f) s = refl

more-Failure :
    (room : ℕ) (c : List ℕ) (cs : List (List ℕ)) (e : Error) (early : Bool) (x : Option Error)
    → length c ≤ room
    → Failure (room - length c) (record { pieces = cs; end = e; with_last = early }) x
    → Failure room (record { pieces = c ∷ cs; end = e; with_last = early }) x
more-Failure room c cs e early _ h (filled l) = filled (omega (arith, length-append c (concat cs)))
more-Failure room c cs e early _ h (ended l (inl m)) =
    ended (omega (arith, length-append c (concat cs)))
      (inl (omega (arith, length-append c (concat cs))))
more-Failure room c cs e early _ h (ended l (inr w)) =
    ended (omega (arith, length-append c (concat cs))) (inr w)

-- A piece that fits is taken whole, and the loop goes on behind it.
whole :
    (room : ℕ) (c : List ℕ) (cs : List (List ℕ)) (e : Error) (early : Bool)
    (r : List ℕ × Option Error × Source)
    → length c ≤ room
    → Fills (room - length c) (record { pieces = cs; end = e; with_last = early }) r
    → Fills room (record { pieces = c ∷ cs; end = e; with_last = early }) (c ++ r.0, r.1, r.2)
whole room c cs e early r h v = record {
  bytes =
      ap (λ t. c ++ t) v.bytes
      ∙ sym (
          append_part (λ k. take k (c ++ concat cs))
            (take-append_right (length c) (room - length c) c (concat cs) refl));
  failure = more-Failure room c cs e early r.1 h v.failure;
  left =
      v.left
      ∙ sym (
          append_part (λ k. drop k (c ++ concat cs))
            (drop-append_right (length c) (room - length c) c (concat cs) refl));
  same_end = v.same_end;
}
  where
    append_part : {t : List ℕ} (g : ℕ → List ℕ) → g (length c + (room - length c)) ≡ t → g room ≡ t
    append_part g eq = ap g (let k : room ≡ length c + (room - length c) = omega arith in k) ∙ eq

full : (room : ℕ) (c : List ℕ) → room < length c → room - length (take room c) ≡ 0
full room c h = omega (arith, length-take room c)

nonzero : (n : ℕ) → (suc n == 0) ≡ false
nonzero n = ground arith

-- A longer piece fills the buffer and stays for the next call.
part :
    (room : ℕ) (c : List ℕ) (cs : List (List ℕ)) (e : Error) (early : Bool)
    → room < length c
    → Fills room
        (record { pieces = c ∷ cs; end = e; with_last = early })
        (take room c ++ [], none, record { pieces = drop room c ∷ cs; end = e; with_last = early })
part room c cs e early h = record {
  bytes = append-nil _ ∙ sym (take-append_left room c (concat cs) (omega arith));
  failure = filled (omega (arith, length-append c (concat cs)));
  left = sym (drop-append_left room c (concat cs) (omega arith));
  same_end = refl;
}

-- The error with the last bytes, where these fit.
last :
    (room : ℕ) (c : List ℕ) (cs : List (List ℕ)) (e : Error)
    → length c ≤ room
    → length cs ≡ 0
    → Fills room
        (record { pieces = c ∷ cs; end = e; with_last = true })
        (c, some e, record { pieces = cs; end = e; with_last = true })
last room c [] e h n = record {
  bytes = sym (take_all room (c ++ []) (omega (arith, length-append c [])) ∙ append-nil c);
  failure = ended (omega (arith, length-append c [])) (inr refl);
  left = sym (drop_all room (c ++ []) (omega (arith, length-append c [])));
  same_end = refl;
}
last room c (d ∷ cs) e h n = absurd (omega arith)

early_is : (a b : Bool) → (a && b) ≡ true → (a ≡ true) × (b ≡ true)
early_is true b h = (refl, h)
early_is false b h = absurd (cc h)

fill-Fills :
    (fuel room : ℕ) (cs : List (List ℕ)) (e : Error) (early : Bool)
    → length cs + 1 < fuel
    → Fills room
        (record { pieces = cs; end = e; with_last = early })
        (fill fuel room (record { pieces = cs; end = e; with_last = early }))
unfolding fill read
fill-Fills zero room cs e early h = absurd (omega arith)
fill-Fills (suc f) zero cs e early h = record {
  bytes = refl;
  failure = filled (omega arith);
  left = refl;
  same_end = refl;
}
fill-Fills (suc f) (suc room) [] e early h = rw (nonzero room) (record {
  bytes = refl;
  failure = ended (omega arith) (inl (omega arith));
  left = refl;
  same_end = refl;
})
fill-Fills (suc f) (suc room) (c ∷ cs) e early h =
    elim (Bool-cases (early && (length cs == 0 && leb (length c) (suc room)))) [
      | inl now ↦
          let (comes, fits) = early_is early _ now in
          let (final, short) = early_is (length cs == 0) _ fits in
          rw (nonzero room, now, short, take_all (suc room) c (leb→le _ _ short))
            (subst
              (λ b.
                Fills (suc room) (record { pieces = c ∷ cs; end = e; with_last = b })
                  (c, some e, record { pieces = cs; end = e; with_last = b }))
              (sym comes) (last (suc room) c cs e (leb→le _ _ short) ((==_iff _ 0).0 final)))
      | inr later ↦ elim (Bool-cases (leb (length c) (suc room))) [
        | inl short ↦
            rw (nonzero room, later, short, take_all (suc room) c (leb→le _ _ short))
              (whole (suc room) c cs e early _ (leb→le _ _ short)
                (fill-Fills f (suc room - length c) cs e early (omega arith)))
        | inr long ↦
            rw (nonzero room, later, long, full (suc room) c (not-leb→lt _ _ long), fill-zero)
              (part (suc room) c cs e early (not-leb→lt _ _ long))
      ]
    ]

-- `readFill` fills the buffer with what the reader has left, and leaves the rest. It fails with the
-- reader's error if that is less than the buffer holds, does not fail if it is more, and if it fills
-- the buffer exactly, fails at most for a reader that gives its error together with its last bytes.
-- How the reader cuts its bytes into calls makes no other difference.
pub read_fill-Fills : (room : ℕ) (s : Source) → Fills room s (read_fill room s)
unfolding read_fill
read_fill-Fills room s =
    fill-Fills (length s.pieces + 2) room s.pieces s.end s.with_last (omega arith)
