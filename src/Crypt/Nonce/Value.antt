-- ===== src/Crypt/Nonce/Value.antt =====
-- The nonce as a number below 2 ^ 192: `add` is addition and `increment` adds one, both modulo.
use teldrive_fork.Base.{
  ℕ, zero, suc, ◌+◌, ◌*◌, ◌/◌, ◌%◌, ◌^◌, ◌≤◌, ◌<◌, ◌≡◌, ◌⊎◌, inl, inr, refl, ap, List, [], ◌∷◌,
  ◌++◌, take, drop, length, length-append, length-take, length-drop, take-append-drop, arith,
}
use teldrive_fork.Crypt.Nonce.{Nonce, carry_from, carry, add_loop, add}

abbrev pub IsBytes : List ℕ → Type 0
IsBytes [] = Unit
IsBytes (d ∷ ds) = (d < 256) × IsBytes ds

abbrev pub value : List ℕ → ℕ
value [] = 0
value (d ∷ ds) = d + 256 * value ds

-- 256 ^ n
abbrev pub radix : ℕ → ℕ
radix zero = 1
radix (suc n) = 256 * radix n

pub value-lt-radix : (ds : List ℕ) → IsBytes ds → value ds < radix (length ds)
value-lt-radix [] b = omega arith
value-lt-radix (d ∷ ds) b = omega (arith, value-lt-radix ds b.1)

-- Adding one either fits, or leaves only zeros behind.
carry_from_lem :
    (ds : List ℕ)
    → IsBytes ds
    → IsBytes (carry_from ds)
      × (length (carry_from ds) ≡ length ds)
      × ((value (carry_from ds) ≡ value ds + 1)
          ⊎ ((value (carry_from ds) ≡ 0) × (value ds + 1 ≡ radix (length ds))))
unfolding carry_from
carry_from_lem [] b = (tt, refl, inr (omega arith, omega arith))
carry_from_lem (d ∷ ds) b = ground (arith, carry_from_lem ds b.1)

-- The number grows by `x` and the carry that comes in, and the carry out stands for `radix`.
add_loop_lem :
    (rounds x c : ℕ) (ds : List ℕ)
    → IsBytes ds
    → rounds ≤ length ds
    → c ≤ 1
    → x < radix rounds
    → let (r, c') = add_loop rounds x c ds in
      IsBytes r
      × (length r ≡ length ds)
      × (c' ≤ 1)
      × (value r + c' * radix rounds ≡ value ds + c + x)
unfolding add_loop
add_loop_lem zero x c ds b l hc hx = (b, refl, hc, omega arith)
add_loop_lem (suc k) x c [] b l hc hx = absurd (omega arith)
add_loop_lem (suc k) x c (d ∷ ds) b l hc hx =
    let sum = (c + (d + x % 256)) % 65536 in
    let ih =
      add_loop_lem k (x / 256) (sum / 256) ds b.1 (omega arith) (omega arith) (omega arith) in
    ((omega arith, ih.0), omega (arith, ih.1), ih.2, omega (arith, ih.3))

value-append : (xs ys : List ℕ) → value (xs ++ ys) ≡ value xs + radix (length xs) * value ys
value-append [] ys = omega arith
value-append (x ∷ xs) ys = omega (arith, value-append xs ys)

IsBytes-append : (xs ys : List ℕ) → IsBytes xs → IsBytes ys → IsBytes (xs ++ ys)
IsBytes-append [] ys bx by = by
IsBytes-append (x ∷ xs) ys bx by = (bx.0, IsBytes-append xs ys bx.1 by)

IsBytes-take : (i : ℕ) (xs : List ℕ) → IsBytes xs → IsBytes (take i xs)
IsBytes-take zero xs b = tt
IsBytes-take (suc i) [] b = tt
IsBytes-take (suc i) (x ∷ xs) b = (b.0, IsBytes-take i xs b.1)

IsBytes-drop : (i : ℕ) (xs : List ℕ) → IsBytes xs → IsBytes (drop i xs)
IsBytes-drop zero xs b = b
IsBytes-drop (suc i) [] b = tt
IsBytes-drop (suc i) (x ∷ xs) b = IsBytes-drop i xs b.1

radix-add : (i j : ℕ) → radix (i + j) ≡ radix i * radix j
radix-add zero j = let e : zero + j ≡ j = omega arith in rw e (omega arith)
radix-add (suc i) j =
    let e : suc i + j ≡ suc (i + j) = omega arith in rw e (omega (arith, radix-add i j))

-- A carry past the bytes `xs` adds 256 ^ length xs, unless it runs off the end of `ys`.
carry_from-append :
    (xs ys : List ℕ)
    → IsBytes ys
    → (value (xs ++ carry_from ys) ≡ value (xs ++ ys) + radix (length xs))
      ⊎ (value (xs ++ carry_from ys) + radix (length xs + length ys)
          ≡ value (xs ++ ys) + radix (length xs))
carry_from-append xs ys b = elim (carry_from_lem ys b).2 [
  | inl e ↦ inl (
      omega (
        arith,
        value-append xs ys,
        value-append xs (carry_from ys),
        ap (λ (t : ℕ). radix (length xs) * t) e,
      ))
  | inr (z, e) ↦ inr (
      omega (
        arith,
        value-append xs ys,
        value-append xs (carry_from ys),
        radix-add (length xs) (length ys),
        ap (λ (t : ℕ). radix (length xs) * t) z,
        ap (λ (t : ℕ). radix (length xs) * t) e,
      ))
]

-- A carry into byte `i` of `i + j`.
pub carry_lem :
    (i j : ℕ) (n : Nonce)
    → IsBytes n
    → length n ≡ i + j
    → IsBytes (carry i n)
      × (length (carry i n) ≡ length n)
      × ((value (carry i n) ≡ value n + radix i)
          ⊎ (value (carry i n) + radix (i + j) ≡ value n + radix i))
unfolding carry
carry_lem i j n b l =
    let low : length (take i n) ≡ i = omega (arith, length-take i n) in
    let high : length (drop i n) ≡ j = omega (arith, length-drop i n) in
    let made = carry_from_lem (drop i n) (IsBytes-drop i n b) in
    (
      IsBytes-append (take i n) _ (IsBytes-take i n b) made.0,
      omega (arith, low, high, made.1, length-append (take i n) (carry_from (drop i n))),
      rw (low, high, take-append-drop i n) at
          (carry_from-append (take i n) (drop i n) (IsBytes-drop i n b)),
    )

-- The nonce after `add`, as a number: the sum modulo 2 ^ 192. A nonce that is 24 bytes long stays
-- one.
pub add_lem :
    (n : Nonce) (x : ℕ)
    → IsBytes n
    → length n ≡ 24
    → x < 2 ^ 64
    → IsBytes (add n x) × (length (add n x) ≡ 24) × (value (add n x) ≡ (value n + x) % 2 ^ 192)
unfolding add
add_lem n x b l h =
    let sum = add_loop_lem 8 x 0 n b (omega arith) (omega arith) h in
    let m = (add_loop 8 x 0 n).0 in
    let c = (add_loop 8 x 0 n).1 in
    ground (arith, sum, carry_lem 8 16 m, value-lt-radix m, value-lt-radix (carry 8 m))
