-- ===== src/Crypt/Nonce.antt =====
-- internal/crypt/cipher.go: the nonce, a little-endian counter of 24 bytes.
pub mod Value
pub mod Count
use teldrive_fork.Base.{
  ℕ, zero, suc, ◌+◌, ◌/◌, ◌%◌, ◌==◌, leb, if◌then◌else◌, List, [], ◌∷◌, ◌++◌, take, drop,
}

-- `type nonce [24]byte`, as the list of its bytes.
abbrev pub Nonce : Type 0
Nonce = List ℕ

-- The loop of `carry`, over the bytes from its index on.
unfoldable pub carry_from : List ℕ → List ℕ
carry_from [] = []
carry_from (digit ∷ rest) =
    let new_digit = (digit + 1) % 256 in
    if leb digit new_digit then new_digit ∷ rest else new_digit ∷ carry_from rest

unfoldable pub carry : ℕ → Nonce → Nonce
unfolding carry_from
carry i n = take i n ++ carry_from (drop i n)

unfoldable pub increment : Nonce → Nonce
unfolding carry
increment n = carry 0 n

-- The loop of `add`: the rounds left, `x`, the uint16 `carry` and the bytes not yet visited.
unfoldable pub add_loop : ℕ → ℕ → ℕ → List ℕ → List ℕ × ℕ
add_loop zero x c n = (n, c)
add_loop (suc rounds) x c [] = ([], c)
add_loop (suc rounds) x c (digit ∷ n) =
    let sum = (c + (digit + x % 256)) % 65536 in
    let (rest, c') = add_loop rounds (x / 256) (sum / 256) n in ((sum % 256) ∷ rest, c')

unfoldable pub add : Nonce → ℕ → Nonce
unfolding add_loop carry
add n x = let (m, c) = add_loop 8 x 0 n in if c == 0 then m else carry 8 m
