-- ===== src/Crypt/Nonce/Count.antt =====
-- Counting block by block and adding the number of blocks give the same nonce.
use teldrive_fork.Base.{ℕ, zero, suc, ◌+◌, ◌%◌, ◌^◌, ◌<◌, ◌≡◌, refl, List, [], ◌∷◌, length, arith}
use teldrive_fork.Crypt.Nonce.{Nonce, carry, increment, add}
use teldrive_fork.Crypt.Nonce.Value.{IsBytes, value, value-lt-radix, carry_lem, add_lem}

-- Bytes are determined by their number and their length.
pub value-injective :
    (xs ys : List ℕ)
    → IsBytes xs
    → IsBytes ys
    → length xs ≡ length ys
    → value xs ≡ value ys
    → xs ≡ ys
value-injective [] [] bx by l e = refl
value-injective [] (y ∷ ys) bx by l e = absurd (omega arith)
value-injective (x ∷ xs) [] bx by l e = absurd (omega arith)
value-injective (x ∷ xs) (y ∷ ys) bx by l e =
    cc (value-injective xs ys bx.1 by.1 (omega arith) (omega arith), heads)
  where
    heads : x ≡ y
    heads = omega arith

-- `increment` is addition of one modulo 2 ^ 192.
pub increment_lem :
    (n : Nonce)
    → IsBytes n
    → length n ≡ 24
    → IsBytes (increment n)
      × (length (increment n) ≡ 24)
      × (value (increment n) ≡ (value n + 1) % 2 ^ 192)
unfolding increment
increment_lem n b l =
    ground (arith, carry_lem 0 24 n b, value-lt-radix n b, value-lt-radix (carry 0 n))

-- The nonce of the block after `k` others, as sequential reading and writing reach it.
unfoldable pub increments : ℕ → Nonce → Nonce
increments zero n = n
increments (suc k) n = increments k (increment n)

pub increments_lem :
    (k : ℕ) (n : Nonce)
    → IsBytes n
    → length n ≡ 24
    → IsBytes (increments k n)
      × (length (increments k n) ≡ 24)
      × (value (increments k n) ≡ (value n + k) % 2 ^ 192)
unfolding increments
increments_lem zero n b l = ground (arith, value-lt-radix n b)
increments_lem (suc k) n b l =
    let (b', l', v) = increment_lem n b l in ground (arith, increments_lem k (increment n) b' l')

-- Seeking to block `k` by `add` gives the nonce that `k` increments give.
pub add-eq-increments :
    (n : Nonce) (k : ℕ) → IsBytes n → length n ≡ 24 → k < 2 ^ 64 → add n k ≡ increments k n
add-eq-increments n k b l h =
    let (ab, al, av) = add_lem n k b l h in
    let (ib, il, iv) = increments_lem k n b l in
    value-injective (add n k) (increments k n) ab ib (omega arith) (omega arith)
