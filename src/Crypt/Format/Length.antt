-- ===== src/Crypt/Format/Length.antt =====
-- `EncryptedSize` is the length of the encrypted stream.
use teldrive_fork.Base.{
  ℕ, zero, suc, ◌+◌, ◌-◌, ◌≤◌, ◌<◌, ◌≡◌, refl, sym, ap, inl, inr, List, [], ◌∷◌, length,
  length-append, length-take, length-drop, take, drop, chunks, chunks-step, chunks-nil, arith, min,
  Bool-cases, leb, leb→le, not-leb→lt,
}
use teldrive_fork.Crypt.Size.{encrypted_size, block_data_size, block_header_size, file_header_size}
use teldrive_fork.Crypt.Nonce.{Nonce, increment}
use teldrive_fork.Crypt.Format.{Secretbox, sealed, encrypted}

encrypted_size-zero : encrypted_size 0 ≡ file_header_size
unfolding encrypted_size
encrypted_size-zero = refl

encrypted_size-block :
    (n : ℕ)
    → block_data_size ≤ n
    → encrypted_size n ≡ block_header_size + block_data_size + encrypted_size (n - block_data_size)
unfolding encrypted_size
encrypted_size-block n h = ground arith

encrypted_size-last :
    (n : ℕ)
    → 0 < n
    → n < block_data_size
    → encrypted_size n ≡ file_header_size + block_header_size + n
unfolding encrypted_size
encrypted_size-last n p h = ground arith

-- One step of the recursion of both sides.
step_size :
    (n : ℕ)
    → 0 < n
    → block_header_size + min block_data_size n + encrypted_size (n - block_data_size)
      ≡ encrypted_size n
step_size n p = elim (Bool-cases (leb block_data_size n)) [
  | inl big ↦ omega (arith, leb→le _ _ big, encrypted_size-block n)
  | inr small ↦
      let h : n < block_data_size = not-leb→lt _ _ small in
      let e : n - block_data_size ≡ 0 = omega arith in
      rw e (omega (arith, encrypted_size-zero, encrypted_size-last n p h))
]

module _ (box : Secretbox) where
  length-sealed :
      (f : ℕ) (n : Nonce) (xs : List ℕ)
      → length xs ≤ f
      → length (sealed box n (chunks block_data_size xs)) + file_header_size
        ≡ encrypted_size (length xs)
  length-sealed f n [] h = rw chunks-nil (sym encrypted_size-zero)
  length-sealed zero n (x ∷ xs) h = absurd (omega arith)
  length-sealed (suc f) n (x ∷ xs) h =
      rw (chunks-step block_data_size (x ∷ xs) (omega arith) (λ e. cc)) (
        omega (
          arith,
          length-append (box.seal n (take block_data_size (x ∷ xs)))
              (sealed box (increment n) (chunks block_data_size (drop block_data_size (x ∷ xs)))),
          box.length-seal n (take block_data_size (x ∷ xs)),
          length-take block_data_size (x ∷ xs),
          length-drop block_data_size (x ∷ xs),
          length-sealed f (increment n) (drop block_data_size (x ∷ xs))
              (omega (arith, length-drop block_data_size (x ∷ xs))),
          step_size (length (x ∷ xs)) (omega arith),
          ap encrypted_size (length-drop block_data_size (x ∷ xs)),
        ))

  -- The stream has the length that `EncryptedSize` announces for the content.
  pub length-encrypted :
      (n : Nonce) (xs : List ℕ)
      → length n ≡ 24
      → length (encrypted box n xs) ≡ encrypted_size (length xs)
  unfolding encrypted
  length-encrypted n xs h = omega (
    arith,
    length-sealed (length xs) n xs (omega arith),
    length-append n (sealed box n (chunks block_data_size xs)),
  )
