-- ===== src/Crypt/Format/Blocks.antt =====
-- Cutting an encrypted stream between blocks cuts the content at the same blocks.
use teldrive_fork.Base.{
  ℕ, zero, suc, ◌+◌, ◌*◌, ◌≤◌, ◌<◌, ◌≡◌, ◌≢◌, refl, sym, ap, ◌∙◌, List, [], ◌++◌, length,
  length-take, length-append, take, drop, take_all, drop_all, drop-drop, take-append_right,
  take-take, chunks, chunks-step, chunks-nil, arith, min, Bool-cases, leb, leb→le, not-leb→lt, inl,
  inr, append-nil, length_pos, drop-take, drop-append_eq, nil-cases,
}
use teldrive_fork.Crypt.Size.{block_data_size, block_header_size, block_size}
use teldrive_fork.Crypt.Nonce.{Nonce, increment}
use teldrive_fork.Crypt.Nonce.Count.{increments}
use teldrive_fork.Crypt.Format.{Secretbox, sealed}

module _ (box : Secretbox) where
  -- The blocks of a content, sealed from a nonce on.
  abbrev pub body : Nonce → List ℕ → List ℕ
  body n xs = sealed box n (chunks block_data_size xs)

  abbrev pub first : Nonce → List ℕ → List ℕ
  first n xs = box.seal n (take block_data_size xs)

  pub body-nil : (n : Nonce) → body n [] ≡ []
  body-nil n = rw chunks-nil

  pub body-step :
      (n : Nonce) (xs : List ℕ)
      → xs ≢ []
      → body n xs ≡ first n xs ++ body (increment n) (drop block_data_size xs)
  body-step n xs h = rw (chunks-step block_data_size xs (omega arith) h)

  pub length-first :
      (n : Nonce) (xs : List ℕ)
      → length (first n xs) ≡ block_header_size + min block_data_size (length xs)
  length-first n xs =
      omega (arith, box.length-seal n (take block_data_size xs), length-take block_data_size xs)

  pub body-nonempty : (n : Nonce) (xs : List ℕ) → xs ≢ [] → 0 < length (body n xs)
  body-nonempty n xs h = omega (
    arith,
    ap length (body-step n xs h),
    length-append (first n xs) (body (increment n) (drop block_data_size xs)),
    length-first n xs,
  )

  -- All that is left behind a last, shorter block is empty.
  body-last :
      (n : Nonce) (xs : List ℕ) → xs ≢ [] → length xs ≤ block_data_size → body n xs ≡ first n xs
  body-last n xs h l =
      body-step n xs h
      ∙ ap (λ t. first n xs ++ body (increment n) t) (drop_all block_data_size xs l)
      ∙ ap (λ t. first n xs ++ t) (body-nil (increment n))
      ∙ append-nil (first n xs)

  -- Dropping one whole block.
  drop-body_one :
      (n : Nonce) (xs : List ℕ)
      → xs ≢ []
      → drop block_size (body n xs) ≡ body (increment n) (drop block_data_size xs)
  drop-body_one n xs h = elim (Bool-cases (leb block_data_size (length xs))) [
    | inl big ↦ rw (body-step n xs h) (
        drop-append_eq block_size (first n xs) _ (omega (arith, length-first n xs, leb→le _ _ big)))
    | inr small ↦
        let l : length xs ≤ block_data_size = omega (arith, not-leb→lt _ _ small) in
        rw (body-last n xs h l, drop_all block_data_size xs l, body-nil (increment n))
          (drop_all block_size (first n xs) (omega (arith, length-first n xs)))
  ]

  drop-body_step :
      (n : Nonce) (xs : List ℕ)
      → drop block_size (body n xs) ≡ body (increment n) (drop block_data_size xs)
  drop-body_step n xs = elim (nil-cases xs) [
    | inl e ↦ rw (e, body-nil n, body-nil (increment n))
    | inr h ↦ drop-body_one n xs h
  ]

  -- Dropping `j` whole blocks leaves the blocks from the nonce `j` steps on.
  pub drop-body :
      (j : ℕ) (n : Nonce) (xs : List ℕ)
      → drop (j * block_size) (body n xs) ≡ body (increments j n) (drop (j * block_data_size) xs)
  unfolding increments
  drop-body zero n xs = refl
  drop-body (suc j) n xs =
      ap (λ k. drop k (body n xs))
        (let e : suc j * block_size ≡ block_size + j * block_size = omega arith in e)
      ∙ sym (drop-drop block_size (j * block_size) (body n xs))
      ∙ ap (drop (j * block_size)) (drop-body_step n xs)
      ∙ drop-body j (increment n) (drop block_data_size xs)
      ∙ ap (body (increments j (increment n))) (
          drop-drop block_data_size (j * block_data_size) xs
          ∙ ap (λ k. drop k xs)
              (let e : block_data_size + j * block_data_size ≡ suc j * block_data_size =
                  omega arith in
                e))

  -- A content cut behind its first block.
  body-take :
      (m : ℕ) (n : Nonce) (xs : List ℕ)
      → xs ≢ []
      → body n (take (block_data_size + m) xs)
        ≡ first n xs ++ body (increment n) (take m (drop block_data_size xs))
  body-take m n xs h =
      body-step n (take (block_data_size + m) xs) (λ e.
        absurd (omega (arith, ap length e, length-take (block_data_size + m) xs, length_pos xs h)))
      ∙ ap
          (λ t.
            box.seal n t
            ++ body (increment n) (drop block_data_size (take (block_data_size + m) xs)))
          (take-take block_data_size (block_data_size + m) xs
            ∙ ap (λ k. take k xs)
                (let e : min block_data_size (block_data_size + m) ≡ block_data_size =
                    omega arith in
                  e))
      ∙ ap (λ t. first n xs ++ body (increment n) t) (drop-take block_data_size m xs)

  take-body_one :
      (k : ℕ) (n : Nonce) (xs : List ℕ)
      → xs ≢ []
      → take (k * block_size) (body (increment n) (drop block_data_size xs))
        ≡ body (increment n) (take (k * block_data_size) (drop block_data_size xs))
      → take (block_size + k * block_size) (body n xs)
        ≡ body n (take (block_data_size + k * block_data_size) xs)
  take-body_one k n xs h ih = elim (Bool-cases (leb block_data_size (length xs))) [
    | inl big ↦
        rw (body-take (k * block_data_size) n xs h, body-step n xs h)
          (take-append_right block_size (k * block_size) (first n xs) _
              (omega (arith, length-first n xs, leb→le _ _ big))
            ∙ ap (λ t. first n xs ++ t) ih)
    | inr small ↦
        let l : length xs ≤ block_data_size = omega (arith, not-leb→lt _ _ small) in
        rw (body-last n xs h l, take_all (block_data_size + k * block_data_size) xs (omega arith))
          (take_all (block_size + k * block_size) (first n xs) (omega (arith, length-first n xs))
            ∙ sym (body-last n xs h l))
  ]

  take-body_step :
      (k : ℕ) (n : Nonce) (xs : List ℕ)
      → take (k * block_size) (body (increment n) (drop block_data_size xs))
        ≡ body (increment n) (take (k * block_data_size) (drop block_data_size xs))
      → take (block_size + k * block_size) (body n xs)
        ≡ body n (take (block_data_size + k * block_data_size) xs)
  take-body_step k n xs ih = elim (nil-cases xs) [
    | inl e ↦
        rw (e, body-nil n)
          (take_all (block_size + k * block_size) [] (omega arith)
            ∙ sym (body-nil n)
            ∙ sym (ap (body n) (take_all (block_data_size + k * block_data_size) [] (omega arith))))
    | inr h ↦ take-body_one k n xs h ih
  ]

  -- Taking `k` whole blocks is sealing that much of the content.
  pub take-body :
      (k : ℕ) (n : Nonce) (xs : List ℕ)
      → take (k * block_size) (body n xs) ≡ body n (take (k * block_data_size) xs)
  take-body zero n xs = sym (body-nil n)
  take-body (suc k) n xs =
      ap (λ t. take t (body n xs))
        (let e : suc k * block_size ≡ block_size + k * block_size = omega arith in e)
      ∙ take-body_step k n xs (take-body k (increment n) (drop block_data_size xs))
      ∙ ap (λ t. body n (take t xs))
          (let e : block_data_size + k * block_data_size ≡ suc k * block_data_size = omega arith in
            e)

  pub take-body_first :
      (n : Nonce) (xs : List ℕ) → xs ≢ [] → take block_size (body n xs) ≡ first n xs
  take-body_first n xs h =
      take-body 1 n xs
      ∙ body-last n (take block_data_size xs)
          (λ e.
            absurd (omega (arith, ap length e, length-take block_data_size xs, length_pos xs h)))
          (omega (arith, length-take block_data_size xs))
      ∙ ap (box.seal n) (
          take_all block_data_size (take block_data_size xs)
            (omega (arith, length-take block_data_size xs)))

  pub drop-body_first :
      (n : Nonce) (xs : List ℕ)
      → drop block_size (body n xs) ≡ body (increment n) (drop block_data_size xs)
  drop-body_first = drop-body_step
