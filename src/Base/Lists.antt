-- ===== src/Base/Lists.antt =====
-- Lists measured, cut and indexed by native numbers, under the library's names.
use Prim.Native.Nat.{ℕ, zero, suc, ◌+◌, ◌-◌, ◌≤◌, ◌<◌, min}
use mathlib.Core.Path.{◌≡◌, refl, ap, sym, ◌∙◌}
use mathlib.Core.Logic.{◌⊎◌, ◌≢◌, inl, inr}
use mathlib.Core.List.{List, [], ◌∷◌, ◌++◌, append_assoc}
use mathlib.Core.Option.{Option, none, some}
use native.Mathlib.Omega.{arith}

module _ {ℓ} {A : Type ℓ} where
  abbrev pub length : List A → ℕ
  length [] = 0
  length (x ∷ xs) = suc (length xs)

  abbrev pub get_elem? : List A → ℕ → Option A
  get_elem? [] i = none
  get_elem? (x ∷ xs) zero = some x
  get_elem? (x ∷ xs) (suc i) = get_elem? xs i

  abbrev pub get_or : List A → ℕ → A → A
  get_or [] i d = d
  get_or (x ∷ xs) zero d = x
  get_or (x ∷ xs) (suc i) d = get_or xs i d

  abbrev pub take : ℕ → List A → List A
  take zero xs = []
  take (suc n) [] = []
  take (suc n) (x ∷ xs) = x ∷ take n xs

  abbrev pub drop : ℕ → List A → List A
  drop zero xs = xs
  drop (suc n) [] = []
  drop (suc n) (x ∷ xs) = drop n xs

  abbrev pub replicate : ℕ → A → List A
  replicate zero a = []
  replicate (suc n) a = a ∷ replicate n a

  pub length-append : (xs ys : List A) → length (xs ++ ys) ≡ length xs + length ys
  length-append [] ys = omega arith
  length-append (x ∷ xs) ys = omega (arith, length-append xs ys)

  pub take-append-drop : (n : ℕ) (xs : List A) → take n xs ++ drop n xs ≡ xs
  take-append-drop zero xs = refl
  take-append-drop (suc n) [] = refl
  take-append-drop (suc n) (x ∷ xs) = ap (λ t. x ∷ t) (take-append-drop n xs)

  pub length-take : (n : ℕ) (xs : List A) → length (take n xs) ≡ min n (length xs)
  length-take zero xs = omega arith
  length-take (suc n) [] = omega arith
  length-take (suc n) (x ∷ xs) = omega (arith, length-take n xs)

  pub length-drop : (n : ℕ) (xs : List A) → length (drop n xs) ≡ length xs - n
  length-drop zero xs = omega arith
  length-drop (suc n) [] = omega arith
  length-drop (suc n) (x ∷ xs) = omega (arith, length-drop n xs)

  pub take_all : (n : ℕ) (xs : List A) → length xs ≤ n → take n xs ≡ xs
  take_all zero [] h = refl
  take_all zero (x ∷ xs) h = absurd (omega arith)
  take_all (suc n) [] h = refl
  take_all (suc n) (x ∷ xs) h = ap (λ t. x ∷ t) (take_all n xs (omega arith))

  pub drop_all : (n : ℕ) (xs : List A) → length xs ≤ n → drop n xs ≡ []
  drop_all zero [] h = refl
  drop_all zero (x ∷ xs) h = absurd (omega arith)
  drop_all (suc n) [] h = refl
  drop_all (suc n) (x ∷ xs) h = drop_all n xs (omega arith)

  pub take-append_left : (n : ℕ) (xs ys : List A) → n ≤ length xs → take n (xs ++ ys) ≡ take n xs
  take-append_left zero xs ys h = refl
  take-append_left (suc n) [] ys h = absurd (omega arith)
  take-append_left (suc n) (x ∷ xs) ys h = ap (λ t. x ∷ t) (take-append_left n xs ys (omega arith))

  pub drop-append_left :
      (n : ℕ) (xs ys : List A) → n ≤ length xs → drop n (xs ++ ys) ≡ drop n xs ++ ys
  drop-append_left zero xs ys h = refl
  drop-append_left (suc n) [] ys h = absurd (omega arith)
  drop-append_left (suc n) (x ∷ xs) ys h = drop-append_left n xs ys (omega arith)

  -- Past a prefix of known length, cutting goes on in what follows it.
  pub take-append_right :
      (n m : ℕ) (xs ys : List A) → length xs ≡ n → take (n + m) (xs ++ ys) ≡ xs ++ take m ys
  take-append_right zero m [] ys h = ap (λ k. take k ys) (omega arith)
  take-append_right zero m (x ∷ xs) ys h = absurd (omega arith)
  take-append_right (suc n) m [] ys h = absurd (omega arith)
  take-append_right (suc n) m (x ∷ xs) ys h =
      ap (λ k. take k (x ∷ xs ++ ys)) (let e : suc n + m ≡ suc (n + m) = omega arith in e)
      ∙ ap (λ t. x ∷ t) (take-append_right n m xs ys (omega arith))

  pub drop-append_right :
      (n m : ℕ) (xs ys : List A) → length xs ≡ n → drop (n + m) (xs ++ ys) ≡ drop m ys
  drop-append_right zero m [] ys h = ap (λ k. drop k ys) (omega arith)
  drop-append_right zero m (x ∷ xs) ys h = absurd (omega arith)
  drop-append_right (suc n) m [] ys h = absurd (omega arith)
  drop-append_right (suc n) m (x ∷ xs) ys h =
      ap (λ k. drop k (x ∷ xs ++ ys)) (let e : suc n + m ≡ suc (n + m) = omega arith in e)
      ∙ drop-append_right n m xs ys (omega arith)

  pub drop-drop : (n m : ℕ) (xs : List A) → drop m (drop n xs) ≡ drop (n + m) xs
  drop-drop zero m xs = ap (λ k. drop k xs) (omega arith)
  drop-drop (suc n) m [] = drop_all m [] (omega arith) ∙ sym (drop_all (suc n + m) [] (omega arith))
  drop-drop (suc n) m (x ∷ xs) =
      drop-drop n m xs
      ∙ ap (λ k. drop k (x ∷ xs)) (let e : suc (n + m) ≡ suc n + m = omega arith in e)

  -- A cut of n + m is a cut of n and then one of m.
  pub take_split : (n m : ℕ) (xs : List A) → take n xs ++ take m (drop n xs) ≡ take (n + m) xs
  take_split zero m xs = ap (λ k. take k xs) (omega arith)
  take_split (suc n) m [] =
      take_all m [] (omega arith) ∙ sym (take_all (suc n + m) [] (omega arith))
  take_split (suc n) m (x ∷ xs) =
      ap (λ t. x ∷ t) (take_split n m xs)
      ∙ ap (λ k. take k (x ∷ xs)) (let e : suc (n + m) ≡ suc n + m = omega arith in e)

  -- What a copy of at most n items took, and what it left.
  pub take-append-drop-length :
      (n : ℕ) (xs : List A) → take n xs ++ drop (length (take n xs)) xs ≡ xs
  take-append-drop-length zero xs = refl
  take-append-drop-length (suc n) [] = refl
  take-append-drop-length (suc n) (x ∷ xs) = ap (λ t. x ∷ t) (take-append-drop-length n xs)

  pub copy_rest :
      (room i : ℕ) (buf rest : List A)
      → take room (drop i buf) ++ (drop (i + length (take room (drop i buf))) buf ++ rest)
        ≡ drop i buf ++ rest
  copy_rest room i buf rest =
      sym (
        append_assoc (take room (drop i buf)) (drop (i + length (take room (drop i buf))) buf) rest)
      ∙ ap (λ t. (take room (drop i buf) ++ t) ++ rest)
          (sym (drop-drop i (length (take room (drop i buf))) buf))
      ∙ ap (λ t. t ++ rest) (take-append-drop-length room (drop i buf))

  pub take-take : (n m : ℕ) (xs : List A) → take n (take m xs) ≡ take (min n m) xs
  take-take zero m xs = ap (λ k. take k xs) (let e : 0 ≡ min 0 m = omega arith in e)
  take-take (suc n) zero xs = ap (λ k. take k xs) (let e : 0 ≡ min (suc n) 0 = omega arith in e)
  take-take (suc n) (suc m) [] = sym (take_all (min (suc n) (suc m)) [] (omega arith))
  take-take (suc n) (suc m) (x ∷ xs) =
      ap (λ t. x ∷ t) (take-take n m xs)
      ∙ ap (λ k. take k (x ∷ xs)) (let e : suc (min n m) ≡ min (suc n) (suc m) = omega arith in e)

  pub take-append_eq : (n : ℕ) (xs ys : List A) → length xs ≡ n → take n (xs ++ ys) ≡ xs
  take-append_eq n xs ys h = take-append_left n xs ys (omega arith) ∙ take_all n xs (omega arith)

  pub drop-append_eq : (n : ℕ) (xs ys : List A) → length xs ≡ n → drop n (xs ++ ys) ≡ ys
  drop-append_eq n xs ys h =
      drop-append_left n xs ys (omega arith) ∙ ap (λ t. t ++ ys) (drop_all n xs (omega arith))

  pub nil-cases : (xs : List A) → (xs ≡ []) ⊎ (xs ≢ [])
  nil-cases [] = inl refl
  nil-cases (x ∷ xs) = inr (λ e. cc)

  pub length_pos : (xs : List A) → xs ≢ [] → 0 < length xs
  length_pos [] h = absurd (h refl)
  length_pos (x ∷ xs) h = omega arith

  pub drop-take : (n m : ℕ) (xs : List A) → drop n (take (n + m) xs) ≡ take m (drop n xs)
  drop-take zero m xs = ap (λ k. take k xs) (omega arith)
  drop-take (suc n) m [] =
      ap (drop (suc n)) (take_all (suc n + m) [] (omega arith)) ∙ sym (take_all m [] (omega arith))
  drop-take (suc n) m (x ∷ xs) =
      ap (λ k. drop (suc n) (take k (x ∷ xs))) (let e : suc n + m ≡ suc (n + m) = omega arith in e)
      ∙ drop-take n m xs

  pub take-length-take : (n : ℕ) (xs : List A) → take n xs ≡ take (length (take n xs)) xs
  take-length-take zero xs = refl
  take-length-take (suc n) [] = refl
  take-length-take (suc n) (x ∷ xs) = ap (λ t. x ∷ t) (take-length-take n xs)

  -- Two neighbouring windows are one.
  pub window_join :
      (s s' n m k : ℕ) (xs : List A)
      → s + n ≡ s'
      → n + m ≡ k
      → take n (drop s xs) ++ take m (drop s' xs) ≡ take k (drop s xs)
  window_join s s' n m k xs p q =
      ap (λ t. take n (drop s xs) ++ take m (drop t xs)) (sym p)
      ∙ ap (λ t. take n (drop s xs) ++ take m t) (sym (drop-drop s n xs))
      ∙ take_split n m (drop s xs)
      ∙ ap (λ t. take t (drop s xs)) q
