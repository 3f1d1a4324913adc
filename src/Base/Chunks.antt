-- ===== src/Base/Chunks.antt =====
-- A list cut into pieces of a given length, of which the last may be shorter.
use Prim.Native.Nat.{ℕ, zero, suc, ◌≤◌, ◌<◌}
use mathlib.Core.Path.{◌≡◌, refl, ap, ◌∙◌}
use mathlib.Core.Logic.{◌≢◌}
use mathlib.Core.List.{List, [], ◌∷◌, ◌++◌}
use native.Mathlib.Omega.{arith}
use teldrive_fork.Base.Lists.{length, take, drop, length-drop, take-append-drop}

module _ {ℓ} {A : Type ℓ} where
  abbrev pub concat : List (List A) → List A
  concat [] = []
  concat (x ∷ xs) = x ++ concat xs

  -- The fuel is a bound on the length: each piece takes an item at least.
  chunks_from : ℕ → ℕ → List A → List (List A)
  chunks_from zero b xs = []
  chunks_from (suc f) b [] = []
  chunks_from (suc f) b (x ∷ xs) = take b (x ∷ xs) ∷ chunks_from f b (drop b (x ∷ xs))

  unfoldable pub chunks : ℕ → List A → List (List A)
  unfolding chunks_from
  chunks b xs = chunks_from (length xs) b xs

  drop-shorter :
      (b f : ℕ) (x : A) (xs : List A) → 0 < b → length xs ≤ f → length (drop b (x ∷ xs)) ≤ f
  drop-shorter b f x xs p h = omega (arith, length-drop b (x ∷ xs))

  chunks_from-fuel :
      (b f g : ℕ) (xs : List A)
      → 0 < b
      → length xs ≤ f
      → length xs ≤ g
      → chunks_from f b xs ≡ chunks_from g b xs
  unfolding chunks_from
  chunks_from-fuel b zero zero xs p hf hg = refl
  chunks_from-fuel b zero (suc g) [] p hf hg = refl
  chunks_from-fuel b zero (suc g) (x ∷ xs) p hf hg = absurd (omega arith)
  chunks_from-fuel b (suc f) zero [] p hf hg = refl
  chunks_from-fuel b (suc f) zero (x ∷ xs) p hf hg = absurd (omega arith)
  chunks_from-fuel b (suc f) (suc g) [] p hf hg = refl
  chunks_from-fuel b (suc f) (suc g) (x ∷ xs) p hf hg =
      ap (λ t. take b (x ∷ xs) ∷ t)
        (chunks_from-fuel b f g (drop b (x ∷ xs)) p (drop-shorter b f x xs p (omega arith))
          (drop-shorter b g x xs p (omega arith)))

  pub chunks-nil : (b : ℕ) → chunks b [] ≡ []
  unfolding chunks
  chunks-nil b = refl

  pub chunks-step :
      (b : ℕ) (xs : List A) → 0 < b → xs ≢ [] → chunks b xs ≡ take b xs ∷ chunks b (drop b xs)
  unfolding chunks
  chunks-step b [] p h = absurd (h refl)
  chunks-step b (x ∷ xs) p h =
      ap (λ t. take b (x ∷ xs) ∷ t)
        (chunks_from-fuel b (length xs) (length (drop b (x ∷ xs))) (drop b (x ∷ xs)) p
          (drop-shorter b (length xs) x xs p (omega arith)) (omega arith))

  concat-chunks_from :
      (f b : ℕ) (xs : List A) → 0 < b → length xs ≤ f → concat (chunks_from f b xs) ≡ xs
  unfolding chunks_from
  concat-chunks_from zero b [] p h = refl
  concat-chunks_from zero b (x ∷ xs) p h = absurd (omega arith)
  concat-chunks_from (suc f) b [] p h = refl
  concat-chunks_from (suc f) b (x ∷ xs) p h =
      ap (λ t. take b (x ∷ xs) ++ t)
        (concat-chunks_from f b (drop b (x ∷ xs)) p (drop-shorter b f x xs p (omega arith)))
      ∙ take-append-drop b (x ∷ xs)

  pub concat-chunks : (b : ℕ) (xs : List A) → 0 < b → concat (chunks b xs) ≡ xs
  unfolding chunks
  concat-chunks b xs p = concat-chunks_from (length xs) b xs p (omega arith)
