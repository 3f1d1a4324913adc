-- ===== src/Base/Equality.antt =====
-- Equality tests as an interface, texts as byte lists, and Go's maps as functions of the key.
use Prim.Native.Nat.{ℕ}
use mathlib.Core.Path.{◌≡◌, refl, ap, subst, ◌∙◌}
use mathlib.Core.Logic.{◌↔◌, ◌≢◌, inl, inr}
use mathlib.Core.Bool.{Bool, true, false, ◌&&◌}
use mathlib.Core.List.{List, [], ◌∷◌}
use mathlib.Core.Option.{Option, none, some}
use native.Mathlib.Omega.{arith}
use teldrive_fork.Base.Tests.{◌==◌ as nat_test, ==_iff, if◌then◌else◌, Bool-cases}

pub record KeyTest {ℓ} (A : Type ℓ) : Type ℓ where
  pub same : A → A → Bool
  pub same_iff : (a b : A) → (same a b ≡ true) ↔ (a ≡ b)

instance abbrev pub nat_key : KeyTest ℕ
nat_key = record { same = nat_test; same_iff = ==_iff }

-- A Go string, as its bytes.
abbrev pub Text : Type 0
Text = List ℕ

abbrev pub text_same : Text → Text → Bool
text_same [] [] = true
text_same [] (y ∷ ys) = false
text_same (x ∷ xs) [] = false
text_same (x ∷ xs) (y ∷ ys) = nat_test x y && text_same xs ys

pub text_same_refl : (xs : Text) → text_same xs xs ≡ true
text_same_refl [] = refl
text_same_refl (x ∷ xs) = rw ((==_iff x x).1 refl, text_same_refl xs) refl

pub text_same_eq : (xs ys : Text) → text_same xs ys ≡ true → xs ≡ ys
text_same_eq [] [] h = refl
text_same_eq [] (y ∷ ys) h = absurd (ground arith)
text_same_eq (x ∷ xs) [] h = absurd (ground arith)
text_same_eq (x ∷ xs) (y ∷ ys) h = elim (Bool-cases (nat_test x y)) [
  | inl same ↦
      ap (λ t. t ∷ xs) ((==_iff x y).0 same)
      ∙ ap (◌∷◌ y) (text_same_eq xs ys (ground (arith, same, h)))
  | inr other ↦ absurd (ground (arith, other, h))
]

instance abbrev pub text_key : KeyTest Text
text_key = record {
  same = text_same;
  same_iff = λ a b. (text_same_eq a b, λ e. subst (λ t. text_same a t ≡ true) e (text_same_refl a));
}

module _ {ℓ} {A : Type ℓ} ⦃e : KeyTest A⦄ where
  pub same_refl : (a : A) → e.same a a ≡ true
  same_refl a = (e.same_iff a a).1 refl

  pub same_ne : (a b : A) → a ≢ b → e.same a b ≡ false
  same_ne a b h = elim (Bool-cases (e.same a b)) [
    | inl t ↦ absurd (h ((e.same_iff a b).0 t))
    | inr f ↦ f
  ]

-- The value of a key that may be missing.
abbrev pub or_else {ℓ} : {A : Type ℓ} → Option A → A → A
or_else none d = d
or_else (some a) d = a

-- Go's `map[K]V`; `none` for a missing key.
abbrev pub Map {ℓ ℓ'} : Type ℓ → Type ℓ' → Type (ℓ ⊔ ℓ')
Map K V = K → Option V

module _ {ℓ ℓ'} {K : Type ℓ} {V : Type ℓ'} ⦃e : KeyTest K⦄ where
  abbrev pub empty_map : Map K V
  empty_map k = none

  -- m[k] = v
  unfoldable pub map_set : K → V → Map K V → Map K V
  map_set k v m k' = if e.same k' k then some v else m k'

  -- delete(m, k)
  unfoldable pub map_delete : K → Map K V → Map K V
  map_delete k m k' = if e.same k' k then none else m k'

  pub map_set_same : (k : K) (v : V) (m : Map K V) → map_set k v m k ≡ some v
  unfolding map_set
  map_set_same k v m = rw (same_refl k) refl

  pub map_set_other : (k k' : K) (v : V) (m : Map K V) → k' ≢ k → map_set k v m k' ≡ m k'
  unfolding map_set
  map_set_other k k' v m h = rw (same_ne k' k h) refl

  pub map_delete_same : (k : K) (m : Map K V) → map_delete k m k ≡ none
  unfolding map_delete
  map_delete_same k m = rw (same_refl k) refl

  pub map_delete_other : (k k' : K) (m : Map K V) → k' ≢ k → map_delete k m k' ≡ m k'
  unfolding map_delete
  map_delete_other k k' m h = rw (same_ne k' k h) refl
