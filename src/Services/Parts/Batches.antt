-- ===== src/Services/Parts/Batches.antt =====
-- internal/tgc/helpers.go: the messages come in the order of their ids, whichever batch is there first.
use teldrive_fork.Base.{
  ℕ, zero, suc, ◌+◌, ◌-◌, ◌*◌, ◌==◌, ◌≤◌, ◌<◌, ◌≡◌, ◌⊎◌, inl, inr, refl, sym, ap, ◌∙◌, List, [],
  ◌∷◌, ◌++◌, take, drop, map, length, none, some, arith, min, Bool-cases, ==_iff, Map, empty_map,
  map_set, map_set_same, map_set_other, nat_key, take_all, window_join, length-drop, take-take,
}
use mathlib.Core.Path.{ap₂}
use teldrive_fork.Services.Parts.{
  Reply, messages, all_messages, gather_one, gather, append_from, then_append, appended, gathered,
  get_messages, split_ids, batch_count,
}

-- A number is in a list.
unfoldable pub Among : ℕ → List ℕ → Type 0
Among i [] = ⊥
Among i (j ∷ js) = (i ≡ j) ⊎ Among i js

module _ {M : Type 0} (fetch : List ℕ → Reply M) (ids : List ℕ) (message : ℕ → M)
    (answers : (batch : List ℕ) → fetch batch ≡ messages (map message batch)) where
  abbrev here : ℕ → List M
  here i = map message (split_ids ids i)

  gather-step :
      (j : ℕ) (order : List ℕ) (found : Map ℕ (List M))
      → gather fetch ids (j ∷ order) (found, none)
        ≡ gather fetch ids order (map_set j (here j) found, none)
  unfolding gather
  gather-step j order found =
      ap (λ r. gather fetch ids order (gather_one fetch ids j (found, none) r))
        (answers (split_ids ids j))

  kept :
      (j i : ℕ) (found : Map ℕ (List M))
      → found i ≡ some (here i)
      → map_set j (here j) found i ≡ some (here i)
  kept j i found h = elim (Bool-cases (i == j)) [
    | inl same ↦
        let e = (==_iff i j).0 same in
        ap (map_set j (here j) found) e
        ∙ map_set_same j (here j) found
        ∙ ap (λ t. some (here t)) (sym e)
    | inr other ↦
        map_set_other j i (here j) found (λ e. absurd (cc (sym ((==_iff i j).1 e) ∙ other))) ∙ h
  ]

  -- A batch that is in the map stays there.
  gather-keeps :
      (order : List ℕ) (found : Map ℕ (List M)) (i : ℕ)
      → found i ≡ some (here i)
      → (gather fetch ids order (found, none)).0 i ≡ some (here i)
  unfolding gather
  gather-keeps [] found i h = h
  gather-keeps (j ∷ order) found i h =
      ap (λ t. t.0 i) (gather-step j order found)
      ∙ gather-keeps order (map_set j (here j) found) i (kept j i found h)

  gather-finds :
      (order : List ℕ) (found : Map ℕ (List M)) (i : ℕ)
      → Among i order
      → (gather fetch ids order (found, none)).0 i ≡ some (here i)
  unfolding Among
  gather-finds [] found i h = absurd h
  gather-finds (j ∷ order) found i (inl e) =
      ap (λ t. t.0 i) (gather-step j order found)
      ∙ gather-keeps order (map_set j (here j) found) i (
          ap (map_set j (here j) found) e
          ∙ map_set_same j (here j) found
          ∙ ap (λ t. some (here t)) (sym e))
  gather-finds (j ∷ order) found i (inr h) =
      ap (λ t. t.0 i) (gather-step j order found)
      ∙ gather-finds order (map_set j (here j) found) i h

  gather-error :
      (order : List ℕ) (found : Map ℕ (List M)) → (gather fetch ids order (found, none)).1 ≡ none
  unfolding gather
  gather-error [] found = refl
  gather-error (j ∷ order) found =
      ap (λ t. t.1) (gather-step j order found) ∙ gather-error order (map_set j (here j) found)

  take-min : {A : Type 0} (n : ℕ) (xs : List A) → take (min n (length xs)) xs ≡ take n xs
  take-min n xs =
      sym (take-take n (length xs) xs) ∙ ap (take n) (take_all (length xs) xs (omega arith))

  split_ids-take : (i : ℕ) → split_ids ids i ≡ take 100 (drop (i * 100) ids)
  unfolding split_ids
  split_ids-take i =
      ap (λ k. take k (drop (i * 100) ids))
        (let e : min ((i + 1) * 100) (length ids) - i * 100
              ≡ min 100 (length (drop (i * 100) ids)) =
            omega (arith, length-drop (i * 100) ids) in
          e)
      ∙ take-min 100 (drop (i * 100) ids)

  map-append : (xs ys : List ℕ) → map message (xs ++ ys) ≡ map message xs ++ map message ys
  map-append [] ys = refl
  map-append (x ∷ xs) ys = ap (λ t. message x ∷ t) (map-append xs ys)

  append_from-take :
      (found : Map ℕ (List M)) (count i : ℕ)
      → ((k : ℕ) → i ≤ k → k < i + count → found k ≡ some (here k))
      → append_from fetch ids found count i
        ≡ some (map message (take (count * 100) (drop (i * 100) ids)))
  unfolding append_from
  append_from-take found zero i h = refl
  append_from-take found (suc count) i h =
      ap₂ (then_append fetch ids) (h i (omega arith) (omega arith))
        (append_from-take found count (i + 1) (λ k a b. h k (omega arith) (omega arith)))
      ∙ ap
          (λ t. some (map message t ++ map message (take (count * 100) (drop ((i + 1) * 100) ids))))
          (split_ids-take i)
      ∙ ap some (
          sym (
            map-append (take 100 (drop (i * 100) ids))
              (take (count * 100) (drop ((i + 1) * 100) ids)))
          ∙ ap (map message) (
              window_join (i * 100) ((i + 1) * 100) 100 (count * 100) (suc count * 100) ids
                (omega arith) (omega arith)))

  -- Telegram answers each batch of at most 100 ids with their messages. In whichever order the
  -- goroutines finish, when all the batches are fetched `GetMessages` returns the messages of all
  -- ids, in the order of the ids.
  pub get_messages-map :
      (order : List ℕ)
      → ((i : ℕ) → i < batch_count (length ids) → Among i order)
      → get_messages fetch ids order ≡ all_messages (map message ids)
  unfolding get_messages batch_count
  get_messages-map order all =
      let state = gather fetch ids order (empty_map, none) in
      let count = batch_count (length ids) in
      ap (λ e. gathered fetch ids (state.0, e)) (gather-error order empty_map)
      ∙ ap (appended fetch ids) (
          append_from-take state.0 count 0
            (λ k a b. gather-finds order empty_map k (all k (omega arith))))
      ∙ ap (λ t. all_messages (map message t)) (take_all (count * 100) ids (omega arith))
