-- ===== src/Services/Parts/Tests.antt =====
-- The parts of small files.
use teldrive_fork.Base.{
  ℕ, zero, suc, ◌+◌, ◌<◌, ◌≡◌, refl, inl, inr, List, [], ◌∷◌, map, length, some, none, false, arith,
  replicate,
}
use teldrive_fork.Services.Parts.{
  Reply, messages, all_messages, get_messages, batch_count, parts_ok, mismatch, part_of, get_parts,
}
use teldrive_fork.Services.Parts.Batches.{Among, get_messages-map}

abbrev doubled : List ℕ → Reply ℕ
doubled batch = messages (map (λ id. id + id) batch)

abbrev many : List ℕ
many = replicate 150 7

second_first : (i : ℕ) → i < batch_count (length many) → Among i (1 ∷ 0 ∷ [])
unfolding Among batch_count
second_first zero h = inr (inl refl)
second_first (suc zero) h = inl refl
second_first (suc (suc i)) h = absurd (omega arith)

-- The second of two batches is there before the first.
get_messages-map_example :
    get_messages doubled many (1 ∷ 0 ∷ []) ≡ all_messages (map (λ id. id + id) many)
get_messages-map_example =
    get_messages-map doubled many (λ id. id + id) (λ batch. refl) (1 ∷ 0 ∷ []) second_first

parts_run :
    (get_parts false (4 ∷ 5 ∷ []) (some 10 ∷ some 20 ∷ [])
      ≡ parts_ok (part_of false 4 10 ∷ part_of false 5 20 ∷ []))
    × (get_parts false (4 ∷ 5 ∷ []) (some 10 ∷ none ∷ []) ≡ mismatch)
unfolding get_parts
parts_run = (refl, refl)
