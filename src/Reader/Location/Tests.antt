-- ===== src/Reader/Location/Tests.antt =====
-- Runs of `Chunk` with a location in the cache that has expired.
use teldrive_fork.Base.{
  ℕ, ◌≡◌, refl, inl, inr, [], ◌∷◌, true, false, some, none, Text, Bool-cases, ◌==◌, if◌then◌else◌,
}
use teldrive_fork.Reader.Location.{
  value, failed, Location, Telegram, Source, Meets, est_reference_perimee, to_upper, recent, chunk,
  file_reference_text,
}
use teldrive_fork.Reader.Location.Retried.{Undisturbed, chunk-value}
use teldrive_fork.Retry.{contains, has_prefix}

abbrev reference : ℕ → Location
reference n = record { id = 7; access_hash = n; file_reference = n ∷ []; thumb_size = [] }

abbrev limited : Text
limited = 70 ∷ 76 ∷ 79 ∷ 79 ∷ 68 ∷ []

-- The reference 2 is current; others have expired.
abbrev current_is_2 : Telegram
current_is_2 = record {
  get_location = value (reference 2);
  get_chunk = λ l offset limit.
      if l.access_hash == 2 then value (5 ∷ 6 ∷ []) else failed file_reference_text;
}

abbrev flood : Telegram
flood = record { get_location = value (reference 2); get_chunk = λ l offset limit. failed limited }

abbrev alone : ℕ → Meets
alone at = record {
  before_error = none;
  select_error = none;
  gate_error = none;
  others = λ s. s;
  done_at = at;
}

abbrev holds_1 : Source
holds_1 = record { cached = some (reference 1); last = none }

alone-Undisturbed : (at : ℕ) → Undisturbed (alone at)
alone-Undisturbed at = record { before = refl; selects = refl; gate = refl }

text_expired : est_reference_perimee file_reference_text ≡ true
unfolding est_reference_perimee to_upper contains has_prefix
text_expired = refl

chunk_run :
    chunk current_is_2 true 3 0 2 (alone 4) (alone 5) holds_1
    ≡ (value (5 ∷ 6 ∷ []), record { cached = some (reference 2); last = some (reference 2, 5) })
unfolding chunk est_reference_perimee to_upper contains has_prefix recent
chunk_run = refl

chunk-value_example :
    (chunk current_is_2 true 3 0 2 (alone 4) (alone 5) holds_1).0 ≡ value (5 ∷ 6 ∷ [])
chunk-value_example =
    chunk-value current_is_2 0 2 (5 ∷ 6 ∷ []) (reference 2) 3 refl refl
      (λ l. elim (Bool-cases (l.access_hash == 2)) [
        | inl it ↦ inl (rw it refl)
        | inr other ↦ inr (file_reference_text, rw other refl, text_expired)
      ])
      (alone 4) (alone 5) (alone-Undisturbed 4) (alone-Undisturbed 5) (λ s u. u) (λ s u. u) true
      holds_1 (λ l at e. cc e)

text_limited : est_reference_perimee limited ≡ false
unfolding est_reference_perimee to_upper contains has_prefix
text_limited = refl
