-- ===== src/Cron/Cleaned.antt =====
-- pkg/cron/cron.go: no file leaves the database before DeleteMessages has returned without an error for
-- its messages, and no row that cannot be cleaned keeps another from being cleaned.
use teldrive_fork.Base.{ℕ, ◌<◌, none, ◌≡◌, ◌≢◌, ◌⊎◌, List, [], ◌∷◌, length, true, Text}
use teldrive_fork.Tgc.Deletion.{Run, Finished}
use teldrive_fork.Cron.{
  FileRow, Environment, delete_messages, Effect, deletion_reported, files_deleted, part_ids,
  file_ids,
}

-- Membership, with the items before it.
pub data Within {A : Type 0} (x : A) : List A → Type 0 where
  first : (xs : List A) → Within x (x ∷ xs)
  behind : (y : A) (xs : List A) → Within x xs → Within x (y ∷ xs)

-- An effect that stands somewhere before another.
pub data Before {A : Type 0} (x y : A) : List A → Type 0 where
  at_head : (xs : List A) → Within y xs → Before x y (x ∷ xs)
  deeper : (z : A) (xs : List A) → Before x y xs → Before x y (z ∷ xs)

module _ (env : Environment) where
  -- The row has a session and a client, and DeleteMessages returns nil for its messages.
  pub record Cleanable (row : FileRow) : Type 0 where
    pub has_session : row.session ≢ []
    pub has_client : env.auth_client row.session ≡ true
    pub deletable : delete_messages env row.session row.channel (part_ids row.files) ≡ true

  -- What becomes of a row.
  data Outcome (row : FileRow) : List Effect → Type 0 where
    cleaned :
        Cleanable row
        → Outcome row (
            deletion_reported row.channel (part_ids row.files)
            ∷ (files_deleted (file_ids row.files) ∷ []))
    skipped : (Cleanable row → ⊥) → Outcome row []

-- The goroutines of each call of DeleteMessages have run to their ends.
abbrev pub Ran : Environment → Type 0
Ran env =
    (session : Text) (channel : ℕ) (ids : List ℕ)
    → Run (env.delete session channel) ids (env.group session channel ids)
      × Finished (env.delete session channel) ids (env.group session channel ids)

-- Telegram has accepted the deletion of a row's messages in one request; or there are none; or they
-- are more than fit one request.
abbrev pub Accepted : Environment → FileRow → Type 0
Accepted env row =
    let ids = part_ids row.files in
    (env.delete row.session row.channel ids ≡ none) ⊎ ((length ids ≡ 0) ⊎ (100 < length ids))
