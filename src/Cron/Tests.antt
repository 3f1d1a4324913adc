-- ===== src/Cron/Tests.antt =====
-- Two rows of deleted files, of which the first has no session.
use teldrive_fork.Base.{ℕ, zero, suc, ◌≡◌, refl, List, [], ◌∷◌, length, none, some, true}
use teldrive_fork.Services.Parts.{batch_count}
use teldrive_fork.Tgc.Deletion.{Group, start_group, store, give_back}
use teldrive_fork.Cron.{
  FileRow, Environment, deletion_reported, files_deleted, uploads_deleted, clean_files,
  clean_uploads,
}

-- Where the goroutines of DeleteMessages stand when the first `n` have run one after the other.
unfoldable after : List ℕ → ℕ → Group
unfolding store give_back
after ids zero = start_group
after ids (suc n) = give_back n (store (λ batch. none) ids n (after ids n))

abbrev all_good : Environment
all_good = record {
  auth_client = λ s. true;
  channel_error = λ s channel. none;
  delete = λ s channel ids. none;
  group = λ s channel ids. after ids (batch_count (length ids));
}

abbrev no_session : FileRow
no_session = record {
  files = record { id = b'a' ∷ []; parts = 1 ∷ [] } ∷ [];
  channel = 5;
  user = 7;
  session = [];
}

abbrev two_files : FileRow
two_files = record {
  files =
      record { id = b'b' ∷ []; parts = 2 ∷ 3 ∷ [] }
      ∷ record { id = b'c' ∷ []; parts = 4 ∷ [] }
      ∷ [];
  channel = 5;
  user = 8;
  session = b's' ∷ [];
}

files_run :
    clean_files all_good (some (no_session ∷ two_files ∷ []))
    ≡ deletion_reported 5 (2 ∷ 3 ∷ 4 ∷ []) ∷ files_deleted ((b'b' ∷ []) ∷ (b'c' ∷ []) ∷ []) ∷ []
unfolding clean_files after batch_count
files_run = refl

-- An upload without a session is forgotten, its messages stay.
uploads_run :
    clean_uploads all_good
      (some (record { parts = 9 ∷ []; channel = 5; user = 7; session = [] } ∷ []))
    ≡ uploads_deleted (9 ∷ []) 5 7 ∷ []
unfolding clean_uploads
uploads_run = refl
