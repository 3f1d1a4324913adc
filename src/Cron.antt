-- ===== src/Cron.antt =====
-- pkg/cron/cron.go: the jobs that remove deleted files and old uploads, first their messages from
-- Telegram and then their rows from the database. Telegram and the database are the environment's.
pub mod Cleaned
mod Tests
use teldrive_fork.Base.{
  ℕ, ◌==◌, if◌then◌else◌, List, [], ◌∷◌, ◌++◌, map, length, concat, Option, none, some, Bool, true,
  false, not, ◌&&◌, Text,
}
use teldrive_fork.Tgc.Deletion.{Group}

-- `file`, `result` and `uploadResult`
pub record DeletedFile : Type 0 where
  pub id : Text
  pub parts : List ℕ

pub record FileRow : Type 0 where
  pub files : List DeletedFile
  pub channel : ℕ
  pub user : ℕ
  pub session : Text

pub record UploadRow : Type 0 where
  pub parts : List ℕ
  pub channel : ℕ
  pub user : ℕ
  pub session : Text

-- Whether AuthClient gives a client for a session; and for a call of DeleteMessages with a session on a
-- channel, the error of connecting and looking up the channel, Telegram's answer to the request for a
-- batch, and where its goroutines have ended.
pub record Environment : Type 0 where
  pub auth_client : Text → Bool
  pub channel_error : Text → ℕ → Option ℕ
  pub delete : Text → ℕ → List ℕ → Option ℕ
  pub group : Text → ℕ → List ℕ → Group

-- `DeleteMessages` returns nil.
unfoldable pub delete_messages : Environment → Text → ℕ → List ℕ → Bool
delete_messages env session channel ids = elim (env.channel_error session channel) [
  | some e ↦ false
  | none ↦ elim (env.group session channel ids).first [ some e ↦ false | none ↦ true ]
]

-- What the jobs do, in order: calls of DeleteMessages on a channel that return nil, files deleted by
-- their ids, and uploads deleted by their parts on a channel for a user.
pub data Effect : Type 0 where
  deletion_reported : ℕ → List ℕ → Effect
  files_deleted : List Text → Effect
  uploads_deleted : List ℕ → ℕ → ℕ → Effect

-- The loop that collects the ids.
unfoldable pub part_ids : List DeletedFile → List ℕ
part_ids [] = []
part_ids (f ∷ files) = f.parts ++ part_ids files

unfoldable pub file_ids : List DeletedFile → List Text
file_ids [] = []
file_ids (f ∷ files) = f.id ∷ file_ids files

module _ (env : Environment) where
  -- The loop's body of `cleanFiles`, each `continue` of which leaves the row as it is.
  unfoldable pub clean_file_row : FileRow → List Effect
  unfolding part_ids file_ids delete_messages
  clean_file_row row =
      let ids = part_ids row.files in
      if length row.session == 0
      then []
      else if not (env.auth_client row.session)
      then []
      else if not (delete_messages env row.session row.channel ids)
      then []
      else deletion_reported row.channel ids ∷ (files_deleted (file_ids row.files) ∷ [])

  unfoldable pub clean_file_rows : List FileRow → List Effect
  unfolding clean_file_row
  clean_file_rows [] = []
  clean_file_rows (row ∷ rows) = clean_file_row row ++ clean_file_rows rows

  -- `cleanFiles`; the rows are `none` where the query fails.
  unfoldable pub clean_files : Option (List FileRow) → List Effect
  unfolding clean_file_rows
  clean_files none = []
  clean_files (some rows) = clean_file_rows rows

  abbrev pub forget_uploads : UploadRow → List Effect
  forget_uploads row = uploads_deleted row.parts row.channel row.user ∷ []

  -- The loop's body of `cleanUploads`.
  unfoldable pub clean_upload_row : UploadRow → List Effect
  unfolding delete_messages
  clean_upload_row row =
      if not (length row.session == 0) && not (length row.parts == 0)
      then (if not (env.auth_client row.session)
          then []
          else if not (delete_messages env row.session row.channel row.parts)
          then []
          else deletion_reported row.channel row.parts ∷ forget_uploads row)
      else forget_uploads row

  unfoldable pub clean_upload_rows : List UploadRow → List Effect
  unfolding clean_upload_row
  clean_upload_rows [] = []
  clean_upload_rows (row ∷ rows) = clean_upload_row row ++ clean_upload_rows rows

  -- `cleanUploads`
  unfoldable pub clean_uploads : Option (List UploadRow) → List Effect
  unfolding clean_upload_rows
  clean_uploads none = []
  clean_uploads (some rows) = clean_upload_rows rows
