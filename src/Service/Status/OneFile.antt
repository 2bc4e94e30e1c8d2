-- ===== src/Service/Status/OneFile.antt =====
-- getFileStatus of internal/bt/status.go, beside the restore's lookup of a version.
use bt_go.Prelude.{
  ◌≡◌, ◌↔◌, arith, Bool, refl, true, false, inl, inr, Option, none, some, Text, Bytes, any, text_eq,
  find_first, Result, Error, ok, err, no_backup_history, no_current_snapshot,
  snapshot_not_in_database, Option-cases,
}
use bt_go.Models.{Directory, File, FileSnapshot}
use bt_go.Filesystem.{FileInfo, FilePath}
use bt_go.Staging.Store.{StagingStore, Views, Contract, named}
use bt_go.Database.Queries.{names, get_file_snapshots_by_file_id, get_file_by_directory_and_name}
use bt_go.Database.Sqlite.{Sqlite, find_file_by_path, find_file_snapshots_for_file}
use bt_go.Service.Status.{FileStatus, get_file_status, backed_up_status, current_id, modified_since}
use bt_go.Encryption.{DecryptionContext}
use bt_go.Vault.{Vault}
use bt_go.Service.Restore.{current_snapshot, or_error}

-- The file's row, as a restore looks it up.
abbrev pub row_of : Directory → Text → Sqlite → Option File
row_of directory r db = find_first (names directory.id r) db.tables.files

row_of-found :
    (directory : Directory) (r : Text) (db : Sqlite)
    → find_file_by_path directory r db ≡ ok (row_of directory r db)
unfolding find_file_by_path get_file_by_directory_and_name
row_of-found directory r db = elim (Option-cases (row_of directory r db)) [
  | inl e ↦ rw e refl
  | inr (f, e) ↦ rw e refl
]

module _ {V : Type 0} (vault : Vault V) (stored : V) (ctx : Option DecryptionContext) (db : Sqlite)
    (info : FileInfo) where
  -- The version that a restore without a checksum takes.
  abbrev pub restored_version : Option File → Result FileSnapshot
  restored_version none = err no_backup_history
  restored_version (some file) = current_snapshot vault db stored ctx file

  -- There is no such version, or its size or its modification time is another.
  abbrev pub Differs : Bool → Result FileSnapshot → Type 0
  Differs modified (err _) = modified ≡ true
  Differs modified (ok snapshot) =
      (modified ≡ false)
      ↔ ((info.size ≡ snapshot.size) × (info.mod_time.instant ≡ snapshot.modified_at.instant))

  -- Not backed up exactly if there is no version to take; modified if the version differs from the
  -- file, or is named by the file's row and not found.
  abbrev pub Agrees : FileStatus → Option File → Type 0
  Agrees status row = elim (current_id row) [
    | none ↦
        (status.is_backed_up ≡ false)
        × ((status.is_modified_since ≡ false) × ((e : Error) × (restored_version row ≡ err e)))
    | some _ ↦
        (status.is_backed_up ≡ true) × Differs status.is_modified_since (restored_version row)
  ]

-- On a sound staging store the status of a file on disk is always computed. It is staged exactly if
-- the queue names it, and otherwise tells what a restore without a checksum would find in the
-- database: not backed up if there is no version to take, and modified if the version to take
-- differs from the file in size or modification time, or is not in the database.
pub get_file_status_lem :
    {S V : Type 0} (sha256_hex : Bytes → Text) (store : StagingStore S) (v : Views S)
    (law : Contract sha256_hex store v) (vault : Vault V) (stored : V)
    (ctx : Option DecryptionContext) (db : Sqlite) (staging : S) (directory : Directory) (r : Text)
    (path : FilePath)
    → v.IsSound staging
    → (status : FileStatus) × (get_file_status store db staging directory r path ≡ ok status)
      × (status.is_staged ≡ any (named directory.id r) (v.queue staging))
      × Agrees vault stored ctx db path.info status (row_of directory r db)
unfolding get_file_status backed_up_status current_snapshot find_file_snapshots_for_file
get_file_status_lem sha256_hex store v law vault stored ctx db staging directory r path sound =
    go (row_of directory r db) (row_of-found directory r db)
  where
    version :
        (o : Option FileSnapshot)
        → Differs vault stored ctx db path.info
            (modified_since path.info o)
            (or_error vault db stored ctx snapshot_not_in_database o)
    version none = refl
    version (some s) = (λ h. (ground arith, ground arith), λ h. ground arith)

    go :
        (row : Option File)
        → find_file_by_path directory r db ≡ ok row
        → (status : FileStatus) × (get_file_status store db staging directory r path ≡ ok status)
          × (status.is_staged ≡ any (named directory.id r) (v.queue staging))
          × Agrees vault stored ctx db path.info status row
    go none e = (
      record {
        relative_path = r;
        is_backed_up = false;
        is_staged = any (named directory.id r) (v.queue staging);
        is_modified_since = false;
      },
      rw (get_file_status, law.contains_lem staging directory.id r sound) (rw e refl),
      refl,
      (refl, (refl, (no_backup_history, refl))),
    )
    go (some file) e = elim (Option-cases file.current_snapshot_id) [
      | inl l ↦ (
        record {
          relative_path = r;
          is_backed_up = false;
          is_staged = any (named directory.id r) (v.queue staging);
          is_modified_since = false;
        },
        rw (get_file_status, law.contains_lem staging directory.id r sound) (rw e (rw l refl)),
        refl,
        rw l (refl, (refl, (no_current_snapshot, refl))),
      )
      | inr (id, l) ↦ (
        record {
          relative_path = r;
          is_backed_up = true;
          is_staged = any (named directory.id r) (v.queue staging);
          is_modified_since =
              modified_since path.info (
                find_first (λ s. text_eq s.id id)
                  (get_file_snapshots_by_file_id file.id db.tables));
        },
        rw (get_file_status, law.contains_lem staging directory.id r sound) (rw e (rw l refl)),
        refl,
        rw l (
          refl,
          version
              (find_first (λ s. text_eq s.id id) (get_file_snapshots_by_file_id file.id db.tables)),
        ),
      )
    ]
