-- ===== src/Service/Backup.antt =====
-- backupFile and BackupAll of internal/bt/service.go.
pub mod Backed
pub mod Safety
use bt_go.Prelude.{
  ℕ, zero, suc, ◌+◌, ◌≡◌, Bool, Option, none, some, List, [], ◌∷◌, Text, Bytes, length, Result,
  Error, ok, err, directory_not_found, encrypt_failed, Act, lift, reads, pure, fail, continue,
  ◌>>=◌, ◌>>◌, ◌==◌, if◌then◌else◌,
}
use bt_go.Models.{Time, Directory, FileSnapshot, Content}
use bt_go.Staging.Store.{StagingStore}
use bt_go.Staging.Area.{BackupFunc, process_next}
use bt_go.Database.Sqlite.{Sources, Sqlite, find_content_by_checksum, find_directory_by_id}
use bt_go.Database.Recording.{create_file_snapshot_and_content}
use bt_go.Vault.{Vault}
use bt_go.Encryption.{Encryptor}

-- What a backup changes: the database, the vault, and how often the service's own id generator and
-- clock, and the encryptor, have been called.
pub record Backend (V : Type 0) : Type 0 where
  pub db : Sqlite
  pub stored : V
  pub ids : ℕ
  pub clock : ℕ
  pub encryptions : ℕ

module _ {V A : Type 0} where
  abbrev pub on_db : Act Sqlite A → Act (Backend V) A
  on_db m w = ((m w.db).0, record w { db = (m w.db).1 })

  abbrev pub on_vault : Act V A → Act (Backend V) A
  on_vault m w = ((m w.stored).0, record w { stored = (m w.stored).1 })

module _ {V : Type 0} (vault : Vault V) (sha256_hex : Bytes → Text) (encryptor : Encryptor)
    (db_sources sources : Sources) where
  -- snapshot.ID = s.idgen.New(); snapshot.CreatedAt = s.clock.Now()
  unfoldable pub stamp : FileSnapshot → Act (Backend V) FileSnapshot
  stamp snapshot w = (
    ok (record snapshot { id = sources.new_id w.ids; created_at = sources.now w.clock }),
    record w { ids = suc w.ids; clock = suc w.clock },
  )

  abbrev pub record_snapshot : Text → Text → FileSnapshot → Text → Act (Backend V) (Unit {0})
  record_snapshot directory_id relative_path snapshot encrypted_content_id = on_db (
      create_file_snapshot_and_content db_sources directory_id relative_path snapshot
        encrypted_content_id)

  -- The encrypted bytes, which go through a temporary file.
  unfoldable pub encrypt_content : Bytes → Act (Backend V) Bytes
  encrypt_content content w =
      (encryptor.encrypt w.encryptions (ok content), record w { encryptions = suc w.encryptions })

  unfoldable pub upload_encrypted : Bytes → FileSnapshot → Text → Text → Act (Backend V) (Unit {0})
  unfolding encrypt_content
  upload_encrypted content snapshot directory_id relative_path = do
    cipher ← encrypt_content content
    on_vault (vault.put_content (sha256_hex cipher) (ok cipher) (length cipher))
    record_snapshot directory_id relative_path snapshot (sha256_hex cipher)

  unfoldable pub upload_plain : Bytes → FileSnapshot → Text → Text → Act (Backend V) (Unit {0})
  upload_plain content snapshot directory_id relative_path = do
    on_vault (vault.put_content snapshot.content_id (ok content) snapshot.size)
    record_snapshot directory_id relative_path snapshot []

  unfoldable pub upload :
      Bytes → Directory → FileSnapshot → Text → Text → Act (Backend V) (Unit {0})
  unfolding upload_encrypted upload_plain
  upload content dir snapshot directory_id relative_path =
      if dir.encrypted == 0
      then upload_plain content snapshot directory_id relative_path
      else upload_encrypted content snapshot directory_id relative_path

  unfoldable pub backup_new : Bytes → FileSnapshot → Text → Text → Act (Backend V) (Unit {0})
  unfolding upload stamp
  backup_new content snapshot directory_id relative_path = do
    found ← reads (λ w. find_directory_by_id directory_id w.db)
    elim found [
      | none ↦ fail directory_not_found
      | some dir ↦ do
        stamped ← stamp snapshot
        upload content dir stamped directory_id relative_path
    ]

  unfoldable pub backup_file : BackupFunc (Backend V)
  unfolding backup_new
  backup_file content snapshot directory_id relative_path = do
    existing ← reads (λ w. find_content_by_checksum snapshot.content_id w.db)
    elim existing [
      | some _ ↦ do stamped ← stamp snapshot; record_snapshot directory_id relative_path stamped []
      | none ↦ backup_new content snapshot directory_id relative_path
    ]
