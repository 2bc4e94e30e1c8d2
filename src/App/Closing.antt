-- ===== src/App/Closing.antt =====
-- Close, uploadMetadata and uploadKeyMetadata of internal/app/app.go.
use bt_go.Prelude.{
  ℕ, suc, Bool, List, [], ◌∷◌, ◌++◌, Text, Bytes, codes, Result, Error, ok, err, length, Act, lift,
  ◌>>=◌, ◌>>◌, if◌then◌else◌,
}
use bt_go.Database.Tables.{Tables}
use bt_go.Database.Sqlite.{Sources, finish_backup_operation}
use bt_go.Vault.{Vault}
use bt_go.Encryption.{Encryptor}
use bt_go.Service.Backup.{Backend, on_db, on_vault}
use bt_go.App.Operation.{BackupOperation, persisted}
use bt_go.App.{BtApp, db_name}

-- What Close finds outside the program: the copy of the database that BackupTo makes, whether the
-- key files are there, and what is in them.
pub record Surroundings : Type 0 where
  pub dump : Tables → Result Bytes
  pub is_configured : Bool
  pub key_file : Text → Result Bytes
  pub public_key_path : Text
  pub private_key_path : Text

-- The errors that were collected.
abbrev pub errors_of : Result (Unit {0}) → List Error
errors_of (ok _) = []
errors_of (err e) = e ∷ []

module _ {V : Type 0} (vault : Vault V) (encryptor : Encryptor) (host_id : Text)
    (around : Surroundings) where
  -- The encrypted copy, which goes through a temporary file.
  unfoldable pub encrypt_backup : Bytes → Act (Backend V) Bytes
  encrypt_backup contents w =
      (encryptor.encrypt w.encryptions (ok contents), record w { encryptions = suc w.encryptions })

  abbrev pub put_db : Bytes → ℕ → Act (Backend V) (Unit {0})
  put_db contents version =
      on_vault (vault.put_metadata host_id db_name (ok contents) (length contents) version)

  unfoldable pub upload_metadata : Bytes → ℕ → Act (Backend V) (Unit {0})
  unfolding encrypt_backup
  upload_metadata contents version =
      if around.is_configured
      then (do cipher ← encrypt_backup contents; put_db cipher version)
      else put_db contents version

  unfoldable pub upload_key : Text → Text → Act (Backend V) (Unit {0})
  upload_key name path = do
    contents ← lift (around.key_file path)
    on_vault (vault.put_metadata host_id name (ok contents) (length contents) 1)

  -- The loop over the two keys.
  unfoldable pub upload_key_metadata : Act (Backend V) (Unit {0})
  unfolding upload_key
  upload_key_metadata = do
    upload_key (codes "public_key") around.public_key_path
    upload_key (codes "private_key") around.private_key_path

  -- The copy of the database as it is after the operation was finished, under the operation's id.
  unfoldable pub upload_dump : ℕ → Act (Backend V) (Unit {0})
  unfolding upload_metadata
  upload_dump version w = elim (around.dump w.db.tables) [
    | err e ↦ (err e, w)
    | ok contents ↦ upload_metadata contents version w
  ]

  abbrev pub upload_keys_if_configured : Act (Backend V) (Unit {0})
  upload_keys_if_configured w = if around.is_configured then upload_key_metadata w else (ok tt, w)

module _ {V : Type 0} (vault : Vault V) (encryptor : Encryptor) (host_id : Text)
    (around : Surroundings) (db_sources : Sources) where
  -- Each step is made whatever became of those before it.
  unfoldable pub finish_and_upload : BackupOperation → Backend V → List Error × Backend V
  unfolding upload_dump upload_key_metadata
  finish_and_upload op w =
      let finished = on_db (finish_backup_operation db_sources op.id op.status) w in
      let uploaded = upload_dump vault encryptor host_id around op.id finished.1 in
      let keys = upload_keys_if_configured vault encryptor host_id around uploaded.1 in
      (errors_of finished.0 ++ (errors_of uploaded.0 ++ errors_of keys.0), keys.1)

module _ {V S : Type 0} (vault : Vault V) (encryptor : Encryptor) (host_id : Text)
    (around : Surroundings) (db_sources : Sources) where
  -- An operation that was not recorded leaves nothing to upload.
  abbrev pub close_persisted : BtApp V S → List Error × Backend V → List Error × BtApp V S
  close_persisted app (errors, w) = (errors, record app { backend = w })

  unfoldable pub close_app : BtApp V S → List Error × BtApp V S
  unfolding finish_and_upload
  close_app app =
      if persisted app.op
      then close_persisted app
          (finish_and_upload vault encryptor host_id around db_sources app.op app.backend)
      else ([], app)
