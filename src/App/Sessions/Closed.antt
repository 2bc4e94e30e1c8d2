-- ===== src/App/Sessions/Closed.antt =====
-- Close of internal/app/app.go, and the record of operations.
use bt_go.Prelude.{
  ℕ, suc, ◌≤◌, ◌≡◌, inl, inr, refl, sym, ◌∙◌, Bool, true, false, Option, some, List, [], ◌∷◌, map,
  codes, Text, Bytes, text_eq, length, ok, lift, Bool-cases, Result-cases, arith, ◌==◌,
  if◌then◌else◌,
}
use bt_go.Models.{Time}
use bt_go.Models
use bt_go.Database.Queries.{largest, update_backup_operation_finished}
use bt_go.Database.Sqlite.{Sources, finish_backup_operation}
use bt_go.Database.Keeping.{log_of}
use bt_go.Vault.{Vault}
use bt_go.Vault.Metadata.{MetadataStorage, Apart}
use bt_go.Encryption.{Encryptor}
use bt_go.Service.Backup.{Backend, on_vault}
use bt_go.App.Operation.{BackupOperation}
use bt_go.App.{db_name}
use bt_go.App.InStep.{InStep, Steady, Steady-bind, steady-InStep}
use bt_go.App.Closing.{
  Surroundings, encrypt_backup, put_db, upload_dump, upload_metadata, upload_keys_if_configured,
  upload_key_metadata, upload_key, finish_and_upload,
}

-- The end of an operation leaves the ids as they are.
largest_finished :
    (at : Option Time) (status : Text) (id : ℕ) (ops : List Models.BackupOperation)
    → largest (
        map (λ op. if op.id == id then record op { finished_at = at; status = status } else op) ops)
      ≡ largest ops
largest_finished at status id [] = refl
largest_finished at status id (op ∷ ops) = ground (arith, largest_finished at status id ops)

-- The keys' items are others than the database's.
pub apart_public : Apart (codes "public_key") db_name
unfolding text_eq
apart_public = record { names = refl; marker = refl; marked = refl; markers = refl }

pub apart_private : Apart (codes "private_key") db_name
unfolding text_eq
apart_private = record { names = refl; marker = refl; marked = refl; markers = refl }

module _ {V : Type 0} (vault : Vault V) (encryptor : Encryptor) (host_id : Text)
    (around : Surroundings) (meta : MetadataStorage vault) where
  upload_key-Steady :
      (name path : Text)
      → Apart name db_name
      → Steady vault host_id (upload_key vault encryptor host_id around name path)
  unfolding upload_key
  upload_key-Steady name path apart =
      Steady-bind vault host_id (lift (around.key_file path))
        (λ b. on_vault (vault.put_metadata host_id name (ok b) (length b) 1)) (λ w. (refl, refl))
        (λ b w.
          (refl, meta.put_apart_version w.stored host_id name db_name (ok b) (length b) 1 apart))

  upload_key_metadata-Steady :
      Steady vault host_id (upload_key_metadata vault encryptor host_id around)
  unfolding upload_key_metadata
  upload_key_metadata-Steady =
      Steady-bind vault host_id
        (upload_key vault encryptor host_id around (codes "public_key") around.public_key_path) _
        (upload_key-Steady (codes "public_key") around.public_key_path apart_public)
        (λ _. upload_key-Steady (codes "private_key") around.private_key_path apart_private)

  pub keys-Steady : Steady vault host_id (upload_keys_if_configured vault encryptor host_id around)
  keys-Steady w = go around.is_configured
    where
      go :
          (configured : Bool)
          → let after =
              if configured
              then upload_key_metadata vault encryptor host_id around w
              else (ok tt, w) in
            (log_of after.1.db.tables ≡ log_of w.db.tables)
            × (vault.get_metadata_version host_id db_name after.1.stored
                ≡ vault.get_metadata_version host_id db_name w.stored)
      go true = upload_key_metadata-Steady w
      go false = (refl, refl)

  -- An upload of the database under a version that is not above the largest id.
  put_db-InStep :
      (b : Bytes) (version : ℕ) (w : Backend V)
      → version ≤ largest w.db.tables.backup_operations
      → InStep vault host_id w
      → InStep vault host_id (put_db vault encryptor host_id around b version w).1
  put_db-InStep b version w h i = record {
    given = i.given;
    remote = λ r e. ground (arith, sym (meta.put_version w.stored host_id db_name b version) ∙ e);
  }

  upload_metadata-InStep :
      (b : Bytes) (version : ℕ) (w : Backend V)
      → version ≤ largest w.db.tables.backup_operations
      → InStep vault host_id w
      → InStep vault host_id (upload_metadata vault encryptor host_id around b version w).1
  unfolding upload_metadata encrypt_backup
  upload_metadata-InStep b version w h i = elim (Bool-cases around.is_configured) [
    | inr e ↦ rw (upload_metadata, e) (put_db-InStep b version w h i)
    | inl e ↦
        rw (upload_metadata, e)
          (elim (Result-cases (encryptor.encrypt w.encryptions (ok b))) [
            | inr (x, z) ↦ rw z (record { given = i.given; remote = i.remote })
            | inl (cipher, z) ↦ rw z (
                put_db-InStep cipher version (record w { encryptions = suc w.encryptions }) h
                  (record { given = i.given; remote = i.remote }))
          ])
  ]

  upload_dump-InStep :
      (version : ℕ) (w : Backend V)
      → version ≤ largest w.db.tables.backup_operations
      → InStep vault host_id w
      → InStep vault host_id (upload_dump vault encryptor host_id around version w).1
  unfolding upload_dump
  upload_dump-InStep version w h i = elim (Result-cases (around.dump w.db.tables)) [
    | inr (x, z) ↦ rw (upload_dump, z) i
    | inl (b, z) ↦ rw (upload_dump, z) (upload_metadata-InStep b version w h i)
  ]

  pub finish_and_upload-InStep :
      (db_sources : Sources) (op : BackupOperation) (w : Backend V)
      → op.id ≤ largest w.db.tables.backup_operations
      → InStep vault host_id w
      → InStep vault host_id (finish_and_upload vault encryptor host_id around db_sources op w).1
  unfolding finish_and_upload finish_backup_operation update_backup_operation_finished
  finish_and_upload-InStep db_sources op w h i = steady-InStep vault host_id _ _ (keys-Steady _) (
      upload_dump-InStep op.id _ (rw same h)
        (record { given = rw same i.given; remote = λ r e. rw same (i.remote r e) }))
    where
      same :
          largest (
            map
              (λ o.
                if o.id == op.id
                then record o { finished_at = some (db_sources.now w.db.clock); status = op.status }
                else o)
              w.db.tables.backup_operations)
          ≡ largest w.db.tables.backup_operations
      same =
          largest_finished (some (db_sources.now w.db.clock)) op.status op.id
            w.db.tables.backup_operations
