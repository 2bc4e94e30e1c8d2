-- ===== src/App/Sessions/Published.antt =====
-- The uploads of Close, internal/app/app.go.
use bt_go.Prelude.{
  ℕ, ◌<◌, ◌≡◌, inl, inr, refl, ◌∙◌, ap, Bool, true, false, codes, Text, Bytes, length, Result, ok,
  err, behind_remote, continue, Bool-cases, Result-cases, arith, if◌then◌else◌,
}
use bt_go.Database.Queries.{largest}
use bt_go.Database.Sqlite.{Sources, Sqlite, finish_backup_operation}
use bt_go.Vault.{Vault}
use bt_go.Vault.Metadata.{MetadataStorage, Apart}
use bt_go.Encryption.{Encryptor}
use bt_go.Service.Backup.{Backend}
use bt_go.App.Operation.{persisted}
use bt_go.App.{BtApp, db_name, check_version}
use bt_go.App.Closing.{
  Surroundings, finish_and_upload, close_app, upload_dump, upload_metadata, upload_key,
  upload_key_metadata, upload_keys_if_configured, encrypt_backup,
}
use bt_go.App.Sessions.Closed.{apart_public, apart_private, keys-Steady}
use bt_go.App.Sessions.Versions.{check_version_refuses}

-- What Close uploads for a copy of the database.
unfoldable pub sealed : Encryptor → Surroundings → ℕ → Bytes → Result Bytes
sealed encryptor around n contents =
    if around.is_configured then encryptor.encrypt n (ok contents) else ok contents

module _ {V : Type 0} (vault : Vault V) (encryptor : Encryptor) (host_id : Text)
    (around : Surroundings) (meta : MetadataStorage vault) where
  upload_metadata-stored :
      (w : Backend V) (contents bytes : Bytes) (version : ℕ)
      → sealed encryptor around w.encryptions contents ≡ ok bytes
      → (upload_metadata vault encryptor host_id around contents version w).1.stored
        ≡ (vault.put_metadata host_id db_name (ok bytes) (length bytes) version w.stored).1
  unfolding upload_metadata encrypt_backup sealed
  upload_metadata-stored w contents bytes version h = elim (Bool-cases around.is_configured) [
    | inl e ↦ rw (upload_metadata, e) (rw (sealing e) refl)
    | inr e ↦
        rw (upload_metadata, e)
          (ap (λ b. (vault.put_metadata host_id db_name (ok b) (length b) version w.stored).1)
            (bare e))
  ]
    where
      sealing :
          around.is_configured ≡ true → encryptor.encrypt w.encryptions (ok contents) ≡ ok bytes
      sealing e = ground arith

      bare : around.is_configured ≡ false → contents ≡ bytes
      bare e = ground arith

  upload_dump-stored :
      (w : Backend V) (contents bytes : Bytes) (version : ℕ)
      → around.dump w.db.tables ≡ ok contents
      → sealed encryptor around w.encryptions contents ≡ ok bytes
      → (upload_dump vault encryptor host_id around version w).1.stored
        ≡ (vault.put_metadata host_id db_name (ok bytes) (length bytes) version w.stored).1
  unfolding upload_dump
  upload_dump-stored w contents bytes version d h =
      rw (upload_dump, d) (upload_metadata-stored w contents bytes version h)

  upload_key-item :
      (name path : Text) (w : Backend V)
      → Apart name db_name
      → vault.get_metadata host_id db_name
          (upload_key vault encryptor host_id around name path w).1.stored
        ≡ vault.get_metadata host_id db_name w.stored
  unfolding upload_key
  upload_key-item name path w apart = elim (Result-cases (around.key_file path)) [
    | inl (b, e) ↦
        rw (upload_key, e)
          (meta.put_apart_get w.stored host_id name db_name (ok b) (length b) 1 apart)
    | inr (x, e) ↦ rw (upload_key, e) refl
  ]

  keys-item :
      (w : Backend V)
      → vault.get_metadata host_id db_name
          (upload_keys_if_configured vault encryptor host_id around w).1.stored
        ≡ vault.get_metadata host_id db_name w.stored
  unfolding upload_key_metadata
  keys-item w = go around.is_configured
    where
      public_first : Result (Unit {0}) × Backend V
      public_first =
          upload_key vault encryptor host_id around (codes "public_key") around.public_key_path w

      then_private :
          (r : Result (Unit {0})) (after : Backend V)
          → vault.get_metadata host_id db_name
              (continue r
                (λ _.
                  upload_key vault encryptor host_id around
                    (codes "private_key")
                    around.private_key_path)
                after).1.stored
            ≡ vault.get_metadata host_id db_name after.stored
      then_private (err e) after = refl
      then_private (ok _) after =
          upload_key-item (codes "private_key") around.private_key_path after apart_private

      go :
          (configured : Bool)
          → vault.get_metadata host_id db_name
              (if configured
                then upload_key_metadata vault encryptor host_id around w
                else (ok tt, w)).1.stored
            ≡ vault.get_metadata host_id db_name w.stored
      go false = refl
      go true =
          then_private public_first.0 public_first.1
          ∙ upload_key-item (codes "public_key") around.public_key_path w apart_public

-- The database as Close leaves it: the operation is finished.
abbrev pub finished : {V S : Type 0} → Sources → BtApp V S → Sqlite
finished db_sources app =
    (finish_backup_operation db_sources app.op.id app.op.status app.backend.db).1

-- For a recorded operation, where the copy of the finished database can be made and, if keys are
-- set up, encrypted, Close leaves that copy in the vault under the operation's id, whatever becomes
-- of the key files.
pub close_app-publishes :
    {V S : Type 0} (vault : Vault V) (encryptor : Encryptor) (host_id : Text)
    (around : Surroundings) (db_sources : Sources) (meta : MetadataStorage vault) (app : BtApp V S)
    (contents bytes : Bytes)
    → persisted app.op ≡ true
    → around.dump (finished db_sources app).tables ≡ ok contents
    → sealed encryptor around app.backend.encryptions contents ≡ ok bytes
    → let stored = (close_app vault encryptor host_id around db_sources app).1.backend.stored in
      (vault.get_metadata_version host_id db_name stored ≡ ok app.op.id)
      × (vault.get_metadata host_id db_name stored ≡ ok bytes)
unfolding close_app finish_and_upload upload_dump
close_app-publishes {V} vault encryptor host_id around db_sources meta app contents bytes p d h =
    rw (close_app, p) (version, item)
  where
    w : Backend V
    w = record app.backend { db = finished db_sources app }

    uploaded : Backend V
    uploaded = (upload_dump vault encryptor host_id around app.op.id w).1

    there :
        uploaded.stored
        ≡ (vault.put_metadata host_id db_name (ok bytes) (length bytes) app.op.id w.stored).1
    there = upload_dump-stored vault encryptor host_id around meta w contents bytes app.op.id d h

    version :
        vault.get_metadata_version host_id db_name
          (upload_keys_if_configured vault encryptor host_id around uploaded).1.stored
        ≡ ok app.op.id
    version =
        (keys-Steady vault encryptor host_id around meta uploaded).1
        ∙ (ap (vault.get_metadata_version host_id db_name) there
            ∙ meta.put_version w.stored host_id db_name bytes app.op.id)

    item :
        vault.get_metadata host_id db_name
          (upload_keys_if_configured vault encryptor host_id around uploaded).1.stored
        ≡ ok bytes
    item =
        keys-item vault encryptor host_id around meta uploaded
        ∙ (ap (vault.get_metadata host_id db_name) there
            ∙ meta.put_get w.stored host_id db_name bytes app.op.id)

-- After such a Close the check of NewBTApp refuses every database whose largest operation is an
-- earlier one.
pub close_app-refuses_older :
    {V S : Type 0} (vault : Vault V) (encryptor : Encryptor) (host_id : Text)
    (around : Surroundings) (db_sources : Sources) (meta : MetadataStorage vault) (app : BtApp V S)
    (contents bytes : Bytes) (older : Sqlite)
    → persisted app.op ≡ true
    → around.dump (finished db_sources app).tables ≡ ok contents
    → sealed encryptor around app.backend.encryptions contents ≡ ok bytes
    → largest older.tables.backup_operations < app.op.id
    → check_version vault host_id older
        (close_app vault encryptor host_id around db_sources app).1.backend.stored
      ≡ err behind_remote
close_app-refuses_older vault encryptor host_id around db_sources meta app contents bytes older p d
      h less =
    check_version_refuses vault host_id older
      (close_app vault encryptor host_id around db_sources app).1.backend.stored app.op.id
      (close_app-publishes vault encryptor host_id around db_sources meta app contents bytes p d
        h).0
      less
