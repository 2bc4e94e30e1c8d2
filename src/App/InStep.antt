-- ===== src/App/InStep.antt =====
-- The record of operations of the local database beside the version of its copy in the vault, as
-- internal/app/app.go compares them.
use bt_go.Prelude.{
  ℕ, ◌≤◌, ◌≡◌, refl, sym, ◌∙◌, ap, [], Text, Bytes, length, Result, ok, err, Act, reads, continue,
  ◌>>=◌, Bool-cases, Option-cases, inl, inr, ◌==◌,
}
use bt_go.Models.{FileSnapshot, Directory}
use bt_go.Database.Queries.{largest}
use bt_go.Database.Sqlite.{Sources, find_content_by_checksum, find_directory_by_id}
use bt_go.Database.Keeping.{log_of, create_file_snapshot_and_content-KeepsLog}
use bt_go.Vault.{Vault}
use bt_go.Vault.Metadata.{MetadataStorage}
use bt_go.Encryption.{Encryptor}
use bt_go.Service.Backup.{
  Backend, on_vault, backup_file, backup_new, upload, upload_plain, upload_encrypted,
  encrypt_content, stamp, record_snapshot,
}
use bt_go.App.{db_name}

-- The largest id is not above the last one that was given out, and the vault's version of the
-- database is not above the largest id.
pub record InStep {V : Type 0} (vault : Vault V) (host_id : Text) (w : Backend V) : Type 0 where
  pub given : largest w.db.tables.backup_operations ≤ w.db.tables.sequence
  pub remote :
      (r : ℕ)
      → vault.get_metadata_version host_id db_name w.stored ≡ ok r
      → r ≤ largest w.db.tables.backup_operations

module _ {V : Type 0} (vault : Vault V) (host_id : Text) where
  -- An action that changes neither the record of operations nor the version in the vault.
  abbrev pub Steady : {A : Type 0} → Act (Backend V) A → Type 0
  Steady m =
      (w : Backend V)
      → (log_of (m w).1.db.tables ≡ log_of w.db.tables)
        × (vault.get_metadata_version host_id db_name (m w).1.stored
            ≡ vault.get_metadata_version host_id db_name w.stored)

  module _ {A B : Type 0} where
    pub Steady-bind :
        (m : Act (Backend V) A) (f : A → Act (Backend V) B)
        → Steady m
        → ((a : A) → Steady (f a))
        → Steady (m >>= f)
    Steady-bind m f h k w = go (m w).0 (m w).1 (h w)
      where
        go :
            (r : Result A) (after : Backend V)
            → (log_of after.db.tables ≡ log_of w.db.tables)
              × (vault.get_metadata_version host_id db_name after.stored
                  ≡ vault.get_metadata_version host_id db_name w.stored)
            → (log_of (continue r f after).1.db.tables ≡ log_of w.db.tables)
              × (vault.get_metadata_version host_id db_name (continue r f after).1.stored
                  ≡ vault.get_metadata_version host_id db_name w.stored)
        go (ok a) after (l, v) = ((k a after).0 ∙ l, (k a after).1 ∙ v)
        go (err e) after (l, v) = (l, v)

  -- What is in step stays so.
  pub steady-InStep :
      (w after : Backend V)
      → (log_of after.db.tables ≡ log_of w.db.tables)
        × (vault.get_metadata_version host_id db_name after.stored
            ≡ vault.get_metadata_version host_id db_name w.stored)
      → InStep vault host_id w
      → InStep vault host_id after
  steady-InStep w after (l, v) i =
      let ops = ap (λ p. largest p.0) l in
      let seq = ap (λ p. p.1) l in
      record { given = rw (ops, seq) i.given; remote = λ r h. rw ops (i.remote r (sym v ∙ h)) }

module _ {V : Type 0} (vault : Vault V) (sha256_hex : Bytes → Text) (encryptor : Encryptor)
    (db_sources sources : Sources) (host_id : Text) (meta : MetadataStorage vault) where
  record_snapshot-Steady :
      (d r : Text) (s : FileSnapshot) (e : Text)
      → Steady vault host_id (record_snapshot vault sha256_hex encryptor db_sources sources d r s e)
  record_snapshot-Steady d r s e w =
      (create_file_snapshot_and_content-KeepsLog db_sources d r s e w.db, refl)

  stamp-Steady :
      (s : FileSnapshot)
      → Steady vault host_id (stamp vault sha256_hex encryptor db_sources sources s)
  unfolding stamp
  stamp-Steady s w = (refl, refl)

  put-Steady :
      (c : Text) (r : Result Bytes) (n : ℕ)
      → Steady vault host_id (on_vault (vault.put_content c r n))
  put-Steady c r n w = (refl, meta.content_version w.stored host_id db_name c r n)

  upload_plain-Steady :
      (b : Bytes) (s : FileSnapshot) (d r : Text)
      → Steady vault host_id (upload_plain vault sha256_hex encryptor db_sources sources b s d r)
  unfolding upload_plain
  upload_plain-Steady b s d r =
      Steady-bind vault host_id (on_vault (vault.put_content s.content_id (ok b) s.size)) _
        (put-Steady s.content_id (ok b) s.size) (λ _. record_snapshot-Steady d r s [])

  upload_encrypted-Steady :
      (b : Bytes) (s : FileSnapshot) (d r : Text)
      → Steady vault host_id
          (upload_encrypted vault sha256_hex encryptor db_sources sources b s d r)
  unfolding upload_encrypted encrypt_content
  upload_encrypted-Steady b s d r =
      Steady-bind vault host_id (encrypt_content vault sha256_hex encryptor db_sources sources b) _
        (λ w. (refl, refl))
        (λ cipher.
          Steady-bind vault host_id
            (on_vault (vault.put_content (sha256_hex cipher) (ok cipher) (length cipher))) _
            (put-Steady (sha256_hex cipher) (ok cipher) (length cipher))
            (λ _. record_snapshot-Steady d r s (sha256_hex cipher)))

  upload-Steady :
      (b : Bytes) (dir : Directory) (s : FileSnapshot) (d r : Text)
      → Steady vault host_id (upload vault sha256_hex encryptor db_sources sources b dir s d r)
  unfolding upload
  upload-Steady b dir s d r = elim (Bool-cases (dir.encrypted == 0)) [
    | inl e ↦ rw e (upload_plain-Steady b s d r)
    | inr e ↦ rw e (upload_encrypted-Steady b s d r)
  ]

  backup_new-Steady :
      (b : Bytes) (s : FileSnapshot) (d r : Text)
      → Steady vault host_id (backup_new vault sha256_hex encryptor db_sources sources b s d r)
  unfolding backup_new
  backup_new-Steady b s d r =
      Steady-bind vault host_id (reads (λ w. find_directory_by_id d w.db)) _ (λ w. (refl, refl))
        (λ found. elim (Option-cases found) [
          | inl e ↦ rw e (λ w. (refl, refl))
          | inr (dir, e) ↦ rw e (
              Steady-bind vault host_id (stamp vault sha256_hex encryptor db_sources sources s)
                (λ t. upload vault sha256_hex encryptor db_sources sources b dir t d r)
                (stamp-Steady s) (λ t. upload-Steady b dir t d r))
        ])

  -- The callback of the backup.
  pub backup_file-Steady :
      (b : Bytes) (s : FileSnapshot) (d r : Text)
      → Steady vault host_id (backup_file vault sha256_hex encryptor db_sources sources b s d r)
  unfolding backup_file
  backup_file-Steady b s d r =
      Steady-bind vault host_id (reads (λ w. find_content_by_checksum s.content_id w.db)) _
        (λ w. (refl, refl))
        (λ existing. elim (Option-cases existing) [
          | inl e ↦ rw e (backup_new-Steady b s d r)
          | inr (x, e) ↦ rw e (
              Steady-bind vault host_id (stamp vault sha256_hex encryptor db_sources sources s)
                (λ t. record_snapshot vault sha256_hex encryptor db_sources sources d r t [])
                (stamp-Steady s) (λ t. record_snapshot-Steady d r t []))
        ])
