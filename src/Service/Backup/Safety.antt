-- ===== src/Service/Backup/Safety.antt =====
-- What a backup records can be restored.
use bt_go.Prelude.{
  suc, ◌≡◌, ◌⊎◌, inl, inr, refl, sym, ap, ◌∙◌, false, Option, none, some, [], Text, Bytes, text_eq,
  text_eq_refl, length, Result, ok, err, Error, directory_not_found, continue, ◌>>◌, arith, ◌==◌,
  if◌then◌else◌, Option-cases, Result-cases, Bool-cases,
}
use bt_go.Models.{Directory, FileSnapshot}
use bt_go.Database.Sqlite.{Sources, find_directory_by_id}
use bt_go.Database.Recording.Inserts.{found_content}
use bt_go.Database.Recording.Outcome.{Recorded}
use bt_go.Vault.{Vault}
use bt_go.Vault.Uploads.{Uploads}
use bt_go.Encryption.{Encryptor, DecryptionContext, Inverts}
use bt_go.Service.Backup.{
  Backend, on_vault, stamp, record_snapshot, encrypt_content, upload_encrypted, upload_plain,
  upload, backup_new, backup_file,
}
use bt_go.Service.Backup.Backed.{
  found_content_lem, IsHash, Available, IsBacked, only, uploaded, record_IsBacked,
}

module _ {V : Type 0} (vault : Vault V) (sha256_hex : Bytes → Text) (ctx : DecryptionContext) where
  module _ (encryptor : Encryptor) (is_hash : IsHash sha256_hex) (uploads : Uploads vault) where
    module _ (db_sources sources : Sources) (d r : Text) where
      -- The vault is left with whatever was uploaded, and the database says nothing that the vault
      -- does not have; on success the file's current version is the one backed up.
      abbrev pub Kept : FileSnapshot → Result (Unit {0}) × Backend V → Type 0
      Kept snapshot res =
          IsBacked vault sha256_hex ctx res.1
          × (((e : Error) × (res.0 ≡ err e))
              ⊎ ((res.0 ≡ ok tt) × Recorded d r snapshot res.1.db.tables))

      module _ (content : Bytes) (snapshot : FileSnapshot)
          (true_checksum : sha256_hex content ≡ snapshot.content_id) where
        -- Recording after an upload of the content itself, which may fail.
        plain_own :
            (k : Text) (w : Backend V)
            → sha256_hex content ≡ k
            → k ≡ snapshot.content_id
            → IsBacked vault sha256_hex ctx w
            → Kept snapshot (
                (on_vault (vault.put_content k (ok content) snapshot.size)
                    >> record_snapshot vault sha256_hex encryptor db_sources sources d r snapshot
                        [])
                  w)
        plain_own k w c same back = rw (← c) (elim (Result-cases put.0) [
          | inr (e, h) ↦ rw (h, continue) (after_IsBacked, inl (e, refl))
          | inl (_, h) ↦
              rw (h, continue)
                (record_IsBacked vault sha256_hex ctx encryptor is_hash uploads db_sources sources d
                  r snapshot [] after after_IsBacked (own h) link)
        ])
          where
            put : Result (Unit {0}) × V
            put = vault.put_content (sha256_hex content) (ok content) snapshot.size w.stored

            after : Backend V
            after = record w { stored = put.1 }

            after_IsBacked : IsBacked vault sha256_hex ctx after
            after_IsBacked =
                uploaded vault sha256_hex ctx encryptor is_hash uploads content snapshot.size w back

            own :
                put.0 ≡ ok tt
                → found_content snapshot.content_id w.db.tables ≡ none
                → Available vault sha256_hex ctx after.stored snapshot.content_id
                    (if text_eq [] [] then none else some [])
            own h _ = rw (text_eq_refl []) (
              content,
              ap (λ j. vault.get_content j after.stored) (sym true_checksum)
                  ∙ uploads.stored w.stored (sha256_hex content) content snapshot.size
                      (only vault sha256_hex ctx encryptor is_hash uploads w.stored content
                        back.hashed)
                      h,
              true_checksum,
            )

            link : text_eq [] [] ≡ false → Available vault sha256_hex ctx after.stored [] none
            link e = ground (arith, text_eq_refl [])

        plain_Kept :
            (w : Backend V)
            → IsBacked vault sha256_hex ctx w
            → Kept snapshot
                (upload_plain vault sha256_hex encryptor db_sources sources content snapshot d r w)
        unfolding upload_plain
        plain_Kept w back = plain_own snapshot.content_id w true_checksum refl back

        -- Recording after an upload of a ciphertext of the content, which may fail.
        cipher_own :
            (cipher : Bytes) (w : Backend V)
            → ctx.decrypt (ok cipher) ≡ ok content
            → IsBacked vault sha256_hex ctx w
            → Kept snapshot (
                (on_vault (vault.put_content (sha256_hex cipher) (ok cipher) (length cipher))
                    >> record_snapshot vault sha256_hex encryptor db_sources sources d r snapshot
                        (sha256_hex cipher))
                  w)
        cipher_own cipher w plain back = elim (Result-cases put.0) [
          | inr (e, h) ↦ rw (h, continue) (after_IsBacked, inl (e, refl))
          | inl (_, h) ↦
              rw (h, continue)
                (record_IsBacked vault sha256_hex ctx encryptor is_hash uploads db_sources sources d
                  r snapshot (sha256_hex cipher) after after_IsBacked (own h)
                  (λ _. (cipher, got h, refl)))
        ]
          where
            put : Result (Unit {0}) × V
            put = vault.put_content (sha256_hex cipher) (ok cipher) (length cipher) w.stored

            after : Backend V
            after = record w { stored = put.1 }

            after_IsBacked : IsBacked vault sha256_hex ctx after
            after_IsBacked =
                uploaded vault sha256_hex ctx encryptor is_hash uploads cipher (length cipher) w
                  back

            got : put.0 ≡ ok tt → vault.get_content (sha256_hex cipher) after.stored ≡ ok cipher
            got h =
                uploads.stored w.stored (sha256_hex cipher) cipher (length cipher)
                  (only vault sha256_hex ctx encryptor is_hash uploads w.stored cipher back.hashed)
                  h

            own :
                put.0 ≡ ok tt
                → found_content snapshot.content_id w.db.tables ≡ none
                → Available vault sha256_hex ctx after.stored snapshot.content_id
                    (if text_eq (sha256_hex cipher) [] then none else some (sha256_hex cipher))
            own h _ = rw (is_hash.nonempty cipher) (content, cipher, got h, plain, true_checksum)

        encrypted_Kept :
            Inverts ctx encryptor
            → (w : Backend V) → IsBacked vault sha256_hex ctx w
            → Kept snapshot (
                upload_encrypted vault sha256_hex encryptor db_sources sources content snapshot d r
                  w)
        unfolding upload_encrypted encrypt_content
        encrypted_Kept inverts w back =
            elim (Result-cases (encryptor.encrypt w.encryptions (ok content))) [
              | inl (cipher, h) ↦
                  rw (h, continue)
                    (cipher_own cipher (record w { encryptions = suc w.encryptions })
                      (inverts w.encryptions content cipher h) (same_world back))
              | inr (e, h) ↦ rw (h, continue) (same_world back, inl (e, refl))
            ]
          where
            same_world :
                IsBacked vault sha256_hex ctx w
                → IsBacked vault sha256_hex ctx (record w { encryptions = suc w.encryptions })
            same_world b = record { hashed = b.hashed; available = b.available }

      upload-Kept :
          (content : Bytes) (dir : Directory) (snapshot : FileSnapshot) (w : Backend V)
          → sha256_hex content ≡ snapshot.content_id
          → Inverts ctx encryptor
          → IsBacked vault sha256_hex ctx w
          → Kept snapshot
              (upload vault sha256_hex encryptor db_sources sources content dir snapshot d r w)
      unfolding upload
      upload-Kept content dir snapshot w h inverts back = elim (Bool-cases (dir.encrypted == 0)) [
        | inl clear ↦ rw clear (plain_Kept content snapshot h w back)
        | inr secret ↦ rw secret (encrypted_Kept content snapshot h inverts w back)
      ]

      -- The snapshot with the id and the time that the service gives it.
      abbrev pub stamped : FileSnapshot → Backend V → FileSnapshot
      stamped snapshot w = record snapshot {
        id = sources.new_id w.ids;
        created_at = sources.now w.clock;
      }

      -- With a checksum free of collisions, a vault any of whose uploads may fail, and a context
      -- that inverts the encryptor, a backup of a file whose snapshot carries the checksum of its
      -- content, run on a database and a vault that agree: they agree afterwards, whether it
      -- succeeds or fails at any step, a failed upload included; and if it succeeds then the file's
      -- current snapshot is the one backed up.
      pub backup_file_lem :
          (content : Bytes) (snapshot : FileSnapshot) (w : Backend V)
          → sha256_hex content ≡ snapshot.content_id
          → Inverts ctx encryptor
          → IsBacked vault sha256_hex ctx w
          → Kept
              (stamped snapshot w)
              (backup_file vault sha256_hex encryptor db_sources sources content snapshot d r w)
      unfolding backup_file backup_new stamp
      backup_file_lem content snapshot w h inverts back =
          elim (Option-cases (found_content snapshot.content_id w.db.tables)) [
            | inr (c, there) ↦
                let e = found_content_lem snapshot.content_id w.db ∙ ap ok there in
                rw (e, continue)
                  (record_IsBacked vault sha256_hex ctx encryptor is_hash uploads db_sources sources
                    d r (stamped snapshot w) [] next counted (λ gone. ground (arith, there, gone))
                    (λ f. ground (arith, f, text_eq_refl [])))
            | inl gone ↦
                let e = found_content_lem snapshot.content_id w.db ∙ ap ok gone in
                rw (e, continue) (fresh (find_directory_by_id d w.db) refl)
          ]
        where
          next : Backend V
          next = record w { ids = suc w.ids; clock = suc w.clock }

          counted : IsBacked vault sha256_hex ctx next
          counted = record { hashed = back.hashed; available = back.available }

          fresh :
              (found : Result (Option Directory))
              → find_directory_by_id d w.db ≡ found
              → Kept
                  (stamped snapshot w)
                  (backup_new vault sha256_hex encryptor db_sources sources content snapshot d r w)
          fresh (err x) e = rw (e, continue) (back, inl (x, refl))
          fresh (ok none) e = rw (e, continue) (back, inl (directory_not_found, refl))
          fresh (ok (some dir)) e =
              rw (e, continue) (upload-Kept content dir (stamped snapshot w) next h inverts counted)
