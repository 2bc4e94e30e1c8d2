-- ===== src/Service/Restore/Roundtrip.antt =====
-- A restore reads what a backup wrote.
use bt_go.Prelude.{
  ◌≡◌, inl, inr, refl, sym, ap, ◌∙◌, Option, none, some, Text, Bytes, ok, Option-cases, arith, true,
  text_eq,
}
use bt_go.Models.{FileSnapshot, Content}
use bt_go.Database.Rows.{any-none}
use bt_go.Database.Tables.{has_content}
use bt_go.Database.Sqlite.{Sources}
use bt_go.Database.Recording.Inserts.{found_content}
use bt_go.Vault.{Vault, Storage}
use bt_go.Vault.Uploads.{Storage-Uploads}
use bt_go.Encryption.{Encryptor, DecryptionContext, Inverts}
use bt_go.Service.Backup.{Backend, backup_file}
use bt_go.Service.Backup.Backed.{IsHash, Available, IsBacked, found_content_lem}
use bt_go.Service.Backup.Safety.{Kept, stamped, backup_file_lem}
use bt_go.Service.Restore.{fetch}

module _ {V : Type 0} (vault : Vault V) (sha256_hex : Bytes → Text) (ctx : DecryptionContext) where
  -- In a database and a vault that agree, the content of every snapshot with a content record can
  -- be fetched, encrypted or not, and it has the snapshot's checksum.
  pub fetch_lem :
      (w : Backend V) (snapshot : FileSnapshot)
      → IsBacked vault sha256_hex ctx w
      → has_content snapshot.content_id w.db.tables ≡ true
      → (b : Bytes) × (fetch vault w.db w.stored (some ctx) snapshot ≡ ok b)
        × (sha256_hex b ≡ snapshot.content_id)
  unfolding fetch
  fetch_lem w snapshot back stocked = elim (Option-cases (found_content id w.db.tables)) [
    | inl gone ↦
        absurd (ground (arith, stocked, any-none (λ c. text_eq c.id id) w.db.tables.contents gone))
    | inr (content, there) ↦
        got content there content.encrypted_content_id refl (back.available id content there)
  ]
    where
      id : Text
      id = snapshot.content_id

      got :
          (content : Content)
          → found_content id w.db.tables ≡ some content
          → (link : Option Text) → content.encrypted_content_id ≡ link
          → Available vault sha256_hex ctx w.stored id link
          → (b : Bytes) × (fetch vault w.db w.stored (some ctx) snapshot ≡ ok b)
            × (sha256_hex b ≡ id)
      got content there none l (b, e, h) =
          (b, rw (fetch, found_content_lem id w.db ∙ ap ok there, l) e, h)
      got content there (some link) l (b, cipher, e, plain, h) =
          (b, rw (fetch, found_content_lem id w.db ∙ ap ok there, l, e) plain, h)

  module _ (encryptor : Encryptor) (db_sources sources : Sources) where
    -- With a checksum free of collisions, a vault that is a storage and a context that inverts the
    -- encryptor: after a backup that succeeded, of content with the snapshot's checksum and from a
    -- database and a vault that agree, what a restore of that snapshot fetches is the content that
    -- was backed up.
    pub fetch-backup_file :
        (content : Bytes) (snapshot : FileSnapshot) (d r : Text) (w : Backend V)
        → IsHash sha256_hex
        → Storage vault
        → sha256_hex content ≡ snapshot.content_id
        → Inverts ctx encryptor
        → IsBacked vault sha256_hex ctx w
        → (backup_file vault sha256_hex encryptor db_sources sources content snapshot d r w).0
          ≡ ok tt
        → let res =
            backup_file vault sha256_hex encryptor db_sources sources content snapshot d r w in
          fetch vault res.1.db res.1.stored (some ctx) snapshot ≡ ok content
    fetch-backup_file content snapshot d r w is_hash storage h inverts back done = go (
        backup_file_lem vault sha256_hex ctx encryptor is_hash (Storage-Uploads vault storage)
          db_sources sources d r content snapshot w h inverts back)
      where
        after : Backend V
        after = (backup_file vault sha256_hex encryptor db_sources sources content snapshot d r w).1

        go :
            Kept vault sha256_hex ctx encryptor is_hash
              (Storage-Uploads vault storage)
              db_sources
              sources
              d
              r
              (stamped vault sha256_hex ctx encryptor is_hash
                (Storage-Uploads vault storage)
                db_sources
                sources
                d
                r
                snapshot
                w)
              (backup_file vault sha256_hex encryptor db_sources sources content snapshot d r w)
            → fetch vault after.db after.stored (some ctx) snapshot ≡ ok content
        go (kept, inl (e, failed)) = absurd (ground (arith, done, failed))
        go (kept, inr (_, recorded)) =
            let (b, e, same) = fetch_lem after snapshot kept recorded.stocked in
            e ∙ ap ok (is_hash.injective b content (same ∙ sym h))
