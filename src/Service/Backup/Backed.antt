-- ===== src/Service/Backup/Backed.antt =====
-- The uploads and the records of backupFile, internal/bt/service.go, and the agreement of database
-- and vault.
use bt_go.Prelude.{
  ℕ, ◌≡◌, ◌⊎◌, inl, inr, refl, ap, subst, ◌∙◌, false, Option, none, some, [], Text, Bytes, text_eq,
  text_eq_sound, ok, err, Error, if◌then◌else◌, Option-cases,
}
use bt_go.Models.{FileSnapshot, Content}
use bt_go.Database.Tables.{Tables}
use bt_go.Database.Queries.{get_content_by_id}
use bt_go.Database.Sqlite.{Sources, Sqlite, find_content_by_checksum}
use bt_go.Database.Recording.{create_file_snapshot_and_content}
use bt_go.Database.Recording.Inserts.{found_content}
use bt_go.Database.Recording.Outcome.{Recorded, Grown, create_file_snapshot_and_content_lem}
use bt_go.Vault.{Vault}
use bt_go.Vault.Uploads.{Uploads}
use bt_go.Encryption.{Encryptor, DecryptionContext}
use bt_go.Service.Backup.{Backend, record_snapshot}

pub found_content_lem :
    (k : Text) (db : Sqlite) → find_content_by_checksum k db ≡ ok (found_content k db.tables)
unfolding find_content_by_checksum get_content_by_id
found_content_lem k db = elim (Option-cases (found_content k db.tables)) [
  | inl e ↦ rw e refl
  | inr (c, e) ↦ rw e refl
]

-- What is used of SHA-256: no two contents have one checksum, and no checksum is empty.
pub record IsHash (sha256_hex : Bytes → Text) : Type 0 where
  pub injective : (x y : Bytes) → sha256_hex x ≡ sha256_hex y → x ≡ y
  pub nonempty : (b : Bytes) → text_eq (sha256_hex b) [] ≡ false

module _ {V : Type 0} (vault : Vault V) (sha256_hex : Bytes → Text) (ctx : DecryptionContext) where
  -- The bytes with checksum `k` can be had from the vault: under `k` itself, or, where the content
  -- record links to a ciphertext, by decrypting that.
  abbrev pub Available : V → Text → Option Text → Type 0
  Available s k none = (b : Bytes) × (vault.get_content k s ≡ ok b) × (sha256_hex b ≡ k)
  Available s k (some e) =
      (b : Bytes) × (cipher : Bytes) × (vault.get_content e s ≡ ok cipher)
      × (ctx.decrypt (ok cipher) ≡ ok b)
      × (sha256_hex b ≡ k)

  -- The vault has bytes under their checksums only, and for every content record.
  pub record IsBacked (w : Backend V) : Type 0 where
    pub hashed : (k : Text) (b : Bytes) → vault.get_content k w.stored ≡ ok b → sha256_hex b ≡ k
    pub available :
        (k : Text) (c : Content)
        → found_content k w.db.tables ≡ some c
        → Available w.stored k c.encrypted_content_id

  abbrev Keeps : V → V → Type 0
  Keeps s t = (k : Text) (b : Bytes) → vault.get_content k s ≡ ok b → vault.get_content k t ≡ ok b

  Available-mono :
      (s t : V) (k : Text) (link : Option Text)
      → Keeps s t
      → Available s k link
      → Available t k link
  Available-mono s t k none keeps (b, e, h) = (b, keeps k b e, h)
  Available-mono s t k (some x) keeps (b, cipher, e, d, h) = (b, cipher, keeps x cipher e, d, h)

  module _ (encryptor : Encryptor) (is_hash : IsHash sha256_hex) (uploads : Uploads vault) where
    -- Bytes that are under the checksum of `b` already are `b`.
    pub only :
        (s : V) (b : Bytes)
        → ((k : Text) (x : Bytes) → vault.get_content k s ≡ ok x → sha256_hex x ≡ k)
        → (y : Bytes) → vault.get_content (sha256_hex b) s ≡ ok y
        → y ≡ b
    only s b hashed y e = is_hash.injective y b (hashed (sha256_hex b) y e)

    -- An upload under the bytes' own checksum, which may fail.
    pub uploaded :
        (b : Bytes) (n : ℕ) (w : Backend V)
        → IsBacked w
        → IsBacked (record w { stored = (vault.put_content (sha256_hex b) (ok b) n w.stored).1 })
    uploaded b n w back =
        let one = only w.stored b back.hashed in
        record {
          hashed = λ k x e. elim (uploads.adds w.stored (sha256_hex b) b n k x one e) [
            | inl old ↦ back.hashed k x old
            | inr (own, same) ↦ ap sha256_hex same ∙ own
          ];
          available = λ k c e.
              Available-mono w.stored _ k c.encrypted_content_id
                (λ j x. uploads.keeps w.stored (sha256_hex b) b n j x one) (back.available k c e);
        }

    module _ (db_sources sources : Sources) (d r : Text) where
      -- Recording a snapshot whose content the vault has.
      pub record_IsBacked :
          (snapshot : FileSnapshot) (encrypted : Text) (w : Backend V)
          → IsBacked w
          → (found_content snapshot.content_id w.db.tables ≡ none
              → Available w.stored snapshot.content_id
                  (if text_eq encrypted [] then none else some encrypted))
          → (text_eq encrypted [] ≡ false → Available w.stored encrypted none)
          → let res =
              record_snapshot vault sha256_hex encryptor db_sources sources d r snapshot encrypted
                w in
            IsBacked res.1
            × (((e : Error) × (res.0 ≡ err e))
                ⊎ ((res.0 ≡ ok tt) × Recorded d r snapshot res.1.db.tables))
      record_IsBacked snapshot encrypted w back own link =
          elim (create_file_snapshot_and_content_lem db_sources d r snapshot encrypted w.db) [
            | inl (e, h, same) ↦
                (record { hashed = back.hashed; available = rw same back.available }, inl (e, h))
            | inr (h, rec, grown) ↦ (
              record { hashed = back.hashed; available = λ k c e. new k c e grown },
              inr (h, rec),
            )
          ]
        where
          after : Tables
          after = (create_file_snapshot_and_content db_sources d r snapshot encrypted w.db).1.tables

          new :
              (k : Text) (c : Content)
              → found_content k after ≡ some c
              → Grown snapshot.content_id encrypted w.db.tables after
              → Available w.stored k c.encrypted_content_id
          new k c e grown = elim (Option-cases (found_content k w.db.tables)) [
            | inr (c0, old) ↦
                let same : c0 ≡ c = cc (grown.kept k c0 old, e) in
                back.available k c (old ∙ ap some same)
            | inl none_before ↦ elim (grown.added k c e) [
              | inl old ↦ back.available k c old
              | inr (inl (same, l)) ↦
                  let id = text_eq_sound snapshot.content_id k same in
                  subst (λ j. Available w.stored j c.encrypted_content_id) id
                    (rw l (own (ap (λ j. found_content j w.db.tables) id ∙ none_before)))
              | inr (inr (same, there, l)) ↦
                  subst (λ j. Available w.stored j c.encrypted_content_id)
                    (text_eq_sound encrypted k same) (rw l (link there))
            ]
          ]
