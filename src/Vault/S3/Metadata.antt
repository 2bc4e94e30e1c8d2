-- ===== src/Vault/S3/Metadata.antt =====
-- PutMetadata, GetMetadata and GetMetadataVersion of internal/vault/s3.go.
use bt_go.Prelude.{
  ℕ, ◌≡◌, ◌∙◌, sym, refl, ap, false, Option, none, some, Text, Bytes, text_eq, length, Result, ok,
  err, not_found, Result-cases, Option-cases, inl, inr,
}
use bt_go.Vault.Metadata.{Apart, MetadataStorage, not_own_marker}
use bt_go.Vault.Disk.{Decimal}
use bt_go.Vault.S3.{
  S3Client, S3Vault, content_key, data_key, version_key, put_content, put_metadata, get_metadata,
  get_metadata_version, body_of, version_in, s3_vault,
}
use bt_go.Vault.S3.Keys.{key-Apart}

abbrev pub answer : Option Bytes → Result (Result Bytes)
answer none = err not_found
answer (some b) = ok (ok b)

abbrev pub presence : Option Bytes → Result (Unit {0})
presence none = err not_found
presence (some b) = ok tt

-- What the documentation of S3 promises while the service answers: reads see every write before
-- them, a complete object is taken, and no call changes an object of another key.
pub record Answers {C : Type 0} (client : S3Client C) : Type 0 where
  pub object : C → Text → Option Bytes
  pub head_lem : (s : C) (k : Text) → client.head_object k s ≡ presence (object s k)
  pub get_lem : (s : C) (k : Text) → client.get_object k s ≡ answer (object s k)
  pub put_ok : (s : C) (k : Text) (b : Bytes) → (client.put_object k (ok b) (length b) s).0 ≡ ok tt
  pub put_own :
      (s : C) (k : Text) (b : Bytes) → object (client.put_object k (ok b) (length b) s).1 k ≡ some b
  pub put_other :
      (s : C) (k j : Text) (r : Result Bytes) (n : ℕ)
      → text_eq k j ≡ false
      → object (client.put_object k r n s).1 j ≡ object s j
  pub upload_ok : (s : C) (k : Text) (b : Bytes) → (client.upload k (ok b) (length b) s).0 ≡ ok tt
  pub upload_own :
      (s : C) (k : Text) (b : Bytes) → object (client.upload k (ok b) (length b) s).1 k ≡ some b
  pub upload_other :
      (s : C) (k j : Text) (r : Result Bytes) (n : ℕ)
      → text_eq k j ≡ false
      → object (client.upload k r n s).1 j ≡ object s j

-- The two prefixes keep content and markers apart.
abbrev pub Separate : S3Vault → Type 0
Separate v =
    (checksum host name : Text) → text_eq (content_key v checksum) (version_key v host name) ≡ false

module _ {C : Type 0} (client : S3Client C) (law : Answers client) (decimal : Decimal) (v : S3Vault)
    (s : C) (host n : Text) where
  put_ok :
      (b : Bytes) (version : ℕ)
      → (put_metadata client decimal v host n (ok b) (length b) version s).0 ≡ ok tt
  unfolding put_metadata
  put_ok b version = rw (put_metadata, law.put_ok) (law.put_ok _ _ _)

  -- The state after a complete item: the item and then its marker were put.
  both :
      (b : Bytes) (version : ℕ)
      → (put_metadata client decimal v host n (ok b) (length b) version s).1
        ≡ (client.put_object
            (version_key v host n)
            (ok (decimal.format_int version))
            (length (decimal.format_int version))
            (client.put_object (data_key v host n) (ok b) (length b) s).1).1
  unfolding put_metadata
  both b version = rw (put_metadata, law.put_ok) refl

  -- Whatever becomes of it, an object of another key than these two is as before.
  others :
      (k : Text) (r : Result Bytes) (size version : ℕ)
      → text_eq (data_key v host n) k ≡ false
      → text_eq (version_key v host n) k ≡ false
      → law.object (put_metadata client decimal v host n r size version s).1 k ≡ law.object s k
  unfolding put_metadata
  others k r size version item marker =
      elim (Result-cases (client.put_object (data_key v host n) r size s).0) [
        | inr (e, x) ↦ rw (put_metadata, x) (law.put_other s _ k r size item)
        | inl (_, x) ↦
            rw (put_metadata, x) (law.put_other _ _ k _ _ marker ∙ law.put_other s _ k r size item)
      ]

  put_get :
      (b : Bytes) (version : ℕ)
      → get_metadata client decimal v host n
          (put_metadata client decimal v host n (ok b) (length b) version s).1
        ≡ ok b
  unfolding get_metadata
  put_get b version = rw (both b version) (
      ap body_of (
        law.get_lem _ (data_key v host n)
        ∙ ap answer (
            law.put_other _ (version_key v host n) (data_key v host n) _ _
              (not_own_marker (data_key v host n))
            ∙ law.put_own s (data_key v host n) b)))

  put_version :
      (b : Bytes) (version : ℕ)
      → get_metadata_version client decimal v host n
          (put_metadata client decimal v host n (ok b) (length b) version s).1
        ≡ ok version
  unfolding get_metadata_version
  put_version b version = rw (both b version) (
      ap (version_in decimal) (
        law.get_lem _ (version_key v host n)
        ∙ ap answer (law.put_own _ (version_key v host n) (decimal.format_int version)))
      ∙ decimal.round_trip version)

-- What is read under a key is what the object there says.
get_same :
    {C : Type 0} (client : S3Client C) (law : Answers client) (k : Text) (t u : C)
    → law.object t k ≡ law.object u k
    → client.get_object k t ≡ client.get_object k u
get_same client law k t u h = law.get_lem t k ∙ (ap answer h ∙ sym (law.get_lem u k))

module _ {C : Type 0} (client : S3Client C) (law : Answers client) (decimal : Decimal) (v : S3Vault)
    (s : C) (host n m : Text) (r : Result Bytes) (size version : ℕ) (apart : Apart n m) where
  abbrev keys : Apart (data_key v host n) (data_key v host m)
  keys = key-Apart v.metadata_prefix host n m apart

  put_apart_get :
      get_metadata client decimal v host m (put_metadata client decimal v host n r size version s).1
      ≡ get_metadata client decimal v host m s
  unfolding get_metadata
  put_apart_get = ap body_of (
      get_same client law (data_key v host m) _ s (
        others client law decimal v s host n (data_key v host m) r size version keys.names
          keys.marker))

  put_apart_version :
      get_metadata_version client decimal v host m
        (put_metadata client decimal v host n r size version s).1
      ≡ get_metadata_version client decimal v host m s
  unfolding get_metadata_version
  put_apart_version = ap (version_in decimal) (
      get_same client law (version_key v host m) _ s (
        others client law decimal v s host n (version_key v host m) r size version keys.marked
          keys.markers))

content_version :
    {C : Type 0} (client : S3Client C) (law : Answers client) (decimal : Decimal) (v : S3Vault)
    (apart : Separate v) (s : C) (host n c : Text) (r : Result Bytes) (size : ℕ)
    → get_metadata_version client decimal v host n (put_content client decimal v c r size s).1
      ≡ get_metadata_version client decimal v host n s
unfolding put_content get_metadata_version
content_version client law decimal v apart s host n c r size =
    elim (Option-cases (law.object s (content_key v c))) [
      | inl e ↦
          rw (put_content, law.head_lem, e)
            (ap (version_in decimal) (
              get_same client law (version_key v host n) _ s (
                law.upload_other s (content_key v c) (version_key v host n) r size
                  (apart c host n))))
      | inr (b, e) ↦ rw (put_content, law.head_lem, e) refl
    ]

-- While the service answers, and with prefixes that keep content and markers apart, the vault in a
-- bucket keeps metadata as the two local vaults do: a complete item is read back with its version,
-- and neither another item, unless it is named like a marker, nor content changes it.
pub s3_vault-MetadataStorage :
    {C : Type 0} (client : S3Client C) (law : Answers client) (decimal : Decimal) (v : S3Vault)
    → Separate v
    → MetadataStorage (s3_vault client decimal v)
s3_vault-MetadataStorage client law decimal v apart = record {
  put_ok = put_ok client law decimal v;
  put_get = put_get client law decimal v;
  put_version = put_version client law decimal v;
  put_apart_get =
      λ s host n m r size version a. put_apart_get client law decimal v s host n m r size version a;
  put_apart_version = λ s host n m r size version a.
      put_apart_version client law decimal v s host n m r size version a;
  content_version = content_version client law decimal v apart;
}
