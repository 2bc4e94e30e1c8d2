-- ===== src/Vault/S3.antt =====
-- internal/vault/s3.go: a vault in a bucket of S3.
--
-- The client and the uploader are parameters: what the calls of the AWS library answer, in a state
-- of the bucket. An answer's `not_found` is NoSuchKey or NotFound, the errors that isNotFound
-- accepts. A body is the bytes that it yields, or the error on which it breaks off.
pub mod Keys
pub mod Metadata
pub mod Content
use bt_go.Prelude.{
  ℕ, Bool, not, List, [], ◌∷◌, ◌++◌, Text, Bytes, codes, text_eq, select, length, Result, Error, ok,
  err, not_found, Act, fail, continue, ◌>>=◌, ◌>>◌, if◌then◌else◌,
}
use bt_go.FilePaths.{join_pieces}
use bt_go.Vault.{Vault}
use bt_go.Vault.Disk.{Decimal}

-- s3API and s3UploadAPI, for the vault's bucket.
pub record S3Client (C : Type 0) : Type 0 where
  pub head_object : Text → C → Result (Unit {0})
  pub get_object : Text → C → Result (Result Bytes)
  pub put_object : Text → Result Bytes → ℕ → Act C (Unit {0})
  pub upload : Text → Result Bytes → ℕ → Act C (Unit {0})
  pub head_bucket : C → Result (Unit {0})

-- The fields of S3Vault beside the bucket, the client and the uploader.
pub record S3Vault : Type 0 where
  pub content_prefix : Text
  pub metadata_prefix : Text

-- strings.Join of the parts that are not empty, with "/".
unfoldable pub s3_key : List Text → Text
unfolding join_pieces
s3_key parts = join_pieces (select (λ p. not (text_eq p [])) parts)

abbrev pub content_key : S3Vault → Text → Text
content_key v checksum = s3_key (v.content_prefix ∷ checksum ∷ [])

abbrev pub data_key : S3Vault → Text → Text → Text
data_key v host_id name = s3_key (v.metadata_prefix ∷ host_id ∷ name ∷ [])

abbrev pub version_key : S3Vault → Text → Text → Text
version_key v host_id name = data_key v host_id name ++ codes ".version"

-- io.Copy or io.ReadAll of the body.
abbrev pub body_of : Result (Result Bytes) → Result Bytes
body_of (err e) = err e
body_of (ok body) = body

-- A marker's version; where there is no marker it is 0.
abbrev pub version_in : Decimal → Result (Result Bytes) → Result ℕ
version_in decimal (err not_found) = ok 0
version_in decimal (err e) = err e
version_in decimal (ok (err e)) = err e
version_in decimal (ok (ok text)) = decimal.parse_int text

module _ {C : Type 0} (client : S3Client C) (decimal : Decimal) (v : S3Vault) where
  -- Content that is there is not uploaded again, whatever the reader yields.
  unfoldable pub put_content : Text → Result Bytes → ℕ → Act C (Unit {0})
  put_content checksum reader size s = elim (client.head_object (content_key v checksum) s) [
    | ok _ ↦ (ok tt, s)
    | err not_found ↦ client.upload (content_key v checksum) reader size s
    | err e ↦ (err e, s)
  ]

  abbrev pub read_object : Text → C → Result Bytes
  read_object key s = body_of (client.get_object key s)

  unfoldable pub get_content : Text → C → Result Bytes
  get_content checksum = read_object (content_key v checksum)

  -- The item first, then its marker.
  unfoldable pub put_metadata : Text → Text → Result Bytes → ℕ → ℕ → Act C (Unit {0})
  put_metadata host_id name reader size version = do
    client.put_object (data_key v host_id name) reader size
    client.put_object (version_key v host_id name) (ok (decimal.format_int version))
        (length (decimal.format_int version))

  unfoldable pub get_metadata : Text → Text → C → Result Bytes
  get_metadata host_id name = read_object (data_key v host_id name)

  unfoldable pub get_metadata_version : Text → Text → C → Result ℕ
  get_metadata_version host_id name s =
      version_in decimal (client.get_object (version_key v host_id name) s)

  abbrev pub s3_vault : Vault C
  s3_vault = record {
    put_content = put_content;
    get_content = get_content;
    put_metadata = put_metadata;
    get_metadata = get_metadata;
    get_metadata_version = get_metadata_version;
    validate_setup = client.head_bucket;
  }
