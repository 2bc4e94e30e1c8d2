-- ===== src/Tests/BucketRuns.antt =====
-- The vault in a bucket, on a client that keeps its objects in a map.
use bt_go.Prelude.{
  ℕ, ◌≡◌, refl, false, some, [], ◌∷◌, Text, Bytes, codes, text_eq, text_eq_refl, Assoc, lookup,
  insert, lookup-insert, length, Result, ok, err, size_mismatch, Act, arith, ◌==◌, if◌then◌else◌,
}
use bt_go.FilePaths.{join_pieces}
use bt_go.Vault.Metadata.{MetadataStorage}
use bt_go.Vault.Disk.{filesystem_vault}
use bt_go.Vault.Disk.Metadata.{filesystem_vault-MetadataStorage}
use bt_go.Vault.S3.{S3Client, S3Vault, s3_key, put_content, get_content, s3_vault}
use bt_go.Vault.S3.Metadata.{Answers, Separate, answer, presence, s3_vault-MetadataStorage}
use bt_go.Vault.S3.Content.{put_content_lem}
use bt_go.Tests.Data.{hash, content}
use bt_go.Tests.StorageRuns.{decimal}

put : Text → Result Bytes → ℕ → Act (Assoc Bytes) (Unit {0})
put k (err e) n s = (err e, s)
put k (ok b) n s = if length b == n then (ok tt, insert k b s) else (err size_mismatch, s)

abbrev bucket : S3Client (Assoc Bytes)
bucket = record {
  head_object = λ k s. presence (lookup k s);
  get_object = λ k s. answer (lookup k s);
  put_object = put;
  upload = put;
  head_bucket = λ s. ok tt;
}

put_succeeds : (s : Assoc Bytes) (k : Text) (b : Bytes) → (put k (ok b) (length b) s).0 ≡ ok tt
unfolding put
put_succeeds s k b = ground arith

put_there :
    (s : Assoc Bytes) (k : Text) (b : Bytes) → lookup k (put k (ok b) (length b) s).1 ≡ some b
unfolding put
put_there s k b = ground (arith, lookup-insert k k b s, text_eq_refl k)

put_elsewhere :
    (s : Assoc Bytes) (k j : Text) (r : Result Bytes) (n : ℕ)
    → text_eq k j ≡ false
    → lookup j (put k r n s).1 ≡ lookup j s
unfolding put
put_elsewhere s k j (err e) n h = refl
put_elsewhere s k j (ok b) n h = ground (arith, lookup-insert k j b s)

abbrev bucket_answers : Answers bucket
bucket_answers = record {
  object = λ s k. lookup k s;
  head_lem = λ s k. refl;
  get_lem = λ s k. refl;
  put_ok = put_succeeds;
  put_own = put_there;
  put_other = put_elsewhere;
  upload_ok = put_succeeds;
  upload_own = put_there;
  upload_other = put_elsewhere;
}

abbrev prefixes : S3Vault
prefixes = record { content_prefix = codes "content"; metadata_prefix = codes "metadata" }

prefixes-Separate : Separate prefixes
unfolding s3_key join_pieces text_eq
prefixes-Separate [] [] [] = refl
prefixes-Separate [] [] (n ∷ ns) = refl
prefixes-Separate [] (h ∷ hs) [] = refl
prefixes-Separate [] (h ∷ hs) (n ∷ ns) = refl
prefixes-Separate (c ∷ cs) [] [] = refl
prefixes-Separate (c ∷ cs) [] (n ∷ ns) = refl
prefixes-Separate (c ∷ cs) (h ∷ hs) [] = refl
prefixes-Separate (c ∷ cs) (h ∷ hs) (n ∷ ns) = refl

s3_vault-MetadataStorage_example : MetadataStorage (s3_vault bucket decimal prefixes)
s3_vault-MetadataStorage_example =
    s3_vault-MetadataStorage bucket bucket_answers decimal prefixes prefixes-Separate

filesystem_vault-MetadataStorage_example : MetadataStorage (filesystem_vault decimal)
filesystem_vault-MetadataStorage_example = filesystem_vault-MetadataStorage decimal

put_content_lem_example :
    let after = put_content bucket decimal prefixes (hash content) (ok content) 2 [] in
    (after.0 ≡ ok tt) × (get_content bucket decimal prefixes (hash content) after.1 ≡ ok content)
unfolding text_eq lookup
put_content_lem_example =
    put_content_lem bucket bucket_answers decimal prefixes [] (hash content) (hash content) content
