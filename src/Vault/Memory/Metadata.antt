-- ===== src/Vault/Memory/Metadata.antt =====
-- The metadata of the vault in memory, internal/vault/memory.go.
use bt_go.Prelude.{
  ℕ, ◌≡◌, ◌∙◌, refl, false, ◌∷◌, Text, Bytes, text_eq, lookup-insert, Result, ok, err, arith,
}
use bt_go.Vault.Metadata.{MetadataStorage, text_eq-append}
use bt_go.Vault.Memory.{
  MemoryVault, metadata_key, put_content, put_metadata, get_metadata, get_metadata_version,
  memory_vault,
}
use bt_go.Vault.Memory.Laws.{put_metadata_lem}

keys_apart :
    (host n m : Text)
    → text_eq n m ≡ false
    → text_eq (metadata_key host n) (metadata_key host m) ≡ false
unfolding text_eq
keys_apart host n m h = text_eq-append host (b'/' ∷ n) (b'/' ∷ m) ∙ ground (arith, h)

put_apart_get :
    (s : MemoryVault) (host n m : Text) (r : Result Bytes) (size version : ℕ)
    → text_eq n m ≡ false
    → get_metadata host m (put_metadata host n r size version s).1 ≡ get_metadata host m s
unfolding put_metadata get_metadata
put_apart_get s host n m (err e) size version h = refl
put_apart_get s host n m (ok b) size version h = ground (
  arith,
  lookup-insert (metadata_key host n) (metadata_key host m) b s.metadata,
  keys_apart host n m h,
)

put_apart_version :
    (s : MemoryVault) (host n m : Text) (r : Result Bytes) (size version : ℕ)
    → text_eq n m ≡ false
    → get_metadata_version host m (put_metadata host n r size version s).1
      ≡ get_metadata_version host m s
unfolding put_metadata get_metadata_version
put_apart_version s host n m (err e) size version h = refl
put_apart_version s host n m (ok b) size version h = ground (
  arith,
  lookup-insert (metadata_key host n) (metadata_key host m) version s.metadata_version,
  keys_apart host n m h,
)

content_version :
    (s : MemoryVault) (host n c : Text) (r : Result Bytes) (size : ℕ)
    → get_metadata_version host n (put_content c r size s).1 ≡ get_metadata_version host n s
unfolding put_content get_metadata_version
content_version s host n c (err e) size = refl
content_version s host n c (ok b) size = ground arith

-- The vault in memory keeps metadata: an item is read back with its version, and neither another
-- item nor content changes it.
pub memory_vault-MetadataStorage : MetadataStorage memory_vault
memory_vault-MetadataStorage = record {
  put_ok = λ s host n b version. (put_metadata_lem s host n b version).0;
  put_get = λ s host n b version. (put_metadata_lem s host n b version).1;
  put_version = λ s host n b version. (put_metadata_lem s host n b version).2;
  put_apart_get =
      λ s host n m r size version apart. put_apart_get s host n m r size version apart.names;
  put_apart_version =
      λ s host n m r size version apart. put_apart_version s host n m r size version apart.names;
  content_version = content_version;
}
