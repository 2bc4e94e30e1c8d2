-- ===== src/Vault/Disk/Metadata.antt =====
-- The metadata of the vault in a directory, internal/vault/filesystem.go.
use bt_go.Prelude.{
  ℕ, ◌≡◌, ◌∙◌, refl, ◌∷◌, ◌++◌, Text, Bytes, codes, text_eq, text_eq_refl, lookup-insert, insert,
  length, Result, ok, err, arith,
}
use bt_go.Vault.Metadata.{Apart, MetadataStorage, text_eq-append, not_own_marker}
use bt_go.Vault.Disk.{
  FileSystemVault, Decimal, item, version_item, write_file, read_file, consume, put_content,
  put_metadata, get_metadata, get_metadata_version, filesystem_vault,
}

under : (host n m : Text) → text_eq (host ++ (b'/' ∷ n)) (host ++ (b'/' ∷ m)) ≡ text_eq n m
unfolding text_eq
under host n m = text_eq-append host (b'/' ∷ n) (b'/' ∷ m) ∙ ground arith

module _ (decimal : Decimal) (s : FileSystemVault) (host n : Text) where
  put_ok :
      (b : Bytes) (version : ℕ)
      → (put_metadata decimal host n (ok b) (length b) version s).0 ≡ ok tt
  unfolding put_metadata write_file
  put_ok b version = ground arith

  put_get :
      (b : Bytes) (version : ℕ)
      → get_metadata host n (put_metadata decimal host n (ok b) (length b) version s).1 ≡ ok b
  unfolding put_metadata write_file get_metadata read_file
  put_get b version = ground (
    arith,
    lookup-insert (version_item host n) (item host n) (decimal.format_int version)
        (insert (item host n) b s.metadata_dir),
    lookup-insert (item host n) (item host n) b s.metadata_dir,
    text_eq_refl (item host n),
    under host (n ++ codes ".version") n,
    not_own_marker n,
  )

  put_version :
      (b : Bytes) (version : ℕ)
      → get_metadata_version decimal host n
          (put_metadata decimal host n (ok b) (length b) version s).1
        ≡ ok version
  unfolding put_metadata write_file get_metadata_version
  put_version b version = ground (
    arith,
    lookup-insert (version_item host n) (version_item host n) (decimal.format_int version)
        (insert (item host n) b s.metadata_dir),
    text_eq_refl (version_item host n),
    decimal.round_trip version,
  )

  put_apart_get :
      (m : Text) (r : Result Bytes) (size version : ℕ)
      → Apart n m
      → get_metadata host m (put_metadata decimal host n r size version s).1 ≡ get_metadata host m s
  unfolding put_metadata write_file get_metadata read_file
  put_apart_get m (err e) size version apart = refl
  put_apart_get m (ok b) size version apart = ground (
    arith,
    lookup-insert (version_item host n) (item host m) (decimal.format_int version)
        (insert (item host n) b s.metadata_dir),
    lookup-insert (item host n) (item host m) b s.metadata_dir,
    under host (n ++ codes ".version") m,
    under host n m,
    apart.names,
    apart.marker,
  )

  put_apart_version :
      (m : Text) (r : Result Bytes) (size version : ℕ)
      → Apart n m
      → get_metadata_version decimal host m (put_metadata decimal host n r size version s).1
        ≡ get_metadata_version decimal host m s
  unfolding put_metadata write_file get_metadata_version
  put_apart_version m (err e) size version apart = refl
  put_apart_version m (ok b) size version apart = ground (
    arith,
    lookup-insert (version_item host n) (version_item host m) (decimal.format_int version)
        (insert (item host n) b s.metadata_dir),
    lookup-insert (item host n) (version_item host m) b s.metadata_dir,
    under host (n ++ codes ".version") (m ++ codes ".version"),
    under host n (m ++ codes ".version"),
    apart.marked,
    apart.markers,
  )

  content_version :
      (c : Text) (r : Result Bytes) (size : ℕ)
      → get_metadata_version decimal host n (put_content c r size s).1
        ≡ get_metadata_version decimal host n s
  unfolding put_content write_file consume get_metadata_version
  content_version c (err e) size = ground arith
  content_version c (ok b) size = ground arith

-- The vault in a directory keeps metadata: an item is read back with its version, and neither
-- another item, unless it is named like a marker, nor content changes it.
pub filesystem_vault-MetadataStorage :
    (decimal : Decimal) → MetadataStorage (filesystem_vault decimal)
filesystem_vault-MetadataStorage decimal = record {
  put_ok = put_ok decimal;
  put_get = put_get decimal;
  put_version = put_version decimal;
  put_apart_get = put_apart_get decimal;
  put_apart_version = put_apart_version decimal;
  content_version = content_version decimal;
}
