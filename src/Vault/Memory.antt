-- ===== src/Vault/Memory.antt =====
-- internal/vault/memory.go
pub mod Laws
pub mod Metadata
use bt_go.Prelude.{
  ℕ, ◌≡◌, Bool, Option, none, some, [], ◌∷◌, ◌++◌, Text, Bytes, Assoc, lookup, insert, length,
  Result, ok, err, size_mismatch, not_found, Act, ◌==◌, if◌then◌else◌,
}
use bt_go.Vault.{Vault}

pub record MemoryVault : Type 0 where
  pub content : Assoc Bytes
  pub metadata : Assoc Bytes
  pub metadata_version : Assoc ℕ

unfoldable pub new_memory_vault : MemoryVault
new_memory_vault = record { content = []; metadata = []; metadata_version = [] }

abbrev pub metadata_key : Text → Text → Text
metadata_key host_id name = host_id ++ (b'/' ∷ name)

unfoldable pub put_content : Text → Result Bytes → ℕ → Act MemoryVault (Unit {0})
put_content checksum (err e) size m = (err e, m)
put_content checksum (ok contents) size m =
    if length contents == size
    then (ok tt, record m { content = insert checksum contents m.content })
    else (err size_mismatch, m)

unfoldable pub get_content : Text → MemoryVault → Result Bytes
get_content checksum m = elim (lookup checksum m.content) [ none ↦ err not_found | some b ↦ ok b ]

unfoldable pub put_metadata : Text → Text → Result Bytes → ℕ → ℕ → Act MemoryVault (Unit {0})
put_metadata host_id name (err e) size version m = (err e, m)
put_metadata host_id name (ok contents) size version m =
    if length contents == size
    then (
      ok tt,
      record m {
        metadata = insert (metadata_key host_id name) contents m.metadata;
        metadata_version = insert (metadata_key host_id name) version m.metadata_version;
      },
    )
    else (err size_mismatch, m)

pub get_metadata : Text → Text → MemoryVault → Result Bytes
get_metadata host_id name m = elim (lookup (metadata_key host_id name) m.metadata) [
  | none ↦ err not_found
  | some b ↦ ok b
]

-- A missing entry of the map reads as 0.
unfoldable pub get_metadata_version : Text → Text → MemoryVault → Result ℕ
get_metadata_version host_id name m = elim (lookup (metadata_key host_id name) m.metadata_version) [
  | none ↦ ok 0
  | some v ↦ ok v
]

pub validate_setup : MemoryVault → Result (Unit {0})
validate_setup m = ok tt

abbrev pub memory_vault : Vault MemoryVault
memory_vault = record {
  put_content = put_content;
  get_content = get_content;
  put_metadata = put_metadata;
  get_metadata = get_metadata;
  get_metadata_version = get_metadata_version;
  validate_setup = validate_setup;
}
