-- ===== src/Vault/Memory/Laws.antt =====
-- The in-memory vault keeps what it is given.
use bt_go.Prelude.{
  ℕ, ◌≡◌, refl, false, Text, Bytes, text_eq, text_eq_refl, lookup-insert, length, Result, ok, err,
  size_mismatch, arith,
}
use bt_go.Vault.{Storage}
use bt_go.Vault.Memory.{
  MemoryVault, metadata_key, put_content, get_content, put_metadata, get_metadata,
  get_metadata_version, memory_vault,
}

-- The in-memory vault is a storage: a complete upload can be read back, one of the wrong size or
-- with a failing reader is refused and changes nothing, and no upload touches other content.
pub memory_vault-Storage : Storage memory_vault
unfolding put_content get_content
memory_vault-Storage = record {
  put_ok = λ m c b. ground arith;
  put_get = λ m c b h. ground (arith, lookup-insert c c b m.content, text_eq_refl c);
  put_short = λ m c b n h. (size_mismatch, ground arith);
  put_broken = λ m c e n. (e, refl);
  put_other = put_other;
}
  where
    put_other :
        (m : MemoryVault) (c k : Text) (r : Result Bytes) (n : ℕ)
        → text_eq c k ≡ false
        → get_content k (put_content c r n m).1 ≡ get_content k m
    put_other m c k (err e) n h = refl
    put_other m c k (ok b) n h = ground (arith, lookup-insert c k b m.content)

-- A metadata item that was stored is read back with its version, under its host and name.
pub put_metadata_lem :
    (m : MemoryVault) (host_id name : Text) (b : Bytes) (version : ℕ)
    → let r = put_metadata host_id name (ok b) (length b) version m in
      (r.0 ≡ ok tt)
      × (get_metadata host_id name r.1 ≡ ok b)
      × (get_metadata_version host_id name r.1 ≡ ok version)
unfolding put_metadata get_metadata get_metadata_version
put_metadata_lem m host_id name b version = (
  ground arith,
  ground (
    arith,
    lookup-insert (metadata_key host_id name) (metadata_key host_id name) b m.metadata,
    text_eq_refl (metadata_key host_id name),
  ),
  ground (
    arith,
    lookup-insert (metadata_key host_id name) (metadata_key host_id name) version
        m.metadata_version,
    text_eq_refl (metadata_key host_id name),
  ),
)
