-- ===== src/Vault/Disk/Laws.antt =====
-- The vault in a directory keeps what it is given.
use bt_go.Prelude.{
  ℕ, ◌≡◌, ◌≢◌, false, Text, Bytes, text_eq, text_eq_iff, text_eq_refl, lookup-insert, length,
  Result, ok, err, size_mismatch, arith, Error,
}
use bt_go.Vault.{Storage}
use bt_go.Vault.Disk.{FileSystemVault, Decimal, put_content, get_content, filesystem_vault}

put_other :
    (v : FileSystemVault) (c k : Text) (r : Result Bytes) (n : ℕ)
    → text_eq c k ≡ false
    → get_content k (put_content c r n v).1 ≡ get_content k v
unfolding put_content get_content
put_other v c k (err e) n h = ground arith
put_other v c k (ok b) n h = ground (arith, lookup-insert c k b v.content_dir)

put_short :
    (v : FileSystemVault) (c : Text) (b : Bytes) (n : ℕ)
    → length b ≢ n
    → put_content c (ok b) n v ≡ (err size_mismatch, v)
unfolding put_content
put_short v c b n h = ground arith

put_broken :
    (v : FileSystemVault) (c : Text) (e : Error) (n : ℕ) → put_content c (err e) n v ≡ (err e, v)
unfolding put_content
put_broken v c e n = ground arith

-- The vault in a directory is a storage: a complete upload can be read back, one of the wrong size
-- or with a failing reader is refused and changes nothing, and no upload touches other content.
pub filesystem_vault-Storage : (decimal : Decimal) → Storage (filesystem_vault decimal)
unfolding put_content get_content
filesystem_vault-Storage decimal = record {
  put_ok = λ v c b. ground arith;
  put_get = λ v c b h. ground (arith, lookup-insert c c b v.content_dir, text_eq_refl c);
  put_short = λ v c b n h. (size_mismatch, put_short v c b n h);
  put_broken = λ v c e n. (e, put_broken v c e n);
  put_other = put_other;
}

-- Content that is in the vault is never overwritten.
pub put_content-keeps :
    (v : FileSystemVault) (c k : Text) (old : Bytes) (r : Result Bytes) (n : ℕ)
    → get_content k v ≡ ok old
    → get_content k (put_content c r n v).1 ≡ ok old
unfolding put_content get_content
put_content-keeps v c k old (err e) n h = ground arith
put_content-keeps v c k old (ok b) n h =
    ground (arith, lookup-insert c k b v.content_dir, text_eq_iff c k)
