-- ===== src/Vault.antt =====
-- Backup storage: the interface of internal/bt/vault.go. A reader is the bytes that it yields, or
-- the error on which it breaks off; what a call writes is its result.
pub mod Metadata
pub mod Memory
pub mod Disk
pub mod S3
pub mod Uploads
use bt_go.Prelude.{
  ℕ, ◌≡◌, ◌⊎◌, ◌≢◌, false, Text, Bytes, text_eq, length, Result, Error, ok, err, Act,
}

pub record Vault (V : Type 0) : Type 0 where
  pub put_content : Text → Result Bytes → ℕ → Act V (Unit {0})
  pub get_content : Text → V → Result Bytes
  pub put_metadata : Text → Text → Result Bytes → ℕ → ℕ → Act V (Unit {0})
  pub get_metadata : Text → Text → V → Result Bytes
  pub get_metadata_version : Text → Text → V → Result ℕ
  pub validate_setup : V → Result (Unit {0})

-- What the backup relies on. `get_content` reads the content, `get_metadata_version` the version.
pub record Storage {V : Type 0} (vault : Vault V) : Type 0 where
  -- A complete upload succeeds, and what it stored, or had stored before, can be read.
  pub put_ok : (s : V) (c : Text) (b : Bytes) → (vault.put_content c (ok b) (length b) s).0 ≡ ok tt
  pub put_get :
      (s : V) (c : Text) (b : Bytes)
      → (vault.get_content c s ≡ ok b) ⊎ ((e : Error) × (vault.get_content c s ≡ err e))
      → vault.get_content c (vault.put_content c (ok b) (length b) s).1 ≡ ok b
  -- An upload of another size, or whose reader fails, is refused and changes nothing.
  pub put_short :
      (s : V) (c : Text) (b : Bytes) (n : ℕ)
      → length b ≢ n
      → (e : Error) × (vault.put_content c (ok b) n s ≡ (err e, s))
  pub put_broken :
      (s : V) (c : Text) (e : Error) (n : ℕ)
      → (e' : Error) × (vault.put_content c (err e) n s ≡ (err e', s))
  -- An upload changes no other content.
  pub put_other :
      (s : V) (c k : Text) (r : Result Bytes) (n : ℕ)
      → text_eq c k ≡ false
      → vault.get_content k (vault.put_content c r n s).1 ≡ vault.get_content k s
