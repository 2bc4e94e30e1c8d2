-- ===== src/Vault/Metadata.antt =====
-- What the application relies on for the metadata that it keeps in a vault.
use bt_go.Prelude.{
  ℕ, ◌≡◌, refl, false, [], ◌∷◌, ◌++◌, Text, Bytes, codes, text_eq, length, Result, ok, arith,
}
use bt_go.Vault.{Vault}

-- Two names whose items, and the markers beside them, are four different files.
pub record Apart (n m : Text) : Type 0 where
  pub names : text_eq n m ≡ false
  pub marker : text_eq (n ++ codes ".version") m ≡ false
  pub marked : text_eq n (m ++ codes ".version") ≡ false
  pub markers : text_eq (n ++ codes ".version") (m ++ codes ".version") ≡ false

pub record MetadataStorage {V : Type 0} (vault : Vault V) : Type 0 where
  -- A complete item is stored, and read back with its version.
  pub put_ok :
      (s : V) (host name : Text) (b : Bytes) (version : ℕ)
      → (vault.put_metadata host name (ok b) (length b) version s).0 ≡ ok tt
  pub put_get :
      (s : V) (host name : Text) (b : Bytes) (version : ℕ)
      → vault.get_metadata host name (vault.put_metadata host name (ok b) (length b) version s).1
        ≡ ok b
  pub put_version :
      (s : V) (host name : Text) (b : Bytes) (version : ℕ)
      → vault.get_metadata_version host name
          (vault.put_metadata host name (ok b) (length b) version s).1
        ≡ ok version
  -- It leaves the other items of the host alone, and so does an upload of content.
  pub put_apart_get :
      (s : V) (host name other : Text) (r : Result Bytes) (n version : ℕ)
      → Apart name other
      → vault.get_metadata host other (vault.put_metadata host name r n version s).1
        ≡ vault.get_metadata host other s
  pub put_apart_version :
      (s : V) (host name other : Text) (r : Result Bytes) (n version : ℕ)
      → Apart name other
      → vault.get_metadata_version host other (vault.put_metadata host name r n version s).1
        ≡ vault.get_metadata_version host other s
  pub content_version :
      (s : V) (host name c : Text) (r : Result Bytes) (n : ℕ)
      → vault.get_metadata_version host name (vault.put_content c r n s).1
        ≡ vault.get_metadata_version host name s

-- Keys with one host in front.
pub text_eq-append : (h x y : Text) → text_eq (h ++ x) (h ++ y) ≡ text_eq x y
unfolding text_eq
text_eq-append [] x y = ground arith
text_eq-append (c ∷ cs) x y = ground (arith, text_eq-append cs x y)

-- A marker is not the item that it marks.
pub not_own_marker : (n : Text) → text_eq (n ++ codes ".version") n ≡ false
unfolding text_eq
not_own_marker [] = refl
not_own_marker (c ∷ cs) = ground (arith, not_own_marker cs)
