-- ===== src/Vault/S3/Keys.antt =====
-- s3Key of internal/vault/s3.go: the keys of two objects beside each other.
use bt_go.Prelude.{ℕ, ◌≡◌, refl, sym, ◌∙◌, [], ◌∷◌, ◌++◌, Text, codes, text_eq, arith}
use mathlib.Core.List.{append_assoc, append-nil}
use bt_go.FilePaths.{join_pieces}
use bt_go.Vault.Metadata.{Apart, text_eq-append}
use bt_go.Vault.S3.{S3Vault, s3_key, content_key}

-- What a name adds to the key of its host.
abbrev tail : Text → Text
tail [] = []
tail (c ∷ cs) = b'/' ∷ c ∷ cs

tail-Apart : (n m : Text) → Apart n m → Apart (tail n) (tail m)
unfolding text_eq
tail-Apart [] [] apart = absurd (ground (arith, apart.names))
tail-Apart [] (d ∷ ds) apart = record { names = refl; marker = refl; marked = refl; markers = refl }
tail-Apart (c ∷ cs) [] apart = record { names = refl; marker = refl; marked = refl; markers = refl }
tail-Apart (c ∷ cs) (d ∷ ds) apart = record {
  names = apart.names;
  marker = apart.marker;
  marked = apart.marked;
  markers = apart.markers;
}

append-Apart : (b x y : Text) → Apart x y → Apart (b ++ x) (b ++ y)
append-Apart b x y apart = record {
  names = text_eq-append b x y ∙ apart.names;
  marker = rw (append_assoc b x (codes ".version")) (text_eq-append b _ y ∙ apart.marker);
  marked = rw (append_assoc b y (codes ".version")) (text_eq-append b x _ ∙ apart.marked);
  markers =
      rw (append_assoc b x (codes ".version"), append_assoc b y (codes ".version"))
        (text_eq-append b _ _ ∙ apart.markers);
}

abbrev key : Text → Text → Text → Text
key prefix host n = s3_key (prefix ∷ host ∷ n ∷ [])

bare_key : (n : Text) → key [] [] n ≡ n
unfolding s3_key join_pieces text_eq
bare_key [] = refl
bare_key (c ∷ cs) = refl

prefix_key : (p : ℕ) (ps n : Text) → key (p ∷ ps) [] n ≡ (p ∷ ps) ++ tail n
unfolding s3_key join_pieces text_eq
prefix_key p ps [] = sym (append-nil (p ∷ ps))
prefix_key p ps (c ∷ cs) = refl

host_key : (h : ℕ) (hs n : Text) → key [] (h ∷ hs) n ≡ (h ∷ hs) ++ tail n
unfolding s3_key join_pieces text_eq
host_key h hs [] = sym (append-nil (h ∷ hs))
host_key h hs (c ∷ cs) = refl

full_key :
    (p : ℕ) (ps : Text) (h : ℕ) (hs n : Text)
    → key (p ∷ ps) (h ∷ hs) n ≡ ((p ∷ ps) ++ (b'/' ∷ h ∷ hs)) ++ tail n
unfolding s3_key join_pieces text_eq
full_key p ps h hs [] = sym (append-nil ((p ∷ ps) ++ (b'/' ∷ h ∷ hs)))
full_key p ps h hs (c ∷ cs) = sym (append_assoc (p ∷ ps) (b'/' ∷ h ∷ hs) (b'/' ∷ c ∷ cs))

-- Names that are apart have keys that are apart.
pub key-Apart : (prefix host n m : Text) → Apart n m → Apart (key prefix host n) (key prefix host m)
key-Apart [] [] n m a = rw (bare_key n, bare_key m) a
key-Apart (p ∷ ps) [] n m a =
    rw (prefix_key p ps n, prefix_key p ps m) (append-Apart (p ∷ ps) _ _ (tail-Apart n m a))
key-Apart [] (h ∷ hs) n m a =
    rw (host_key h hs n, host_key h hs m) (append-Apart (h ∷ hs) _ _ (tail-Apart n m a))
key-Apart (p ∷ ps) (h ∷ hs) n m a =
    rw (full_key p ps h hs n, full_key p ps h hs m)
      (append-Apart ((p ∷ ps) ++ (b'/' ∷ h ∷ hs)) _ _ (tail-Apart n m a))

tail_eq : (n m : Text) → text_eq (tail n) (tail m) ≡ text_eq n m
unfolding text_eq
tail_eq [] [] = refl
tail_eq [] (d ∷ ds) = refl
tail_eq (c ∷ cs) [] = refl
tail_eq (c ∷ cs) (d ∷ ds) = ground arith

-- Keys of one prefix and host agree exactly if the names do.
pub key_eq :
    (prefix host n m : Text) → text_eq (key prefix host n) (key prefix host m) ≡ text_eq n m
key_eq [] [] n m = rw (bare_key n, bare_key m) refl
key_eq (p ∷ ps) [] n m =
    rw (prefix_key p ps n, prefix_key p ps m) (text_eq-append (p ∷ ps) _ _ ∙ tail_eq n m)
key_eq [] (h ∷ hs) n m =
    rw (host_key h hs n, host_key h hs m) (text_eq-append (h ∷ hs) _ _ ∙ tail_eq n m)
key_eq (p ∷ ps) (h ∷ hs) n m =
    rw (full_key p ps h hs n, full_key p ps h hs m)
      (text_eq-append ((p ∷ ps) ++ (b'/' ∷ h ∷ hs)) _ _ ∙ tail_eq n m)

-- A key of two parts.
pub content_key_eq :
    (v : S3Vault) (c k : Text) → text_eq (content_key v c) (content_key v k) ≡ text_eq c k
unfolding s3_key text_eq
content_key_eq v c k = key_eq [] v.content_prefix c k
