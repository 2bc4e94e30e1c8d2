-- ===== src/Vault/Uploads.antt =====
-- Uploads that may fail: what is relied on of PutContent, internal/bt/vault.go, when any call of it
-- can return an error.
use bt_go.Prelude.{
  ◌≡◌, ◌⊎◌, ◌∙◌, inl, inr, sym, ap, ℕ, Text, Bytes, text_eq, text_eq_sound, length, Error, ok, err,
  ◌==◌, ==_iff, Bool-cases, Result-cases, arith,
}
use bt_go.Vault.{Vault, Storage}

-- Uploads of `b` under `c`, to a vault that has no other bytes there. Whether the upload succeeds
-- or fails, what could be read can still be read, and nothing new can but `b` under `c`; and if it
-- succeeds then `b` can.
pub record Uploads {V : Type 0} (vault : Vault V) : Type 0 where
  pub keeps :
      (s : V) (c : Text) (b : Bytes) (n : ℕ) (k : Text) (x : Bytes)
      → ((y : Bytes) → vault.get_content c s ≡ ok y → y ≡ b)
      → vault.get_content k s ≡ ok x
      → vault.get_content k (vault.put_content c (ok b) n s).1 ≡ ok x
  pub adds :
      (s : V) (c : Text) (b : Bytes) (n : ℕ) (k : Text) (x : Bytes)
      → ((y : Bytes) → vault.get_content c s ≡ ok y → y ≡ b)
      → vault.get_content k (vault.put_content c (ok b) n s).1 ≡ ok x
      → (vault.get_content k s ≡ ok x) ⊎ ((c ≡ k) × (x ≡ b))
  pub stored :
      (s : V) (c : Text) (b : Bytes) (n : ℕ)
      → ((y : Bytes) → vault.get_content c s ≡ ok y → y ≡ b)
      → (vault.put_content c (ok b) n s).0 ≡ ok tt
      → vault.get_content c (vault.put_content c (ok b) n s).1 ≡ ok b

module _ {V : Type 0} (vault : Vault V) (storage : Storage vault) (s : V) (c : Text) (b : Bytes)
    (only : (y : Bytes) → vault.get_content c s ≡ ok y → y ≡ b) where
  known : (vault.get_content c s ≡ ok b) ⊎ ((e : Error) × (vault.get_content c s ≡ err e))
  known = elim (Result-cases (vault.get_content c s)) [
    | inl (y, e) ↦ inl (e ∙ ap ok (only y e))
    | inr (x, e) ↦ inr (x, e)
  ]

  full : vault.get_content c (vault.put_content c (ok b) (length b) s).1 ≡ ok b
  full = storage.put_get s c b known

  keeps_full :
      (k : Text) (x : Bytes)
      → vault.get_content k s ≡ ok x
      → vault.get_content k (vault.put_content c (ok b) (length b) s).1 ≡ ok x
  keeps_full k x e = elim (Bool-cases (text_eq c k)) [
    | inl same ↦
        let same' = text_eq_sound c k same in
        ap (λ j. vault.get_content j (vault.put_content c (ok b) (length b) s).1) (sym same')
        ∙ full
        ∙ ap ok (sym (only x (ap (λ j. vault.get_content j s) same' ∙ e)))
    | inr other ↦ storage.put_other s c k (ok b) (length b) other ∙ e
  ]

  adds_full :
      (k : Text) (x : Bytes)
      → vault.get_content k (vault.put_content c (ok b) (length b) s).1 ≡ ok x
      → (vault.get_content k s ≡ ok x) ⊎ ((c ≡ k) × (x ≡ b))
  adds_full k x e = elim (Bool-cases (text_eq c k)) [
    | inl same ↦ let same' = text_eq_sound c k same in inr (same', cc (same', full, e))
    | inr other ↦ inl (sym (storage.put_other s c k (ok b) (length b) other) ∙ e)
  ]

-- A storage, whose complete uploads succeed, is one of these vaults.
pub Storage-Uploads : {V : Type 0} (vault : Vault V) → Storage vault → Uploads vault
Storage-Uploads vault storage = record {
  keeps = λ s c b n k x only e. elim (Bool-cases (length b == n)) [
    | inl h ↦ rw (sym ((==_iff (length b) n).0 h)) (keeps_full vault storage s c b only k x e)
    | inr h ↦
        let (x, refused) = storage.put_short s c b n (λ same. ground (arith, h)) in rw refused e
  ];
  adds = λ s c b n k x only. elim (Bool-cases (length b == n)) [
    | inl h ↦ rw (sym ((==_iff (length b) n).0 h)) (adds_full vault storage s c b only k x)
    | inr h ↦
        let (x, refused) = storage.put_short s c b n (λ same. ground (arith, h)) in
        rw refused (λ e. inl e)
  ];
  stored = λ s c b n only. elim (Bool-cases (length b == n)) [
    | inl h ↦ rw (sym ((==_iff (length b) n).0 h)) (λ e. full vault storage s c b only)
    | inr h ↦
        let (x, refused) = storage.put_short s c b n (λ same. ground (arith, h)) in
        rw refused (λ e. absurd (ground (arith, e)))
  ];
}
