-- ===== src/Encryption.antt =====
-- The interfaces of internal/bt/encryptor.go, and the encryptor of internal/encryption/test.go.
pub mod Header
pub mod Age
use bt_go.Prelude.{ℕ, ◌≡◌, Text, Bytes, Result, ok}

-- An encryption may draw randomness: the number says which call it is. A reader is the bytes that
-- it yields, or its error.
pub record Encryptor : Type 0 where
  pub encrypt : ℕ → Result Bytes → Result Bytes

pub record DecryptionContext : Type 0 where
  pub decrypt : Result Bytes → Result Bytes

-- What is encrypted can be decrypted, by a context of the same keys.
abbrev pub Inverts : DecryptionContext → Encryptor → Type 0
Inverts ctx enc =
    (n : ℕ) (b cipher : Bytes) → enc.encrypt n (ok b) ≡ ok cipher → ctx.decrypt (ok cipher) ≡ ok b
