-- ===== src/Encryption/Age.antt =====
-- internal/encryption/age.go: the encryptor on the age library.
--
-- The library is a parameter. The n-th call that draws randomness is told n. The key files are a
-- map from paths; directories are made as needed, and a file can be written. An encryption that
-- fails has written nothing.
pub mod Setup
use bt_go.Prelude.{
  ℕ, suc, Bool, true, false, ◌&&◌, Option, none, some, List, [], ◌∷◌, ◌++◌, Text, Bytes, codes,
  Assoc, lookup, insert, Result, ok, err, not_found, bad_key_file, no_identity, Act,
}
use bt_go.Encryption.{Encryptor, DecryptionContext}

-- filippo.io/age: the type of X25519 identities, and the interfaces Identity and Recipient, which
-- these, their public keys and the passphrases implement.
pub record Age (X25519 Identity Recipient : Type 0) : Type 0 where
  pub generate : ℕ → Result X25519
  pub recipient : X25519 → Recipient
  pub identity : X25519 → Identity
  pub recipient_string : X25519 → Text
  pub identity_string : X25519 → Text
  pub parse_recipients : Bytes → Result (List Recipient)
  pub parse_identities : Bytes → Result (List Identity)
  pub scrypt_recipient : Text → Result Recipient
  pub scrypt_identity : Text → Result Identity
  pub encrypt : ℕ → Recipient → Bytes → Result Bytes
  pub decrypt : Identity → Bytes → Result Bytes

pub record AgeEncryptor : Type 0 where
  pub public_key_path : Text
  pub private_key_path : Text

abbrev pub line : Text → Bytes
line text = text ++ (10 ∷ [])

abbrev pub read_key : Text → Assoc Bytes → Result Bytes
read_key path files = elim (lookup path files) [ none ↦ err not_found | some b ↦ ok b ]

-- os.Stat finds the file.
abbrev pub is_there : Option Bytes → Bool
is_there none = false
is_there (some b) = true

-- The first entry of a key file.
abbrev pub first_entry : {A : Type 0} → Result (List A) → Result A
first_entry (err e) = err e
first_entry (ok []) = err no_identity
first_entry (ok (a ∷ rest)) = ok a

module _ {X I R : Type 0} (age : Age X I R) (e : AgeEncryptor) where
  -- The private key, behind the passphrase; `n` counts the calls that draw randomness.
  unfoldable pub write_private_key : ℕ → Text → X → Act (Assoc Bytes) (Unit {0})
  write_private_key n passphrase identity files = elim (age.scrypt_recipient passphrase) [
    | err x ↦ (err x, insert e.private_key_path [] files)
    | ok r ↦ elim (age.encrypt (suc n) r (line (age.identity_string identity))) [
      | err x ↦ (err x, insert e.private_key_path [] files)
      | ok cipher ↦ (ok tt, insert e.private_key_path cipher files)
    ]
  ]

  unfoldable pub setup : ℕ → Text → Act (Assoc Bytes) (Unit {0})
  unfolding write_private_key
  setup n passphrase files = elim (age.generate n) [
    | err x ↦ (err x, files)
    | ok identity ↦
        write_private_key n passphrase identity
          (insert e.public_key_path (line (age.recipient_string identity)) files)
  ]

  unfoldable pub load_recipient : Assoc Bytes → Result R
  load_recipient files = elim (read_key e.public_key_path files) [
    | err x ↦ err x
    | ok data_read ↦ first_entry (age.parse_recipients data_read)
  ]

  -- The recipient is loaded before the reader is read.
  unfoldable pub encrypt : Assoc Bytes → ℕ → Result Bytes → Result Bytes
  unfolding load_recipient
  encrypt files n reader = elim (load_recipient files) [
    | err x ↦ err x
    | ok r ↦ elim reader [ err x ↦ err x | ok b ↦ age.encrypt n r b ]
  ]

  abbrev pub age_encryptor : Assoc Bytes → Encryptor
  age_encryptor files = record { encrypt = encrypt files }

  unfoldable pub decrypt : I → Result Bytes → Result Bytes
  decrypt identity reader = elim reader [ err x ↦ err x | ok b ↦ age.decrypt identity b ]

  abbrev pub age_decryption_context : I → DecryptionContext
  age_decryption_context identity = record { decrypt = decrypt identity }

  -- The identity behind the passphrase.
  unfoldable pub open_identity : Text → Bytes → Result I
  open_identity passphrase private_data = elim (age.scrypt_identity passphrase) [
    | err x ↦ err x
    | ok s ↦ elim (age.decrypt s private_data) [
      | err x ↦ err x
      | ok key_data ↦ first_entry (age.parse_identities key_data)
    ]
  ]

  unfoldable pub unlock : Text → Assoc Bytes → Result DecryptionContext
  unfolding open_identity
  unlock passphrase files = elim (read_key e.private_key_path files) [
    | err x ↦ err x
    | ok private_data ↦ elim (open_identity passphrase private_data) [
      | err x ↦ err x
      | ok identity ↦ ok (age_decryption_context identity)
    ]
  ]

  unfoldable pub is_configured : Assoc Bytes → Bool
  is_configured files =
      is_there (lookup e.public_key_path files) && is_there (lookup e.private_key_path files)
