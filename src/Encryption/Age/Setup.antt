-- ===== src/Encryption/Age/Setup.antt =====
-- Setup and Unlock of internal/encryption/age.go.
use bt_go.Prelude.{
  ℕ, suc, ◌≡◌, ◌∙◌, refl, sym, true, false, inl, inr, some, [], ◌∷◌, Text, Bytes, text_eq,
  text_eq_refl, Assoc, lookup, insert, lookup-insert, ok, Result-cases, arith,
}
use bt_go.Encryption.{DecryptionContext, Inverts}
use bt_go.Encryption.Age.{
  Age, AgeEncryptor, line, write_private_key, setup, load_recipient, encrypt, age_encryptor,
  decrypt, age_decryption_context, open_identity, unlock, is_configured,
}

-- What the library's documentation promises: the keys of an X25519 identity are parsed as they
-- are printed, what is encrypted to such a key is decrypted by it, and so with a passphrase.
pub record Documented {X I R : Type 0} (age : Age X I R) : Type 0 where
  pub parse_recipient :
      (x : X) → age.parse_recipients (line (age.recipient_string x)) ≡ ok (age.recipient x ∷ [])
  pub parse_identity :
      (x : X) → age.parse_identities (line (age.identity_string x)) ≡ ok (age.identity x ∷ [])
  pub decrypts :
      (n : ℕ) (x : X) (b cipher : Bytes)
      → age.encrypt n (age.recipient x) b ≡ ok cipher
      → age.decrypt (age.identity x) cipher ≡ ok b
  pub unlocks :
      (n : ℕ) (passphrase : Text) (r : R) (b cipher : Bytes)
      → age.scrypt_recipient passphrase ≡ ok r
      → age.encrypt n r b ≡ ok cipher
      → (i : I) × (age.scrypt_identity passphrase ≡ ok i) × (age.decrypt i cipher ≡ ok b)

-- A context that the passphrase unlocks and that decrypts what is encrypted from then on.
pub record Unlocked {X I R : Type 0} (age : Age X I R) (e : AgeEncryptor) (passphrase : Text)
    (files : Assoc Bytes) : Type 0 where
  pub configured : is_configured age e files ≡ true
  pub context : DecryptionContext
  pub unlocked : unlock age e passphrase files ≡ ok context
  pub inverts : Inverts context (age_encryptor age e files)

module _ {X I R : Type 0} (age : Age X I R) (law : Documented age) (e : AgeEncryptor)
    (apart : text_eq e.private_key_path e.public_key_path ≡ false) (files : Assoc Bytes) where
  -- The two key files, after both were written.
  abbrev written : Bytes → Bytes → Assoc Bytes
  written pub_data cipher =
      insert e.private_key_path cipher (insert e.public_key_path pub_data files)

  private_there :
      (pub_data cipher : Bytes) → lookup e.private_key_path (written pub_data cipher) ≡ some cipher
  private_there pub_data cipher =
      lookup-insert e.private_key_path e.private_key_path cipher
        (insert e.public_key_path pub_data files)
      ∙ rw (text_eq_refl e.private_key_path) refl

  public_there :
      (pub_data cipher : Bytes) → lookup e.public_key_path (written pub_data cipher) ≡ some pub_data
  public_there pub_data cipher =
      lookup-insert e.private_key_path e.public_key_path cipher
        (insert e.public_key_path pub_data files)
      ∙ rw apart (
          lookup-insert e.public_key_path e.public_key_path pub_data files
          ∙ rw (text_eq_refl e.public_key_path) refl)

  both_there : (pub_data cipher : Bytes) → is_configured age e (written pub_data cipher) ≡ true
  unfolding is_configured
  both_there pub_data cipher =
      rw (is_configured, public_there pub_data cipher, private_there pub_data cipher) refl

  encrypts_written :
      (identity : X) (cipher : Bytes) (k : ℕ) (b : Bytes)
      → encrypt age e (written (line (age.recipient_string identity)) cipher) k (ok b)
        ≡ age.encrypt k (age.recipient identity) b
  unfolding encrypt load_recipient
  encrypts_written identity cipher k b =
      rw (encrypt, load_recipient, public_there, law.parse_recipient) refl

  module _ (n : ℕ) (passphrase : Text) (identity : X) (r : R) (cipher : Bytes)
      (opened : age.scrypt_recipient passphrase ≡ ok r)
      (sealed : age.encrypt (suc n) r (line (age.identity_string identity)) ≡ ok cipher) where
    abbrev keys : Assoc Bytes
    keys = written (line (age.recipient_string identity)) cipher

    unlock_written :
        unlock age e passphrase keys ≡ ok (age_decryption_context age e (age.identity identity))
    unfolding unlock open_identity
    unlock_written =
        let (i, scrypt, opens) =
          law.unlocks (suc n) passphrase r (line (age.identity_string identity)) cipher opened
            sealed in
        rw (unlock, private_there)
          (rw (open_identity, scrypt) (rw (opens, law.parse_identity) refl))

    Inverts-written :
        Inverts (age_decryption_context age e (age.identity identity)) (age_encryptor age e keys)
    unfolding decrypt
    Inverts-written k b c h =
        law.decrypts k identity b c (sym (encrypts_written identity cipher k b) ∙ h)

-- By the documented behaviour of the age library, with the two key files at different paths:
-- whenever Setup succeeds, the encryptor is configured, the same passphrase unlocks it, and the
-- context that it gives decrypts whatever the encryptor encrypts to exactly what was encrypted.
pub setup-Unlocked :
    {X I R : Type 0} (age : Age X I R) (law : Documented age) (e : AgeEncryptor) (n : ℕ)
    (passphrase : Text) (files : Assoc Bytes)
    → text_eq e.private_key_path e.public_key_path ≡ false
    → (setup age e n passphrase files).0 ≡ ok tt
    → Unlocked age e passphrase (setup age e n passphrase files).1
unfolding setup write_private_key
setup-Unlocked age law e n passphrase files apart = elim (Result-cases (age.generate n)) [
  | inr (x, g) ↦ rw (setup, g) (λ h. absurd (ground (arith, h)))
  | inl (identity, g) ↦
      rw (setup, g)
        (elim (Result-cases (age.scrypt_recipient passphrase)) [
          | inr (x, o) ↦ rw (write_private_key, o) (λ h. absurd (ground (arith, h)))
          | inl (r, o) ↦
              elim (Result-cases (age.encrypt (suc n) r (line (age.identity_string identity)))) [
                | inr (x, c) ↦ rw (write_private_key, o) (rw c (λ h. absurd (ground (arith, h))))
                | inl (cipher, c) ↦
                    rw (write_private_key, o)
                      (rw c (λ _. record {
                        configured = both_there age law e apart files _ cipher;
                        context = age_decryption_context age e (age.identity identity);
                        unlocked =
                            unlock_written age law e apart files n passphrase identity r cipher o c;
                        inverts =
                            Inverts-written age law e apart files n passphrase identity r cipher o
                              c;
                      }))
              ]
        ])
]
