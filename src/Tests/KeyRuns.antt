-- ===== src/Tests/KeyRuns.antt =====
-- Keys, the first configuration, and the check of the schema.
use bt_go.Prelude.{
  ℕ, ◌≡◌, ◌↔◌, refl, false, some, List, [], ◌∷◌, Text, Bytes, codes, text_eq, Result, ok, err,
  empty_passphrase, no_identity, config_exists, decrypt_failed, arith, ◌==◌, if◌then◌else◌,
}
use bt_go.Encryption.Age.{Age, AgeEncryptor, setup, write_private_key}
use bt_go.Encryption.Age.Setup.{Documented, Unlocked, setup-Unlocked}
use bt_go.Config.{Config}
use bt_go.Commands.{Defaults, Typed, config_init}
use bt_go.Commands.ConfigInit.{config_init-again}
use bt_go.Database.Migrations.{Driver, Version, check_db_migration_status}
use bt_go.Database.Migrations.Latest.{last, check_db_migration_status_iff}

-- In place of the library: a key is a byte, and an encryption puts the key before the data.
abbrev entries : Bytes → Result (List ℕ)
entries [] = ok []
entries (c ∷ cs) = ok (c ∷ [])

abbrev opened : ℕ → Bytes → Result Bytes
opened key [] = err decrypt_failed
opened key (c ∷ cs) = if c == key then ok cs else err decrypt_failed

abbrev key_of : Text → Result ℕ
key_of [] = err empty_passphrase
key_of (c ∷ cs) = ok c

abbrev library : Age ℕ ℕ ℕ
library = record {
  generate = λ n. ok n;
  recipient = λ i. i;
  identity = λ i. i;
  recipient_string = λ r. r ∷ [];
  identity_string = λ i. i ∷ [];
  parse_recipients = entries;
  parse_identities = entries;
  scrypt_recipient = key_of;
  scrypt_identity = key_of;
  encrypt = λ n r b. ok (r ∷ b);
  decrypt = opened;
}

opens : (r : ℕ) (b cipher : Bytes) → ok (r ∷ b) ≡ ok cipher → opened r cipher ≡ ok b
opens r b [] h = cc
opens r b (c ∷ cs) h = ground (arith, h)

unlocks :
    (n : ℕ) (passphrase : Text) (r : ℕ) (b cipher : Bytes)
    → key_of passphrase ≡ ok r
    → ok (r ∷ b) ≡ ok cipher
    → (i : ℕ) × (key_of passphrase ≡ ok i) × (opened i cipher ≡ ok b)
unlocks n passphrase r b cipher k h = (r, k, opens r b cipher h)

library-Documented : Documented library
library-Documented = record {
  parse_recipient = λ r. refl;
  parse_identity = λ i. refl;
  decrypts = λ n i b cipher h. opens i b cipher h;
  unlocks = unlocks;
}

abbrev paths : AgeEncryptor
paths = record { public_key_path = codes "pub"; private_key_path = codes "key" }

setup-Unlocked_example :
    Unlocked library paths (codes "word") (setup library paths 3 (codes "word") []).1
unfolding text_eq setup write_private_key
setup-Unlocked_example =
    setup-Unlocked library library-Documented paths 3 (codes "word") [] refl refl

abbrev defaults : Defaults
defaults = record { config_path = codes "/c"; base_dir = codes "/bt"; log_dir = codes "/bt/log" }

abbrev encode : Config → Bytes
encode cfg = cfg.host_id

-- The second passphrase was mistyped.
abbrev mistyped : Typed
mistyped = record { passphrase = ok (codes "word"); confirm = ok (codes "ward") }

abbrev typed : Typed
typed = record { passphrase = ok (codes "word"); confirm = ok (codes "word") }

config_init-again_example :
    let after = (config_init library encode [] (ok defaults) (codes "h") 0 mistyped []).1 in
    config_init library encode [] (ok defaults) (codes "i") 1 typed after
    ≡ (err config_exists, after)
config_init-again_example =
    config_init-again library encode [] defaults (codes "h") (codes "i") 0 1 mistyped typed []

-- Versions 1 and 2.
abbrev after_version : ℕ → Result ℕ
after_version n = if n == 1 then ok 2 else err no_identity

abbrev migrations : Driver
migrations = record { first = ok 1; next = after_version }

abbrev current : Version
current = record { version = 2; dirty = false }

check_db_migration_status_iff_example :
    (check_db_migration_status migrations 1 (ok (some current)) ≡ ok tt)
    ↔ ((current.dirty ≡ false) × (current.version ≡ last 1 (2 ∷ [])))
check_db_migration_status_iff_example =
    check_db_migration_status_iff migrations 1 1 (2 ∷ []) current refl (refl, (no_identity, refl))
      (omega arith)
