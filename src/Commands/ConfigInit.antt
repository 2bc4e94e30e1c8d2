-- ===== src/Commands/ConfigInit.antt =====
-- bt config init of cmd/bt/main.go.
use bt_go.Prelude.{
  ℕ, suc, ◌≡◌, refl, true, inl, inr, Bool-cases, Result-cases, ◌++◌, Text, Bytes, text_eq,
  text_eq_refl, Assoc, lookup, insert, lookup-insert, Result, ok, err, config_exists, Act, continue,
}
use bt_go.Config.{Config, new_config}
use bt_go.Config.Factories.{
  NewEncryptor, new_age_encryptor, new_test_encryptor, new_encryptor_from_config,
}
use bt_go.Encryption.Age.{
  Age, AgeEncryptor, setup, write_private_key, line, is_configured, is_there,
}
use bt_go.Commands.{
  Defaults, Typed, config_file_init, read_passphrase, generate_keys, setup_encryptor, config_init,
}

-- Writing a file leaves every other file there.
insert-there :
    (path k : Text) (b : Bytes) (files : Assoc Bytes)
    → is_there (lookup path files) ≡ true
    → is_there (lookup path (insert k b files)) ≡ true
insert-there path k b files h = elim (Bool-cases (text_eq k path)) [
  | inl e ↦ rw (lookup-insert k path b files, e) refl
  | inr e ↦ rw (lookup-insert k path b files, e) h
]

module _ {X I R : Type 0} (age : Age X I R) (path : Text) where
  abbrev Stays : Act (Assoc Bytes) (Unit {0}) → Type 0
  Stays m =
      (files : Assoc Bytes)
      → is_there (lookup path files) ≡ true
      → is_there (lookup path (m files).1) ≡ true

  setup-Stays : (e : AgeEncryptor) (n : ℕ) (passphrase : Text) → Stays (setup age e n passphrase)
  unfolding setup write_private_key
  setup-Stays e n passphrase files h = elim (Result-cases (age.generate n)) [
    | inr (x, g) ↦ rw (setup, g) h
    | inl (i, g) ↦
        rw (setup, g)
          (elim (Result-cases (age.scrypt_recipient passphrase)) [
            | inr (x, o) ↦
                rw (write_private_key, o) (insert-there path _ _ _ (insert-there path _ _ files h))
            | inl (r, o) ↦
                rw (write_private_key, o)
                  (elim (Result-cases (age.encrypt (suc n) r (line (age.identity_string i)))) [
                    | inr (x, c) ↦ rw c (insert-there path _ _ _ (insert-there path _ _ files h))
                    | inl (cipher, c) ↦
                        rw c (insert-there path _ _ _ (insert-there path _ _ files h))
                  ])
          ])
  ]

  module _ (encode : Config → Bytes) (vault_examples : Bytes) where
    generate_keys-Stays :
        (n : ℕ) (e : AgeEncryptor) (typed : Typed)
        → Stays (generate_keys age encode vault_examples n e typed)
    unfolding generate_keys
    generate_keys-Stays n e typed files h = elim (Bool-cases (is_configured age e files)) [
      | inl x ↦ rw (generate_keys, x) h
      | inr x ↦
          rw (generate_keys, x)
            (elim (Result-cases (read_passphrase typed)) [
              | inr (y, z) ↦ rw z h
              | inl (passphrase, z) ↦ rw z (setup-Stays e n passphrase files h)
            ])
    ]

    setup_encryptor-Stays :
        (n : ℕ) (enc : NewEncryptor) (typed : Typed)
        → Stays (setup_encryptor age encode vault_examples n enc typed)
    unfolding setup_encryptor
    setup_encryptor-Stays n new_test_encryptor typed files h = h
    setup_encryptor-Stays n (new_age_encryptor cfg) typed files h =
        generate_keys-Stays n _ typed files h

    config_file_init-there :
        (cfg : Config) (files : Assoc Bytes)
        → is_there (lookup path (config_file_init encode vault_examples path cfg files).1) ≡ true
    unfolding config_file_init
    config_file_init-there cfg files = elim (Bool-cases (is_there (lookup path files))) [
      | inl x ↦ rw (config_file_init, x) x
      | inr x ↦
          rw (config_file_init, x)
            (rw (lookup-insert path path (encode cfg ++ vault_examples) files, text_eq_refl path)
              refl)
    ]

module _ {X I R : Type 0} (age : Age X I R) (encode : Config → Bytes) (vault_examples : Bytes) where
  config_init-there :
      (defaults : Defaults) (host_id : Text) (n : ℕ) (typed : Typed) (files : Assoc Bytes)
      → is_there (
          lookup defaults.config_path
            (config_init age encode vault_examples (ok defaults) host_id n typed files).1)
        ≡ true
  unfolding config_init
  config_init-there defaults host_id n typed files = elim (Result-cases started.0) [
    | inr (x, e) ↦ rw (config_init, e, continue) there
    | inl (_, e) ↦
        rw (config_init, e)
          (elim (Result-cases (new_encryptor_from_config cfg.encryption)) [
            | inr (x, c) ↦ rw c there
            | inl (enc, c) ↦ rw c (
                setup_encryptor-Stays age defaults.config_path encode vault_examples n enc typed
                  started.1 there)
          ])
  ]
    where
      cfg : Config
      cfg = new_config host_id defaults.base_dir

      started : Result (Unit {0}) × Assoc Bytes
      started = config_file_init encode vault_examples defaults.config_path cfg files

      there : is_there (lookup defaults.config_path started.1) ≡ true
      there = config_file_init-there age defaults.config_path encode vault_examples cfg files

-- However `bt config init` ends, also on an empty or a mistyped passphrase, it leaves a
-- configuration file: every later run of it with the same path, whatever is typed then, reports
-- that the configuration exists and changes nothing.
pub config_init-again :
    {X I R : Type 0} (age : Age X I R) (encode : Config → Bytes) (vault_examples : Bytes)
    (defaults : Defaults) (host_id host_id' : Text) (n n' : ℕ) (typed typed' : Typed)
    (files : Assoc Bytes)
    → let after = (config_init age encode vault_examples (ok defaults) host_id n typed files).1 in
      config_init age encode vault_examples (ok defaults) host_id' n' typed' after
      ≡ (err config_exists, after)
unfolding config_init config_file_init
config_init-again age encode vault_examples defaults host_id host_id' n n' typed typed' files =
    rw
      (
        config_init,
        config_file_init,
        config_init-there age encode vault_examples defaults host_id n typed files,
      )
      refl
