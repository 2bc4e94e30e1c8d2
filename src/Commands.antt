-- ===== src/Commands.antt =====
-- cmd/bt/main.go: the commands that do more than call the application, with Init of
-- internal/config/config.go and GetDefaults of internal/app/defaults.go.
--
-- The TOML encoder, the terminal and the environment are parameters. Files are a map from paths.
pub mod ConfigInit
use bt_go.Prelude.{
  ℕ, Bool, true, false, not, ◌&&◌, Option, none, some, List, [], ◌∷◌, ◌++◌, Text, Bytes, codes,
  text_eq, Assoc, lookup, insert, Result, ok, err, config_exists, keys_exist, empty_passphrase,
  passphrase_mismatch, Act, lift, pure, fail, continue, ◌>>=◌, ◌>>◌, if◌then◌else◌,
}
use bt_go.FilePaths.{join}
use bt_go.Config.{Config, new_config}
use bt_go.Config.Factories.{
  NewEncryptor, new_age_encryptor, new_test_encryptor, new_encryptor_from_config,
}
use bt_go.Encryption.Age.{Age, AgeEncryptor, setup, is_configured, is_there}
use bt_go.Service.Status.{FileStatus}

-- os.Getenv gives the empty text for a variable that is not set.
pub record Environment : Type 0 where
  pub getenv : Text → Text
  pub home_dir : Result Text

abbrev pub below_home : Environment → List Text → Result Text
below_home env parts = elim env.home_dir [ err e ↦ err e | ok home ↦ ok (go home parts) ]
  where
    go : Text → List Text → Text
    go path [] = path
    go path (part ∷ rest) = go (join path part) rest

abbrev pub or_default : Text → Result Text → Result Text
or_default [] fallback = fallback
or_default (c ∷ cs) fallback = ok (c ∷ cs)

unfoldable pub get_config_path : Environment → Result Text
get_config_path env =
    or_default (env.getenv (codes "BT_CONFIG_PATH"))
      (below_home env (codes ".config" ∷ codes "bt.toml" ∷ []))

unfoldable pub get_base_dir : Environment → Result Text
get_base_dir env =
    or_default (env.getenv (codes "BT_HOME"))
      (below_home env (codes ".local" ∷ codes "share" ∷ codes "bt" ∷ []))

pub record Defaults : Type 0 where
  pub config_path : Text
  pub base_dir : Text
  pub log_dir : Text

unfoldable pub get_defaults : Environment → Result Defaults
unfolding get_config_path get_base_dir
get_defaults env = elim (get_config_path env) [
  | err e ↦ err e
  | ok config_path ↦ elim (get_base_dir env) [
    | err e ↦ err e
    | ok base_dir ↦ ok (record {
      config_path = config_path;
      base_dir = base_dir;
      log_dir = join base_dir (codes "log");
    })
  ]
]

module _ (encode : Config → Bytes) (vault_examples : Bytes) where
  -- The encoded configuration, with the examples appended.
  unfoldable pub config_file_init : Text → Config → Act (Assoc Bytes) (Unit {0})
  config_file_init path cfg files =
      if is_there (lookup path files)
      then (err config_exists, files)
      else (ok tt, insert path (encode cfg ++ vault_examples) files)

-- What the user types: the passphrase and its confirmation.
pub record Typed : Type 0 where
  pub passphrase : Result Text
  pub confirm : Result Text

unfoldable pub read_passphrase : Typed → Result Text
read_passphrase typed = elim typed.passphrase [
  | err e ↦ err e
  | ok passphrase ↦ if text_eq passphrase [] then err empty_passphrase else (elim typed.confirm [
    | err e ↦ err e
    | ok confirm ↦ if text_eq passphrase confirm then ok passphrase else err passphrase_mismatch
  ])
]

module _ {X I R : Type 0} (age : Age X I R) (encode : Config → Bytes) (vault_examples : Bytes) where
  unfoldable pub generate_keys : ℕ → AgeEncryptor → Typed → Act (Assoc Bytes) (Unit {0})
  unfolding read_passphrase
  generate_keys n enc typed files =
      if is_configured age enc files
      then (err keys_exist, files)
      else (elim (read_passphrase typed) [
        | err e ↦ (err e, files)
        | ok passphrase ↦ setup age enc n passphrase files
      ])

  -- The test encryptor has nothing to set up.
  unfoldable pub setup_encryptor : ℕ → NewEncryptor → Typed → Act (Assoc Bytes) (Unit {0})
  unfolding generate_keys
  setup_encryptor n (new_age_encryptor cfg) typed =
      generate_keys n
        (record { public_key_path = cfg.public_key_path; private_key_path = cfg.private_key_path })
        typed
  setup_encryptor n new_test_encryptor typed = fail keys_exist

  -- Its first argument is what GetDefaults returned.
  unfoldable pub config_init : Result Defaults → Text → ℕ → Typed → Act (Assoc Bytes) (Unit {0})
  unfolding config_file_init setup_encryptor
  config_init found host_id n typed = do
    defaults ← lift found
    config_file_init encode vault_examples defaults.config_path
        (new_config host_id defaults.base_dir)
    enc ← lift (new_encryptor_from_config (new_config host_id defaults.base_dir).encryption)
    setup_encryptor n enc typed

-- The letters that `bt dir status` shows.
unfoldable pub indicator : FileStatus → Text
indicator s =
    if s.is_backed_up && (s.is_modified_since && s.is_staged)
    then codes "BMS"
    else if s.is_backed_up && s.is_modified_since
    then codes "BM "
    else if s.is_backed_up && s.is_staged
    then codes "BS "
    else if s.is_backed_up
    then codes "B  "
    else if s.is_staged
    then codes "S  "
    else codes "?  "
