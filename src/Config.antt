-- ===== src/Config.antt =====
-- internal/config/config.go: what the configuration file says, and the one that `bt config init`
-- writes. The TOML codec is not modelled.
pub mod Factories
use bt_go.Prelude.{ℕ, Option, List, [], Text, codes}
use bt_go.FilePaths.{join}

pub record EncryptionConfig : Type 0 where
  pub kind : Text
  pub public_key_path : Text
  pub private_key_path : Text

pub record FilesystemConfig : Type 0 where
  pub ignore : List Text

pub record VaultConfig : Type 0 where
  pub kind : Text
  pub name : Text
  pub s3_bucket : Text
  pub s3_region : Text
  pub s3_content_prefix : Text
  pub s3_metadata_prefix : Text
  pub s3_access_key_id : Text
  pub s3_secret_access_key : Text
  pub fs_vault_root : Text

pub record DatabaseConfig : Type 0 where
  pub kind : Text
  pub data_dir : Text

-- The maximum is an int64: a value below 1 counts as none given, and so does 0 here.
pub record StagingConfig : Type 0 where
  pub kind : Text
  pub staging_dir : Text
  pub max_size : ℕ

pub record Config : Type 0 where
  pub host_id : Text
  pub base_dir : Text
  pub log_dir : Text
  pub vaults : List VaultConfig
  pub encryption : EncryptionConfig
  pub database : DatabaseConfig
  pub staging : StagingConfig
  pub filesystem : FilesystemConfig

-- Fields that are not given have Go's zero values. `Type` is `kind` here.
unfoldable pub new_config : Text → Text → Config
new_config host_id base_dir = record {
  host_id = host_id;
  base_dir = base_dir;
  log_dir = join base_dir (codes "log");
  vaults = [];
  encryption = record {
    kind = codes "age";
    public_key_path = join (join base_dir (codes "keys")) (codes "bt.pub");
    private_key_path = join (join base_dir (codes "keys")) (codes "bt.key");
  };
  database = record { kind = codes "sqlite"; data_dir = [] };
  staging = record { kind = codes "filesystem"; staging_dir = []; max_size = 1048576 };
  filesystem = record { ignore = [] };
}
