-- ===== src/Config/Factories.antt =====
-- The factories: internal/vault/factory.go, internal/staging/factory.go,
-- internal/database/factory.go and internal/encryption/factory.go. A factory's result is what it
-- would construct, with the arguments of the constructor.
use bt_go.Prelude.{
  ℕ, ◌||◌, [], ◌++◌, Text, codes, text_eq, Result, ok, err, missing_setting, unknown_type, ◌==◌,
  if◌then◌else◌,
}
use bt_go.FilePaths.{join}
use bt_go.Config.{VaultConfig, StagingConfig, DatabaseConfig, EncryptionConfig}

pub data NewVault : Type 0 where
  new_memory_vault : Text → NewVault
  new_s3_vault : VaultConfig → NewVault
  new_filesystem_vault : Text → Text → NewVault

unfoldable pub new_vault_from_config : VaultConfig → Result NewVault
new_vault_from_config cfg =
    if text_eq cfg.kind (codes "memory")
    then ok (new_memory_vault cfg.name)
    else if text_eq cfg.kind (codes "s3")
    then if text_eq cfg.s3_bucket []
      then err missing_setting
      else if text_eq cfg.s3_region []
      then err missing_setting
      else if text_eq cfg.s3_access_key_id [] || text_eq cfg.s3_secret_access_key []
      then err missing_setting
      else ok (new_s3_vault cfg)
    else if text_eq cfg.kind (codes "filesystem")
    then if text_eq cfg.fs_vault_root []
      then err missing_setting
      else ok (new_filesystem_vault cfg.name cfg.fs_vault_root)
    else err unknown_type

pub data NewStagingArea : Type 0 where
  new_memory_staging_area : ℕ → NewStagingArea
  new_filesystem_staging_area : Text → ℕ → NewStagingArea

abbrev pub default_max_size : ℕ
default_max_size = 1048576

unfoldable pub new_staging_area_from_config : StagingConfig → Result NewStagingArea
new_staging_area_from_config cfg =
    let max_size = if cfg.max_size == 0 then default_max_size else cfg.max_size in
    if text_eq cfg.kind (codes "memory")
    then ok (new_memory_staging_area max_size)
    else if text_eq cfg.kind (codes "filesystem")
    then if text_eq cfg.staging_dir []
      then err missing_setting
      else ok (new_filesystem_staging_area cfg.staging_dir max_size)
    else err unknown_type

-- The path of the database, or `:memory:`.
unfoldable pub new_database_from_config : DatabaseConfig → Text → Result Text
new_database_from_config cfg host_id =
    if text_eq cfg.kind (codes "sqlite")
    then if text_eq cfg.data_dir []
      then err missing_setting
      else ok (join cfg.data_dir (host_id ++ codes ".db"))
    else if text_eq cfg.kind (codes "memory")
    then ok (codes ":memory:")
    else err unknown_type

pub data NewEncryptor : Type 0 where
  new_age_encryptor : EncryptionConfig → NewEncryptor
  new_test_encryptor : NewEncryptor

unfoldable pub new_encryptor_from_config : EncryptionConfig → Result NewEncryptor
new_encryptor_from_config cfg =
    if text_eq cfg.kind (codes "age") || text_eq cfg.kind []
    then ok (new_age_encryptor cfg)
    else if text_eq cfg.kind (codes "test")
    then ok new_test_encryptor
    else err unknown_type
