-- ===== src/Prelude/Results.antt =====
-- Errors as values. The program's errors are messages that wrap one another, and its code asks
-- only whether there is one (or whether it is sql.ErrNoRows): an error here is the innermost cause.
use mathlib.Core.Path.{◌≡◌, refl}
use mathlib.Core.Logic.{◌⊎◌, inl, inr}

pub data Error : Type 0 where
  io_failure : Error
  not_found : Error
  size_mismatch : Error
  size_changed mode_changed mtime_changed ctime_changed uid_changed gid_changed : Error
  staging_full : Error
  not_a_directory is_a_directory : Error
  not_tracked not_in_tracked_directory file_ignored : Error
  directory_not_found : Error
  unique_violation foreign_key_violation : Error
  no_relative_path : Error
  encrypt_failed decrypt_failed no_passphrase : Error
  checksum_with_directory : Error
  no_backup_history no_snapshot_with_checksum no_current_snapshot : Error
  snapshot_not_in_database : Error
  output_exists : Error
  content_record_missing : Error
  bad_header : Error
  no_vaults behind_remote : Error
  missing_setting unknown_type : Error
  config_exists keys_exist empty_passphrase passphrase_mismatch : Error
  unsupported_file_type bad_key_file no_identity : Error
  no_schema_version dirty_schema schema_behind schema_ahead : Error

pub data Result {ℓ} (A : Type ℓ) : Type ℓ where
  ok : A → Result A
  err : Error → Result A

pub Result-cases {ℓ} :
    {A : Type ℓ} (r : Result A) → ((a : A) × (r ≡ ok a)) ⊎ ((e : Error) × (r ≡ err e))
Result-cases (ok a) = inl (a, refl)
Result-cases (err e) = inr (e, refl)
