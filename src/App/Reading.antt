-- ===== src/App/Reading.antt =====
-- The commands of internal/app/app.go that record no operation, and `bt restore`.
use bt_go.Prelude.{
  ℕ, Bool, Option, none, some, List, [], Text, Bytes, Assoc, Result, Error, ok, err, if◌then◌else◌,
}
use bt_go.Models
use bt_go.Filesystem.{FilesystemManager}
use bt_go.Staging.Store.{StagingStore}
use bt_go.Vault.{Vault}
use bt_go.Encryption.{DecryptionContext}
use bt_go.Encryption.Age.{Age, AgeEncryptor, is_configured, unlock}
use bt_go.Service.Status.{FileStatus, get_status}
use bt_go.Service.History.{FileHistoryEntry, get_file_history, get_history}
use bt_go.Service.Restore.{Disk, FileCalls, Restored, restore}
use bt_go.App.{BtApp}

module _ {V S : Type 0} (app : BtApp V S) where
  unfoldable pub app_get_status :
      StagingStore S → FilesystemManager → ℕ → Text → Bool → Result (List FileStatus)
  app_get_status store fsmgr max_size raw_path recursive = elim (fsmgr.resolve raw_path) [
    | err e ↦ err e
    | ok p ↦ get_status store fsmgr max_size app.backend.db app.staging p recursive
  ]

  unfoldable pub app_get_file_history : FilesystemManager → Text → Result (List FileHistoryEntry)
  app_get_file_history fsmgr raw_path = elim (fsmgr.resolve raw_path) [
    | err e ↦ err e
    | ok p ↦ get_file_history app.backend.db p
  ]

  unfoldable pub app_get_history : ℕ → Result (List Models.BackupOperation)
  app_get_history limit = get_history limit app.backend.db

  abbrev pub nothing_restored : Error → Disk → Restored × Disk
  nothing_restored e disk = (record { paths = []; failure = some e }, disk)

  -- `abs` is filepath.Abs: the path need not be there.
  unfoldable pub app_restore_files :
      Vault V
      → FileCalls
      → (Text → Result Text)
      → Text
      → Text
      → Option DecryptionContext
      → Disk
      → Restored × Disk
  app_restore_files vault calls abs raw_path checksum decrypt_ctx disk = elim (abs raw_path) [
    | err e ↦ nothing_restored e disk
    | ok abs_path ↦
        restore vault app.backend.db app.backend.stored decrypt_ctx calls abs_path checksum disk
  ]

  module _ {X I R : Type 0} (age : Age X I R) (enc : AgeEncryptor) (key_files : Assoc Bytes) where
    -- The passphrase is asked for once, if there are keys.
    unfoldable pub unlock_session : Result Text → Result (Option DecryptionContext)
    unlock_session typed =
        if is_configured age enc key_files
        then (elim typed [
          | err e ↦ err e
          | ok passphrase ↦ elim (unlock age enc passphrase key_files) [
            | err e ↦ err e
            | ok ctx ↦ ok (some ctx)
          ]
        ])
        else ok none

    unfoldable pub restore_command :
        Vault V
        → FileCalls
        → (Text → Result Text)
        → Result Text
        → Text
        → Text
        → Disk
        → Restored × Disk
    unfolding unlock_session app_restore_files
    restore_command vault calls abs typed raw_path checksum disk = elim (unlock_session typed) [
      | err e ↦ nothing_restored e disk
      | ok ctx ↦ app_restore_files vault calls abs raw_path checksum ctx disk
    ]
