-- ===== src/App/Sessions/Versions.antt =====
-- The check of NewBTApp against the version in the vault, over the runs of the program.
use bt_go.Prelude.{
  ℕ, ◌≤◌, ◌<◌, ◌≡◌, inl, inr, refl, sym, ◌∙◌, subst, [], Text, Bytes, ok, err, behind_remote,
  Bool-cases, arith, ltb, ◌==◌, if◌then◌else◌,
}
use bt_go.Filesystem.{FilesystemManager}
use bt_go.Staging.Store.{StagingStore}
use bt_go.Database.Queries.{largest, get_max_backup_operation_id}
use bt_go.Database.Sqlite.{Sources, Sqlite, max_backup_operation_id}
use bt_go.Vault.{Vault}
use bt_go.Vault.Metadata.{MetadataStorage}
use bt_go.Encryption.{Encryptor}
use bt_go.Config.{Config}
use bt_go.Service.Backup.{Backend}
use bt_go.App.Operation.{new_backup_operation}
use bt_go.App.{BtApp, Machine, db_name, check_version, open_app}
use bt_go.App.InStep.{InStep, steady-InStep}
use bt_go.App.Closing.{Surroundings, close_app}
use bt_go.App.Sessions.{Command, Kept, kept_by, run_command, one_run, Sessions, start, then_run}
use bt_go.App.Sessions.Ahead.{Live, run_command-Live}
use bt_go.App.Sessions.Closed.{finish_and_upload-InStep}

module _ {V : Type 0} (vault : Vault V) (host_id : Text) (db : Sqlite) (stored : V) (r : ℕ)
    (read : vault.get_metadata_version host_id db_name stored ≡ ok r) where
  -- The check against a version that is there.
  check_version_reads :
      check_version vault host_id db stored
      ≡ (if ltb (largest db.tables.backup_operations) r then err behind_remote else ok tt)
  unfolding check_version max_backup_operation_id get_max_backup_operation_id
  check_version_reads = rw (check_version, read) refl

  check_version_passes :
      r ≤ largest db.tables.backup_operations → check_version vault host_id db stored ≡ ok tt
  check_version_passes h = check_version_reads ∙ ground arith

  pub check_version_refuses :
      largest db.tables.backup_operations < r
      → check_version vault host_id db stored ≡ err behind_remote
  check_version_refuses h = check_version_reads ∙ ground arith

-- What NewBTApp opens, when it succeeds.
open_app-opens :
    {V S : Type 0} (vault : Vault V) (machine : Machine V S) (cfg : Config) (operation : Text)
    (stored : V) (staging : S) (db : Sqlite) (app : BtApp V S)
    → open_app vault machine cfg operation stored staging db ≡ ok app
    → app ≡ record {
      backend = record { db = db; stored = stored; ids = 0; clock = 0; encryptions = 0 };
      staging = staging;
      op = new_backup_operation operation [];
    }
open_app-opens vault machine cfg operation stored staging db app e = ground arith

-- A run starts on what the runs before it left.
abbrev pub opened : {V S : Type 0} → Kept V S → Backend V
opened h = record { db = h.db; stored = h.stored; ids = 0; clock = 0; encryptions = 0 }

module _ {V S : Type 0} (vault : Vault V) (store : StagingStore S) (sha256_hex : Bytes → Text)
    (encryptor : Encryptor) (db_sources sources : Sources) (fsmgr : FilesystemManager)
    (max_size : ℕ) (cfg : Config) (meta : MetadataStorage vault) where
  one_run-InStep :
      (around : Surroundings) (command : Command) (app : BtApp V S)
      → Live vault cfg.host_id app
      → InStep vault cfg.host_id (
          opened (
            one_run vault store sha256_hex encryptor db_sources sources fsmgr max_size cfg around
              command app))
  unfolding one_run close_app
  one_run-InStep around command app live =
      go
        (run_command vault store sha256_hex encryptor db_sources sources fsmgr max_size command app)
        (run_command-Live vault store sha256_hex encryptor db_sources sources fsmgr max_size
          cfg.host_id meta command app live)
    where
      go :
          (after : BtApp V S)
          → Live vault cfg.host_id after
          → InStep vault cfg.host_id
              (opened (kept_by (close_app vault encryptor cfg.host_id around db_sources after).1))
      go after l = elim (Bool-cases (after.op.id == 0)) [
        | inl e ↦
            rw (close_app, e)
              (steady-InStep vault cfg.host_id after.backend _ (refl, refl) l.in_step)
        | inr e ↦
            rw (close_app, e)
              (steady-InStep vault cfg.host_id _ _ (refl, refl)
                (finish_and_upload-InStep vault encryptor cfg.host_id around meta db_sources
                  after.op after.backend l.own l.in_step))
      ]

  Sessions-InStep :
      (first last : Kept V S)
      → InStep vault cfg.host_id (opened first)
      → Sessions vault store sha256_hex encryptor db_sources sources fsmgr max_size cfg first last
      → InStep vault cfg.host_id (opened last)
  unfolding new_backup_operation
  Sessions-InStep first _ i start = i
  Sessions-InStep first _ i (then_run {h} machine around operation command app before o) =
      one_run-InStep around command app (
        subst (Live vault cfg.host_id)
          (sym (open_app-opens vault machine cfg operation h.stored h.staging h.db app o))
          (record { in_step = Sessions-InStep first h i before; own = omega arith }))

-- From a database that is in step with the vault, through any runs of the program on it, whichever
-- commands they run and whatever fails in them, the local database never falls behind its own copy
-- in the vault: where the version in the vault can be read, the check of NewBTApp accepts what the
-- runs left.
pub Sessions-check_version :
    {V S : Type 0} (vault : Vault V) (store : StagingStore S) (sha256_hex : Bytes → Text)
    (encryptor : Encryptor) (db_sources sources : Sources) (fsmgr : FilesystemManager)
    (max_size : ℕ) (cfg : Config) (meta : MetadataStorage vault) (first last : Kept V S) (r : ℕ)
    → InStep vault cfg.host_id (opened first)
    → Sessions vault store sha256_hex encryptor db_sources sources fsmgr max_size cfg first last
    → vault.get_metadata_version cfg.host_id db_name last.stored ≡ ok r
    → check_version vault cfg.host_id last.db last.stored ≡ ok tt
Sessions-check_version vault store sha256_hex encryptor db_sources sources fsmgr max_size cfg meta
      first last r i runs read =
    check_version_passes vault cfg.host_id last.db last.stored r read (
      (Sessions-InStep vault store sha256_hex encryptor db_sources sources fsmgr max_size cfg meta
          first last i runs).remote
        r read)
