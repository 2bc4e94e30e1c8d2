-- ===== src/App.antt =====
-- internal/app: one run of the program, from NewBTApp to Close.
pub mod Operation
pub mod Closing
pub mod Reading
pub mod InStep
pub mod Sessions
use bt_go.Prelude.{
  ℕ, suc, ◌≡◌, Bool, true, false, not, Option, none, some, List, [], ◌∷◌, ◌++◌, Text, Bytes, codes,
  text_eq, Result, Error, ok, err, no_vaults, behind_remote, io_failure, length, Act, lift, reads,
  pure, fail, continue, ◌>>=◌, ◌>>◌, ltb, ◌==◌, if◌then◌else◌,
}
use bt_go.Config.{
  Config, VaultConfig, EncryptionConfig, DatabaseConfig, StagingConfig, FilesystemConfig,
}
use bt_go.Filesystem.{FilePath, FilesystemManager}
use bt_go.Staging.Store.{StagingStore}
use bt_go.Database.Tables.{Tables}
use bt_go.Database.Sqlite.{
  Sources, Sqlite, max_backup_operation_id, create_backup_operation, finish_backup_operation,
}
use bt_go.Vault.{Vault}
use bt_go.Encryption.{Encryptor}
use bt_go.Service.Backup.{Backend, on_db, on_vault, encrypt_content, backup_file}
use bt_go.Service.Intake.{add_directory, stage_files}
use bt_go.Service.Queue.{Run, Ended, done, failed, out_of_fuel, backup_all}
use bt_go.App.Operation.{BackupOperation, new_backup_operation, persisted}

-- What a run has open, and the operation that it carries out.
pub record BtApp (V S : Type 0) : Type 0 where
  pub backend : Backend V
  pub staging : S
  pub op : BackupOperation

-- The name under which the database is kept in the vault.
abbrev pub db_name : Text
db_name = codes "db"

-- A local database may not be older than the one in the vault.
unfoldable pub check_version : {V : Type 0} → Vault V → Text → Sqlite → V → Result (Unit {0})
check_version vault host_id db stored = elim (vault.get_metadata_version host_id db_name stored) [
  | err e ↦ err e
  | ok remote_version ↦ elim (max_backup_operation_id db) [
    | err e ↦ err e
    | ok local_max ↦ if ltb local_max remote_version then err behind_remote else ok tt
  ]
]

-- What the constructors find on this machine. The migration check and the log file are calls of
-- the operating system and of a library.
pub record Machine (V S : Type 0) : Type 0 where
  pub new_vault : VaultConfig → Result V
  pub new_staging_area : StagingConfig → FilesystemConfig → Result S
  pub new_database : DatabaseConfig → Text → Result Sqlite
  pub check_migrations : Sqlite → Result (Unit {0})
  pub new_encryptor : EncryptionConfig → Result (Unit {0})
  pub new_logger : Text → Result (Unit {0})

module _ {V S : Type 0} (vault : Vault V) where
  abbrev pub open_app : Machine V S → Config → Text → V → S → Sqlite → Result (BtApp V S)
  open_app machine cfg operation stored staging db = elim (machine.check_migrations db) [
    | err e ↦ err e
    | ok _ ↦ elim (check_version vault cfg.host_id db stored) [
      | err e ↦ err e
      | ok _ ↦ elim (machine.new_encryptor cfg.encryption) [
        | err e ↦ err e
        | ok _ ↦ elim (machine.new_logger cfg.log_dir) [
          | err e ↦ err e
          | ok _ ↦ ok (record {
            backend = record { db = db; stored = stored; ids = 0; clock = 0; encryptions = 0 };
            staging = staging;
            op = new_backup_operation operation [];
          })
        ]
      ]
    ]
  ]

  unfoldable pub new_app : Machine V S → Config → Text → Result (BtApp V S)
  unfolding check_version new_backup_operation
  new_app machine cfg operation = elim cfg.vaults [
    | [] ↦ err no_vaults
    | vault_config ∷ _ ↦ elim (machine.new_vault vault_config) [
      | err e ↦ err e
      | ok stored ↦ elim (machine.new_staging_area cfg.staging cfg.filesystem) [
        | err e ↦ err e
        | ok staging ↦ elim (machine.new_database cfg.database cfg.host_id) [
          | err e ↦ err e
          | ok db ↦ open_app machine cfg operation stored staging db
        ]
      ]
    ]
  ]

module _ {V S : Type 0} {A : Type 0} where
  abbrev pub on_backend : Act (Backend V) A → Act (BtApp V S) A
  on_backend m app = ((m app.backend).0, record app { backend = (m app.backend).1 })

  abbrev pub on_staging : Act S A → Act (BtApp V S) A
  on_staging m app = ((m app.staging).0, record app { staging = (m app.staging).1 })

abbrev pub set_id : {V S : Type 0} → ℕ → Act (BtApp V S) (Unit {0})
set_id id app = (ok tt, record app { op = record app.op { id = id } })

module _ {V S : Type 0} (db_sources : Sources) where
  -- The operation is recorded once, by the commands that write to the database.
  unfoldable pub persist_operation : Act (BtApp V S) (Unit {0})
  persist_operation app =
      if persisted app.op
      then (ok tt, app)
      else ((do
        row ←
            on_backend
              (on_db (create_backup_operation db_sources app.op.operation app.op.parameters))
        set_id row.id)
          app)

module _ {V S : Type 0} (vault : Vault V) (store : StagingStore S) (sha256_hex : Bytes → Text)
    (encryptor : Encryptor) (db_sources sources : Sources) (fsmgr : FilesystemManager)
    (max_size : ℕ) where
  unfoldable pub app_add_directory : Text → Bool → Act (BtApp V S) (Unit {0})
  app_add_directory raw_path encrypted = do
    persist_operation db_sources
    p ← lift (fsmgr.resolve raw_path)
    on_backend (on_db (add_directory db_sources p encrypted))

  unfoldable pub app_stage_files : Text → Bool → Act (BtApp V S) ℕ
  app_stage_files raw_path recursive app =
      ((do
        p ← lift (fsmgr.resolve raw_path)
        on_staging (stage_files store fsmgr max_size app.backend.db p recursive))
        app)

  -- How BackupAll's run ends, as its error.
  abbrev pub ended_result : ℕ → Ended → Result ℕ
  ended_result count done = ok count
  ended_result count (failed e) = err e
  ended_result count out_of_fuel = err io_failure

  -- Fuel for each queued operation and one round more, with which the loop ends by itself.
  abbrev pub rounds : S → ℕ
  rounds staging = elim (store.len staging) [ err _ ↦ 1 | ok n ↦ suc n ]

  abbrev pub drain_queue : Act (BtApp V S) ℕ
  drain_queue app =
      let run =
        backup_all store (backup_file vault sha256_hex encryptor db_sources sources)
          (rounds app.staging) 0 app.staging app.backend in
      (ended_result run.count run.ended, record app { backend = run.rest; staging = run.store })

  unfoldable pub app_backup_all : Act (BtApp V S) ℕ
  app_backup_all = do persist_operation db_sources; drain_queue
