-- ===== src/App/Sessions.antt =====
-- The runs of the program on one machine, one after the other.
pub mod Ahead
pub mod Closed
pub mod Versions
pub mod Published
use bt_go.Prelude.{ℕ, ◌≡◌, Bool, Text, Bytes, Result, ok}
use bt_go.Filesystem.{FilesystemManager}
use bt_go.Staging.Store.{StagingStore}
use bt_go.Database.Sqlite.{Sources, Sqlite}
use bt_go.Vault.{Vault}
use bt_go.Encryption.{Encryptor}
use bt_go.Config.{Config}
use bt_go.App.{BtApp, Machine, open_app, app_add_directory, app_stage_files, app_backup_all}
use bt_go.App.Closing.{Surroundings, close_app}

-- The commands that change something.
pub data Command : Type 0 where
  add_dir : Text → Bool → Command
  stage_paths : Text → Bool → Command
  back_up : Command

-- What outlives a run.
pub record Kept (V S : Type 0) : Type 0 where
  pub db : Sqlite
  pub stored : V
  pub staging : S

module _ {V S : Type 0} (vault : Vault V) (store : StagingStore S) (sha256_hex : Bytes → Text)
    (encryptor : Encryptor) (db_sources sources : Sources) (fsmgr : FilesystemManager)
    (max_size : ℕ) where
  -- The state that a command leaves, whether it fails or not: Close is deferred.
  unfoldable pub run_command : Command → BtApp V S → BtApp V S
  run_command (add_dir path encrypted) app =
      (app_add_directory vault store sha256_hex encryptor db_sources sources fsmgr max_size path
        encrypted app).1
  run_command (stage_paths path recursive) app =
      (app_stage_files vault store sha256_hex encryptor db_sources sources fsmgr max_size path
        recursive app).1
  run_command back_up app =
      (app_backup_all vault store sha256_hex encryptor db_sources sources fsmgr max_size app).1

abbrev pub kept_by : {V S : Type 0} → BtApp V S → Kept V S
kept_by app = record { db = app.backend.db; stored = app.backend.stored; staging = app.staging }

module _ {V S : Type 0} (vault : Vault V) (store : StagingStore S) (sha256_hex : Bytes → Text)
    (encryptor : Encryptor) (db_sources sources : Sources) (fsmgr : FilesystemManager)
    (max_size : ℕ) (cfg : Config) (around : Surroundings) where
  -- NewBTApp has opened what earlier runs left, a command runs, and Close follows.
  unfoldable pub one_run : Command → BtApp V S → Kept V S
  unfolding run_command close_app
  one_run command app =
      kept_by
        (close_app vault encryptor cfg.host_id around db_sources (
          run_command vault store sha256_hex encryptor db_sources sources fsmgr max_size command
            app)).1

module _ {V S : Type 0} (vault : Vault V) (store : StagingStore S) (sha256_hex : Bytes → Text)
    (encryptor : Encryptor) (db_sources sources : Sources) (fsmgr : FilesystemManager)
    (max_size : ℕ) (cfg : Config) (first : Kept V S) where
  pub data Sessions : Kept V S → Type 0 where
    start : Sessions first
    then_run :
        {h : Kept V S} (machine : Machine V S) (around : Surroundings) (operation : Text)
        (command : Command) (app : BtApp V S)
        → Sessions h
        → open_app vault machine cfg operation h.stored h.staging h.db ≡ ok app
        → Sessions (
            one_run vault store sha256_hex encryptor db_sources sources fsmgr max_size cfg around
              command app)
