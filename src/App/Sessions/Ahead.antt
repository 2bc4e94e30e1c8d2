-- ===== src/App/Sessions/Ahead.antt =====
-- The commands of internal/app/app.go, and the record of operations.
use bt_go.Prelude.{
  ℕ, suc, ◌+◌, ◌≤◌, ◌≡◌, inl, inr, refl, ◌∙◌, ap, Bool, none, List, [], ◌∷◌, ◌++◌, codes, Text,
  Bytes, Result, ok, err, Act, lift, continue, ◌>>=◌, Bool-cases, Option-cases, reads, pure, arith,
  ◌==◌,
}
use bt_go.Models.{Time}
use bt_go.Models
use bt_go.Filesystem.{FilePath, FilesystemManager}
use bt_go.Staging.Store.{StagingStore}
use bt_go.Database.Queries.{largest, insert_backup_operation}
use bt_go.Database.Sqlite.{Sources, find_directory_by_path, create_backup_operation}
use bt_go.Database.Consolidation.{create_directory}
use bt_go.Database.Keeping.{log_of, KeepsLog, KeepsLog-bind, create_directory-KeepsLog}
use bt_go.Vault.{Vault}
use bt_go.Vault.Metadata.{MetadataStorage}
use bt_go.Encryption.{Encryptor}
use bt_go.Service.Backup.{Backend, on_db, backup_file}
use bt_go.Service.Intake.{add_directory, stage_files}
use bt_go.Service.Queue.Keeping.{backup_all_keeps}
use bt_go.App.{
  BtApp, db_name, on_staging, persist_operation, app_add_directory, app_stage_files, app_backup_all,
  drain_queue,
}
use bt_go.App.InStep.{InStep, steady-InStep, backup_file-Steady}
use bt_go.App.Sessions.{Command, add_dir, stage_paths, back_up, run_command}

largest_append :
    (seq : ℕ) (op : Models.BackupOperation) (ops : List Models.BackupOperation)
    → op.id ≡ suc seq
    → largest ops ≤ seq
    → largest (ops ++ op ∷ []) ≡ suc seq
largest_append seq op [] e h = ground arith
largest_append seq op (o ∷ ops) e h = ground (arith, largest_append seq op ops e (ground arith))

-- The run's operation is one of the recorded ones, if it is recorded.
pub record Live {V S : Type 0} (vault : Vault V) (host_id : Text) (app : BtApp V S) : Type 0 where
  pub in_step : InStep vault host_id app.backend
  pub own : app.op.id ≤ largest app.backend.db.tables.backup_operations

module _ {V S : Type 0} (vault : Vault V) (host_id : Text) where
  abbrev KeepsLive : {A : Type 0} → Act (BtApp V S) A → Type 0
  KeepsLive m = (app : BtApp V S) → Live vault host_id app → Live vault host_id (m app).1

  module _ {A B : Type 0} where
    KeepsLive-bind :
        (m : Act (BtApp V S) A) (f : A → Act (BtApp V S) B)
        → KeepsLive m
        → ((a : A) → KeepsLive (f a))
        → KeepsLive (m >>= f)
    KeepsLive-bind m f h k app live = go (m app).0 (m app).1 (h app live)
      where
        go :
            (r : Result A) (after : BtApp V S)
            → Live vault host_id after
            → Live vault host_id (continue r f after).1
        go (ok a) after l = k a after l
        go (err e) after l = l

add_directory-KeepsLog :
    (db_sources : Sources) (p : FilePath) (encrypted : Bool)
    → KeepsLog (add_directory db_sources p encrypted)
unfolding add_directory
add_directory-KeepsLog db_sources p encrypted = elim (Bool-cases p.is_dir) [
  | inr e ↦ rw (add_directory, e) (λ db. refl)
  | inl e ↦
      rw (add_directory, e)
        (KeepsLog-bind (reads (find_directory_by_path p.abs_path)) _ (λ db. refl)
          (λ existing. elim (Option-cases existing) [
            | inr (d, x) ↦ rw x (λ db. refl)
            | inl x ↦ rw x (
                KeepsLog-bind (create_directory db_sources p.abs_path encrypted) (λ _. pure tt)
                  (create_directory-KeepsLog db_sources p.abs_path encrypted) (λ _ db. refl))
          ]))
]

module _ {V S : Type 0} (vault : Vault V) (host_id : Text) (db_sources : Sources) where
  -- A recorded operation has the largest id.
  persist_operation-KeepsLive : KeepsLive {S = S} vault host_id (persist_operation db_sources)
  unfolding persist_operation create_backup_operation insert_backup_operation
  persist_operation-KeepsLive app live = elim (Bool-cases (app.op.id == 0)) [
    | inr e ↦ rw (persist_operation, e) live
    | inl e ↦
        rw (persist_operation, e)
          (record {
            in_step = record {
              given = omega (arith, top);
              remote = λ r h. omega (arith, top, live.in_step.remote r h, live.in_step.given);
            };
            own = omega (arith, top);
          })
  ]
    where
      row : Models.BackupOperation
      row = record {
        id = app.backend.db.tables.sequence + 1;
        started_at = db_sources.now app.backend.db.clock;
        finished_at = none;
        operation = app.op.operation;
        parameters = app.op.parameters;
        status = codes "running";
      }

      top :
          largest (app.backend.db.tables.backup_operations ++ row ∷ [])
          ≡ suc app.backend.db.tables.sequence
      top =
          largest_append app.backend.db.tables.sequence row app.backend.db.tables.backup_operations
            (omega arith) live.in_step.given

-- What changes neither the record of operations nor the version keeps the run live.
steady-Live :
    {V S : Type 0} (vault : Vault V) (host_id : Text) (app : BtApp V S) (w : Backend V)
    (staging : S)
    → (log_of w.db.tables ≡ log_of app.backend.db.tables)
      × (vault.get_metadata_version host_id db_name w.stored
          ≡ vault.get_metadata_version host_id db_name app.backend.stored)
    → Live vault host_id app
    → Live vault host_id (record app { backend = w; staging = staging })
steady-Live vault host_id app w staging h live = record {
  in_step = steady-InStep vault host_id app.backend w h live.in_step;
  own = rw (ap (λ p. largest p.0) h.0) live.own;
}

module _ {V S : Type 0} (vault : Vault V) (store : StagingStore S) (sha256_hex : Bytes → Text)
    (encryptor : Encryptor) (db_sources sources : Sources) (fsmgr : FilesystemManager)
    (max_size : ℕ) (host_id : Text) (meta : MetadataStorage vault) where
  app_add_directory-KeepsLive :
      (path : Text) (encrypted : Bool)
      → KeepsLive vault host_id (
          app_add_directory vault store sha256_hex encryptor db_sources sources fsmgr max_size path
            encrypted)
  unfolding app_add_directory
  app_add_directory-KeepsLive path encrypted =
      KeepsLive-bind vault host_id (persist_operation db_sources) _
        (persist_operation-KeepsLive vault host_id db_sources)
        (λ _.
          KeepsLive-bind vault host_id (lift (fsmgr.resolve path)) _ (λ app live. live)
            (λ p app live.
              steady-Live vault host_id app
                (on_db (add_directory db_sources p encrypted) app.backend).1 app.staging
                (add_directory-KeepsLog db_sources p encrypted app.backend.db, refl) live))

  app_stage_files-KeepsLive :
      (path : Text) (recursive : Bool)
      → KeepsLive vault host_id (
          app_stage_files vault store sha256_hex encryptor db_sources sources fsmgr max_size path
            recursive)
  unfolding app_stage_files
  app_stage_files-KeepsLive path recursive app =
      KeepsLive-bind vault host_id (lift (fsmgr.resolve path))
        (λ p. on_staging (stage_files store fsmgr max_size app.backend.db p recursive))
        (λ now live. live)
        (λ p now live. steady-Live vault host_id now now.backend _ (refl, refl) live) app

  drain_queue-KeepsLive :
      KeepsLive vault host_id
        (drain_queue vault store sha256_hex encryptor db_sources sources fsmgr max_size)
  drain_queue-KeepsLive app = steady-Live vault host_id app _ _ (
      backup_all_keeps store (backup_file vault sha256_hex encryptor db_sources sources)
        (λ w.
          (log_of w.db.tables ≡ log_of app.backend.db.tables)
          × (vault.get_metadata_version host_id db_name w.stored
              ≡ vault.get_metadata_version host_id db_name app.backend.stored))
        (λ b s d r w h.
          let k =
            backup_file-Steady vault sha256_hex encryptor db_sources sources host_id meta b s d r
              w in
          (k.0 ∙ h.0, k.1 ∙ h.1))
        _ 0 app.staging app.backend (refl, refl))

  app_backup_all-KeepsLive :
      KeepsLive vault host_id
        (app_backup_all vault store sha256_hex encryptor db_sources sources fsmgr max_size)
  unfolding app_backup_all
  app_backup_all-KeepsLive =
      KeepsLive-bind vault host_id (persist_operation db_sources) _
        (persist_operation-KeepsLive vault host_id db_sources) (λ _. drain_queue-KeepsLive)

  pub run_command-Live :
      (command : Command) (app : BtApp V S)
      → Live vault host_id app
      → Live vault host_id (
          run_command vault store sha256_hex encryptor db_sources sources fsmgr max_size command
            app)
  unfolding run_command
  run_command-Live (add_dir path encrypted) = app_add_directory-KeepsLive path encrypted
  run_command-Live (stage_paths path recursive) = app_stage_files-KeepsLive path recursive
  run_command-Live back_up = app_backup_all-KeepsLive
