-- ===== src/Tests/AppRuns.antt =====
-- A run of the application, and its Close.
use bt_go.Prelude.{
  ◌≡◌, refl, true, false, [], ◌∷◌, codes, text_eq, lookup, insert, ok, err, behind_remote, arith,
}
use bt_go.Database.Queries.{
  insert_backup_operation, update_backup_operation_finished, get_max_backup_operation_id,
}
use bt_go.Database.Sqlite.{
  max_backup_operation_id, create_backup_operation, finish_backup_operation,
}
use bt_go.Vault.Memory.{
  MemoryVault, new_memory_vault, memory_vault, get_metadata, get_metadata_version, put_metadata,
}
use bt_go.Vault.Memory.Metadata.{memory_vault-MetadataStorage}
use bt_go.Encryption.Header.{encrypt, test_encryptor}
use bt_go.Staging.Memory.{MemoryStore, new_memory_store, memory_store}
use bt_go.Config.{Config, new_config}
use bt_go.Service.Intake.{add_directory}
use bt_go.App.Operation.{new_backup_operation}
use bt_go.App.{BtApp, Machine, check_version, persist_operation, app_add_directory, db_name}
use bt_go.App.Closing.{
  Surroundings, close_app, finish_and_upload, upload_dump, upload_metadata, encrypt_backup,
  upload_key_metadata, upload_key,
}
use bt_go.App.InStep.{InStep}
use bt_go.App.Sessions.{add_dir, Kept, run_command, one_run, Sessions, start, then_run}
use bt_go.App.Sessions.Versions.{opened, Sessions-check_version}
use bt_go.App.Sessions.Published.{sealed, close_app-publishes, close_app-refuses_older}
use bt_go.Tests.Data.{file_system, info, hash, sources, tracking}

abbrev config : Config
config = new_config (codes "host") (codes "/bt")

abbrev machine : Machine MemoryVault MemoryStore
machine = record {
  new_vault = λ _. ok new_memory_vault;
  new_staging_area = λ _ _. ok new_memory_store;
  new_database = λ _ _. ok tracking;
  check_migrations = λ _. ok tt;
  new_encryptor = λ _. ok tt;
  new_logger = λ _. ok tt;
}

abbrev around : Surroundings
around = record {
  dump = λ tables. ok (9 ∷ []);
  is_configured = true;
  key_file = λ path. ok (5 ∷ path);
  public_key_path = codes "/pub";
  private_key_path = codes "/key";
}

abbrev before : Kept MemoryVault MemoryStore
before = record { db = tracking; stored = new_memory_vault; staging = new_memory_store }

abbrev app : BtApp MemoryVault MemoryStore
app = record {
  backend = opened before;
  staging = new_memory_store;
  op = new_backup_operation (codes "AddDirectory") [];
}

abbrev after : Kept MemoryVault MemoryStore
after =
    one_run memory_vault (memory_store hash) hash test_encryptor sources sources (file_system info)
      100 config around (add_dir (codes "/a") false) app

before-InStep : InStep memory_vault config.host_id (opened before)
unfolding new_memory_vault get_metadata_version lookup new_config
before-InStep = record { given = omega arith; remote = λ r h. ground (arith, h) }

one_session :
    Sessions memory_vault
      (memory_store hash)
      hash
      test_encryptor
      sources
      sources
      (file_system info)
      100
      config
      before
      after
unfolding check_version max_backup_operation_id get_max_backup_operation_id get_metadata_version
    new_memory_vault lookup new_backup_operation
one_session =
    then_run machine around (codes "AddDirectory") (add_dir (codes "/a") false) app start refl

after-version : get_metadata_version config.host_id db_name after.stored ≡ ok 1
unfolding one_run run_command app_add_directory persist_operation create_backup_operation
    insert_backup_operation new_backup_operation add_directory close_app finish_and_upload
    finish_backup_operation update_backup_operation_finished upload_dump upload_metadata
    encrypt_backup encrypt upload_key_metadata upload_key put_metadata get_metadata_version
    new_memory_vault lookup insert text_eq new_config
after-version = refl

Sessions-check_version_example :
    check_version memory_vault config.host_id after.db after.stored ≡ ok tt
Sessions-check_version_example =
    Sessions-check_version memory_vault (memory_store hash) hash test_encryptor sources sources
      (file_system info) 100 config memory_vault-MetadataStorage before after 1 before-InStep
      one_session after-version

-- The run's operation has been recorded as the first one.
abbrev recorded : BtApp MemoryVault MemoryStore
recorded = (persist_operation sources app).1

abbrev closed : MemoryVault
closed =
    (close_app memory_vault test_encryptor (codes "host") around sources recorded).1.backend.stored

close_app-publishes_example :
    (get_metadata_version (codes "host") db_name closed ≡ ok recorded.op.id)
    × (get_metadata (codes "host") db_name closed ≡ encrypt 0 (ok (9 ∷ [])))
unfolding persist_operation create_backup_operation insert_backup_operation new_backup_operation
    sealed encrypt
close_app-publishes_example =
    close_app-publishes memory_vault test_encryptor (codes "host") around sources
      memory_vault-MetadataStorage recorded (9 ∷ []) _ refl refl refl

close_app-refuses_older_example :
    check_version memory_vault (codes "host") tracking closed ≡ err behind_remote
unfolding persist_operation create_backup_operation insert_backup_operation new_backup_operation
    sealed encrypt
close_app-refuses_older_example =
    close_app-refuses_older memory_vault test_encryptor (codes "host") around sources
      memory_vault-MetadataStorage recorded (9 ∷ []) _ tracking refl refl refl (omega arith)
