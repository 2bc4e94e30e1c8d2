-- ===== src/Tests/ServiceRuns.antt =====
-- Backing up the file into an encrypted directory, and restoring it.
use bt_go.Prelude.{
  ℕ, ◌≤◌, ◌+◌, length, arith, ◌≡◌, ◌⊎◌, List, ◌∷◌, ap, ◌∙◌, inl, io_failure, refl, false, some, [],
  Text, Bytes, codes, text_eq, Result, Error, ok, err, lookup, insert,
}
use bt_go.Vault.Memory.{MemoryVault, new_memory_vault, memory_vault, put_content, get_content}
use bt_go.Vault.{Vault}
use bt_go.Vault.Uploads.{Uploads}
use bt_go.Vault.Memory.Laws.{memory_vault-Storage}
use bt_go.Encryption.{Inverts}
use bt_go.Encryption.Header.{encrypt, test_encryptor, test_decryption_context, decrypt-encrypt}
use bt_go.Database.Queries.{
  get_content_by_id, get_directory_by_id, get_file_by_directory_and_name, insert_file,
  insert_content, get_file_snapshot_by_id, insert_file_snapshot, update_file_current_snapshot,
}
use bt_go.Database.Sqlite.{find_content_by_checksum, find_directory_by_id, transaction}
use bt_go.Database.Recording.{
  create_file_snapshot_and_content, record_body, find_or_insert_file, ensure_contents,
  ensure_content, check_current, add_snapshot, snapshots_equal,
}
use bt_go.Service.Backup.{
  Backend, backup_file, backup_new, stamp, upload, upload_encrypted, upload_plain, encrypt_content,
}
use bt_go.Service.Backup.Backed.{IsHash, IsBacked}
use bt_go.Service.Backup.Safety.{Kept, stamped, backup_file_lem}
use bt_go.Service.Restore.{Disk, FileCalls, fetch, restore_one_file, restore}
use bt_go.Service.Restore.OneFile.{Ended, restore_one_file_lem}
use bt_go.Service.Restore.Writing.{Made, restore_lem}
use bt_go.Service.Restore.Roundtrip.{fetch-backup_file}
use bt_go.Staging.Memory.{new_memory_store, memory_store}
use bt_go.Staging.Memory.Laws.{memory_views, new_memory_store-IsConsistent, memory_store-Contract}
use bt_go.Staging.Operation.{StagedOperation}
use bt_go.Staging.Area.{staged_operation}
use bt_go.Staging.Memory.{store_content, append}
use bt_go.Service.Queue.{backup_all, done}
use bt_go.Service.Queue.Emptying.{Succeeds, backup_all-empties}
use bt_go.Tests.StagingRuns.{store, law, ready, ready-IsConsistent, ready-IsStocked}
use bt_go.Service.Intake.{stage_files}
use bt_go.Service.Intake.Effects.{stage_files-queues}
use bt_go.Tests.Data.{
  at, info, path, file_system, hash, hash-injective, directory, content, sources, tracking,
  snapshot, operation,
}

hash-IsHash : IsHash hash
unfolding text_eq
hash-IsHash = record { injective = hash-injective; nonempty = λ b. refl }

abbrev world : Backend MemoryVault
world = record { db = tracking; stored = new_memory_vault; ids = 0; clock = 0; encryptions = 0 }

world-IsBacked : IsBacked memory_vault hash test_decryption_context world
unfolding get_content new_memory_vault lookup
world-IsBacked = record { hashed = λ k b h. cc; available = λ k c h. cc }

test-Inverts : Inverts test_decryption_context test_encryptor
test-Inverts n b cipher h = (decrypt-encrypt n b cipher).1 h

abbrev backed_up : Result (Unit {0}) × Backend MemoryVault
backed_up =
    backup_file memory_vault hash test_encryptor sources sources content snapshot (codes "d")
      (codes "x") world

backed_up-ok : backed_up.0 ≡ ok tt
unfolding backup_file backup_new stamp upload upload_encrypted upload_plain encrypt_content encrypt
    put_content new_memory_vault find_content_by_checksum get_content_by_id find_directory_by_id
    get_directory_by_id create_file_snapshot_and_content record_body transaction find_or_insert_file
    get_file_by_directory_and_name insert_file ensure_contents ensure_content insert_content
    check_current get_file_snapshot_by_id add_snapshot insert_file_snapshot
    update_file_current_snapshot snapshots_equal text_eq lookup insert
backed_up-ok = refl

-- A vault that is full: it refuses every upload.
abbrev full_vault : Vault MemoryVault
full_vault = record memory_vault { put_content = λ c r n s. (err io_failure, s) }

full_vault-Uploads : Uploads full_vault
full_vault-Uploads = record {
  keeps = λ s c b n k x only e. e;
  adds = λ s c b n k x only e. inl e;
  stored = λ s c b n only e. cc;
}

full-IsBacked : IsBacked full_vault hash test_decryption_context world
unfolding get_content new_memory_vault lookup
full-IsBacked = record { hashed = λ k b h. cc; available = λ k c h. cc }

backup_file_lem_example :
    Kept full_vault hash test_decryption_context test_encryptor hash-IsHash full_vault-Uploads
      sources sources
      (codes "d")
      (codes "x")
      (stamped full_vault hash test_decryption_context test_encryptor hash-IsHash full_vault-Uploads
        sources sources
        (codes "d")
        (codes "x")
        snapshot
        world)
      (backup_file full_vault hash test_encryptor sources sources content snapshot
        (codes "d")
        (codes "x")
        world)
backup_file_lem_example =
    backup_file_lem full_vault hash test_decryption_context test_encryptor hash-IsHash
      full_vault-Uploads sources sources (codes "d") (codes "x") content snapshot world refl
      test-Inverts full-IsBacked

fetch-backup_file_example :
    fetch memory_vault backed_up.1.db backed_up.1.stored (some test_decryption_context) snapshot
    ≡ ok content
fetch-backup_file_example =
    fetch-backup_file memory_vault hash test_decryption_context test_encryptor sources sources
      content snapshot (codes "d") (codes "x") world hash-IsHash memory_vault-Storage refl
      test-Inverts world-IsBacked backed_up-ok

abbrev no_files : Disk
no_files = []

-- The mode can be set, the times cannot.
abbrev untimed : FileCalls
untimed = record {
  chmod = λ p mode. ok tt;
  chtimes = λ p accessed modified. err io_failure;
  created_permissions = 420;
  written_at = at 9;
}

restore_one_file_lem_example :
    let res =
      restore_one_file memory_vault backed_up.1.db backed_up.1.stored
        (some test_decryption_context)
        untimed
        directory
        (codes "x")
        snapshot
        no_files in
    ((e : Error) × (res.0 ≡ err e) × ((p : Text) → lookup p res.1 ≡ lookup p no_files))
    ⊎ ((contents : Bytes) × (fetch memory_vault backed_up.1.db backed_up.1.stored
            (some test_decryption_context)
            snapshot
          ≡ ok contents)
        × Ended memory_vault backed_up.1.db backed_up.1.stored
            (some test_decryption_context)
            untimed
            directory
            (codes "x")
            snapshot
            no_files
            contents
            res)
restore_one_file_lem_example =
    restore_one_file_lem memory_vault backed_up.1.db backed_up.1.stored
      (some test_decryption_context) untimed directory (codes "x") snapshot no_files

restore_lem_example :
    let res =
      restore memory_vault backed_up.1.db backed_up.1.stored
        (some test_decryption_context)
        untimed
        (codes "/a")
        []
        [] in
    Made memory_vault backed_up.1.db backed_up.1.stored
      (some test_decryption_context)
      untimed
      []
      res.0.paths
      res.1
restore_lem_example =
    restore_lem memory_vault backed_up.1.db backed_up.1.stored (some test_decryption_context)
      untimed (codes "/a") [] []

stage_files-queues_example :
    let res =
      stage_files (memory_store hash) (file_system info) 100 tracking path false new_memory_store in
    (memory_views.size res.1 ≤ 100)
    × (((e : Error) × (res.0 ≡ err e))
        ⊎ ((n : ℕ) × (res.0 ≡ ok n)
            × memory_views.IsSound res.1
            × (length (memory_views.queue res.1)
                ≡ length (memory_views.queue new_memory_store) + n)))
unfolding new_memory_store
stage_files-queues_example =
    stage_files-queues hash hash-injective (memory_store hash) memory_views
      (memory_store-Contract hash) (file_system info) 100 tracking path false new_memory_store
      new_memory_store-IsConsistent (omega arith)

-- The one operation is queued and nothing is backed up yet, or the queue is empty.
abbrev Pending : List StagedOperation → Backend MemoryVault → Type 0
Pending [] w = Unit
Pending (op ∷ queue) w = (op ≡ operation) × (queue ≡ []) × (w ≡ world)

backup_file-Succeeds :
    Succeeds hash Pending (backup_file memory_vault hash test_encryptor sources sources)
unfolding staged_operation
backup_file-Succeeds b op queue w h size (same, alone, start) =
    let whole : b ≡ content = hash-injective b content (h ∙ ap (λ o. o.snapshot.content_id) same) in
    rw (same, alone, start, whole) (backed_up-ok, tt)

backup_all-empties_example :
    let run =
      backup_all store
        (backup_file memory_vault hash test_encryptor sources sources)
        2
        0
        ready
        world in
    (run.ended ≡ done)
    × ((memory_views.queue run.store ≡ [])
        × ((run.count ≡ length (memory_views.queue ready)) × Unit {0}))
unfolding new_memory_store store_content append staged_operation lookup
backup_all-empties_example =
    backup_all-empties hash store memory_views law Pending
      (backup_file memory_vault hash test_encryptor sources sources) 2 ready world
      ready-IsConsistent ready-IsStocked (omega arith) backup_file-Succeeds (refl, refl, refl)
