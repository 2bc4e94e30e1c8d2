-- ===== src/Staging/Area.antt =====
-- internal/staging/staging.go: the algorithm that both stores share. The lock serialises the calls
-- of a store; an action here runs from start to end.
pub mod Stage
pub mod Stocked
pub mod Intake
pub mod Process
use bt_go.Prelude.{
  ℕ, ◌≡◌, Bool, Option, none, some, [], Text, Bytes, Result, Error, ok, err, staging_full,
  not_found, Act, lift, reads, tidy, continue, ◌>>=◌, ◌>>◌, ltb, ◌==◌, if◌then◌else◌,
}
use bt_go.Models.{Directory, FileSnapshot, Time, NullTime}
use bt_go.Filesystem.{FileInfo, StatData, FilePath, FilesystemManager}
use bt_go.Staging.Operation.{StagedOperation, validate_stat_unchanged}
use bt_go.Staging.Store.{StagingStore}

-- The operation that `Stage` queues. The fields that the backup fills in later have Go's zero
-- values.
unfoldable pub staged_operation :
    Directory → Text → FileInfo → StatData → Text → ℕ → StagedOperation
staged_operation directory relative_path info1 stat1 checksum size = record {
  directory_id = directory.id;
  relative_path = relative_path;
  snapshot = record {
    id = [];
    file_id = [];
    content_id = checksum;
    created_at = record { instant = 0; location = 0 };
    size = size;
    permissions = info1.perm;
    uid = stat1.uid;
    gid = stat1.gid;
    accessed_at = stat1.atime;
    modified_at = info1.mod_time;
    changed_at = stat1.ctime;
    born_at = stat1.birth_time;
  };
}

module _ {S : Type 0} (store : StagingStore S) where
  -- Steps 4 to 6: on an error of these the stored content is removed.
  unfoldable pub finish :
      FilesystemManager → ℕ → Directory → Text → FilePath → StatData → Text × ℕ → Act S (Unit {0})
  finish fsmgr max_size directory relative_path path stat1 (checksum, size) = do
    info2 ← lift (fsmgr.stat path)
    stat2 ← lift (fsmgr.extract_stat_data info2)
    lift (validate_stat_unchanged path.info info2 stat1 stat2)
    content_size ← reads store.content_size
    lift (if ltb max_size content_size then err staging_full else ok tt)
    store.append (staged_operation directory relative_path path.info stat1 checksum size)

  -- Steps 3 to 6.
  unfoldable pub store_and_finish :
      FilesystemManager
      → ℕ
      → Directory
      → Text
      → FilePath
      → StatData
      → Result Bytes
      → Act S (Unit {0})
  store_and_finish fsmgr max_size directory relative_path path stat1 reader = do
    stored ← store.store_content reader
    λ s.
        tidy (store.remove_content stored.0)
          (finish fsmgr max_size directory relative_path path stat1 stored s)

  unfoldable pub stage : FilesystemManager → ℕ → Directory → Text → FilePath → Act S (Unit {0})
  stage fsmgr max_size directory relative_path path = do
    stat1 ← lift (fsmgr.extract_stat_data path.info)
    reader ← lift (fsmgr.open_file path)
    store_and_finish fsmgr max_size directory relative_path path stat1 reader

  -- After the callback has succeeded.
  unfoldable pub commit : StagedOperation → Act S (Unit {0})
  commit op s = elim (store.pop op.directory_id op.relative_path op.snapshot.content_id s).0 [
    | err e ↦ (err e, (store.pop op.directory_id op.relative_path op.snapshot.content_id s).1)
    | ok remaining ↦ (
      ok tt,
      (if remaining == 0
          then store.remove_content op.snapshot.content_id
              (store.pop op.directory_id op.relative_path op.snapshot.content_id s).1
          else (store.pop op.directory_id op.relative_path op.snapshot.content_id s).1),
    )
  ]

-- A BackupFunc: it is handed the content, the snapshot, the directory's id and the relative path.
abbrev pub BackupFunc : Type 0 → Type 0
BackupFunc W = Bytes → FileSnapshot → Text → Text → Act W (Unit {0})

module _ {S W : Type 0} (store : StagingStore S) where
  -- The callback runs on the rest of the program's state, `W`.
  unfoldable pub run_callback : BackupFunc W → StagedOperation → Bytes → Act (S × W) (Unit {0})
  unfolding commit
  run_callback fn op content (s, w) =
      elim (fn content op.snapshot op.directory_id op.relative_path w).0 [
        | err e ↦ (err e, (s, (fn content op.snapshot op.directory_id op.relative_path w).1))
        | ok _ ↦ (
          (commit store op s).0,
          ((commit store op s).1, (fn content op.snapshot op.directory_id op.relative_path w).1),
        )
      ]

  unfoldable pub process_head : BackupFunc W → Option StagedOperation → Act (S × W) (Unit {0})
  unfolding run_callback
  process_head fn none (s, w) = (ok tt, (s, w))
  process_head fn (some op) (s, w) = elim (store.open_content op.snapshot.content_id s) [
    | err _ ↦ (err not_found, (s, w))
    | ok content ↦ run_callback fn op content (s, w)
  ]

  unfoldable pub process_next : BackupFunc W → Act (S × W) (Unit {0})
  unfolding process_head
  process_next fn (s, w) = elim (store.peek s) [
    | err e ↦ (err e, (s, w))
    | ok head ↦ process_head fn head (s, w)
  ]
