-- ===== src/Tests/StagingRuns.antt =====
-- Staging the file into an empty store in memory, and backing it up from there.
use bt_go.Prelude.{
  ℕ, suc, ◌+◌, ◌≤◌, ◌&&◌, ◌≡◌, ◌⊎◌, ◌↔◌, refl, none, some, [], ◌∷◌, ◌++◌, Text, Bytes, codes,
  text_eq, Result, ok, err, Error, not_found, size_changed, length, ◌==◌, if◌then◌else◌, arith,
  lookup, insert,
}
use bt_go.Filesystem.{FileInfo, StatData}
use bt_go.Staging.Operation.{validate_stat_unchanged, validate_stat_unchanged_iff}
use bt_go.Staging.Store.{StagingStore, Contract, ContractFor, refs}
use bt_go.Staging.Memory.{
  MemoryStore, new_memory_store, memory_store, store_content, content_size, append,
}
use bt_go.Staging.Memory.Laws.{
  IsConsistent, memory_views, new_memory_store-IsConsistent, memory_store-Contract,
}
use bt_go.Staging.Area.{staged_operation, stage, store_and_finish, finish, BackupFunc, process_next}
use bt_go.Staging.Area.Stocked.{IsStocked, store-IsStocked}
use bt_go.Staging.Area.Intake.{
  stage_success, stage_failure, stage-size-le, stage-IsStocked, stage_drops_shared,
}
use bt_go.Staging.Area.Process.{process_commits}
use bt_go.Service.Queue.{backup_all, done, failed}
use bt_go.Service.Queue.Draining.{Drains, drain, backup_all-Drains, backup_all-ends}
use bt_go.Staging.Disk.{filesystem_store}
use bt_go.Staging.Disk.Laws.{filesystem_views, filesystem_store-ContractFor}
use bt_go.Tests.QueueCodec.{queue_codec}
use bt_go.Tests.Data.{
  hash, hash-injective, directory, content, info, changed_info, stat_data, path, file_system,
  operation,
}

abbrev pub store : StagingStore MemoryStore
store = memory_store hash

abbrev pub law : Contract hash store memory_views
law = memory_store-Contract hash

new_memory_store-IsStocked : IsStocked hash memory_views new_memory_store
unfolding new_memory_store lookup
new_memory_store-IsStocked = record { hashed = λ c b h. cc; queued = tt }

abbrev staged : FileInfo → MemoryStore → Result (Unit {0}) × MemoryStore
staged later = stage store (file_system later) 100 directory (codes "x") path

-- The store with the file staged.
abbrev pub ready : MemoryStore
ready = (store.append operation (store.store_content (ok content) new_memory_store).1).1

pub ready-IsConsistent : IsConsistent ready
ready-IsConsistent =
    law.append_IsSound _ operation
      (law.store_IsSound new_memory_store content new_memory_store-IsConsistent) tt

ready_queue : memory_views.queue ready ≡ operation ∷ []
unfolding new_memory_store store_content append staged_operation text_eq lookup
ready_queue = refl

validate_stat_unchanged_iff_example :
    (validate_stat_unchanged info changed_info stat_data stat_data ≡ ok tt) ↔ (
      (info.size ≡ changed_info.size)
      × (info.mode ≡ changed_info.mode)
      × (info.mod_time.instant ≡ changed_info.mod_time.instant)
      × (stat_data.ctime.instant ≡ stat_data.ctime.instant)
      × (stat_data.uid ≡ stat_data.uid)
      × (stat_data.gid ≡ stat_data.gid))
validate_stat_unchanged_iff_example =
    validate_stat_unchanged_iff info changed_info stat_data stat_data

memory_store-Contract_example : Contract hash (memory_store hash) memory_views
memory_store-Contract_example = memory_store-Contract hash

stage_success_example :
    (b : Bytes) × (stat1 : StatData) × ((file_system info).open_file path ≡ ok (ok b))
    × ((file_system info).extract_stat_data path.info ≡ ok stat1)
    × (memory_views.queue (staged info new_memory_store).1
        ≡ memory_views.queue new_memory_store
          ++ staged_operation directory (codes "x") path.info stat1 (hash b) (length b) ∷ [])
    × (memory_views.contents (staged info new_memory_store).1 (hash b) ≡ some b)
    × (memory_views.size (staged info new_memory_store).1 ≤ 100)
unfolding stage store_and_finish finish new_memory_store store_content content_size append
    staged_operation validate_stat_unchanged text_eq lookup insert
stage_success_example =
    stage_success hash hash-injective store memory_views law (file_system info) 100 directory
      (codes "x") path new_memory_store new_memory_store-IsConsistent new_memory_store-IsStocked
      refl

stage_failure_example :
    (memory_views.queue (staged changed_info ready).1 ≡ memory_views.queue ready)
    × (memory_views.size (staged changed_info ready).1 ≤ memory_views.size ready)
    × ((c : Text)
        → (memory_views.contents (staged changed_info ready).1 c ≡ memory_views.contents ready c)
          ⊎ ((b : Bytes) × ((file_system changed_info).open_file path ≡ ok (ok b))
              × (hash b ≡ c)
              × (memory_views.contents (staged changed_info ready).1 c ≡ none)))
unfolding stage store_and_finish finish new_memory_store store_content content_size append
    staged_operation validate_stat_unchanged text_eq lookup insert
stage_failure_example =
    stage_failure hash hash-injective store memory_views law (file_system changed_info) 100
      directory (codes "x") path ready ready-IsConsistent size_changed refl

stage-size-le_example : memory_views.size (staged info new_memory_store).1 ≤ 100
unfolding new_memory_store
stage-size-le_example =
    stage-size-le hash hash-injective store memory_views law (file_system info) 100 directory
      (codes "x") path new_memory_store new_memory_store-IsConsistent (omega arith)

stage-IsStocked_example :
    IsStocked hash memory_views (staged info new_memory_store).1
    × memory_views.IsSound (staged info new_memory_store).1
unfolding new_memory_store
stage-IsStocked_example =
    stage-IsStocked hash hash-injective store memory_views law (file_system info) 100 directory
      (codes "x") path new_memory_store new_memory_store-IsConsistent new_memory_store-IsStocked
      (λ e b failed opened. refl)

stage_drops_shared_example :
    (memory_views.queue (staged changed_info ready).1 ≡ memory_views.queue ready)
    × (store.open_content (hash content) (staged changed_info ready).1 ≡ err not_found)
    × ¬ IsStocked hash memory_views (staged changed_info ready).1
unfolding validate_stat_unchanged new_memory_store store_content append staged_operation text_eq
    lookup
stage_drops_shared_example =
    stage_drops_shared hash hash-injective store memory_views law (file_system changed_info) 100
      directory (codes "x") path ready ready-IsConsistent content stat_data stat_data changed_info
      size_changed refl refl refl refl refl (omega arith)

-- A callback that counts its calls.
abbrev counting : BackupFunc ℕ
counting b snapshot d r n = (ok tt, suc n)

ready_content : memory_views.contents ready (operation.snapshot.content_id) ≡ some content
unfolding new_memory_store store_content append staged_operation text_eq lookup insert
ready_content = refl

process_commits_example :
    (t : MemoryStore) × (process_next store counting (ready, 0) ≡ (ok tt, (t, 1)))
    × memory_views.IsSound t
    × (memory_views.queue t ≡ [])
    × ((c : Text)
        → memory_views.contents t c ≡ (
            if refs operation.snapshot.content_id [] == 0 && text_eq operation.snapshot.content_id c
            then none
            else memory_views.contents ready c))
process_commits_example =
    process_commits hash store memory_views law counting ready 0 ready-IsConsistent operation []
      ready_queue content ready_content refl

backup_all-Drains_example :
    Drains hash store memory_views law counting
      (backup_all store counting 2 0 ready 0)
      (drain (memory_views.contents ready) counting 0 (memory_views.queue ready) 0)
unfolding new_memory_store store_content append staged_operation text_eq lookup
backup_all-Drains_example =
    backup_all-Drains hash store memory_views law counting 2 ready 0 ready-IsConsistent
      (omega arith)

backup_all-ends_example :
    let r = backup_all store counting 2 0 ready 0 in
    (r.count + length (memory_views.queue r.store) ≡ length (memory_views.queue ready))
    × (((r.ended ≡ done) × (memory_views.queue r.store ≡ []))
        ⊎ ((e : Error) × (r.ended ≡ failed e)))
unfolding new_memory_store store_content append staged_operation text_eq lookup
backup_all-ends_example =
    backup_all-ends hash store memory_views law counting 2 ready 0 ready-IsConsistent (omega arith)

filesystem_store-ContractFor_example :
    ContractFor queue_codec.IsLossless hash
      (filesystem_store hash queue_codec)
      (filesystem_views queue_codec)
filesystem_store-ContractFor_example = filesystem_store-ContractFor hash queue_codec

pub ready-IsStocked : IsStocked hash memory_views ready
unfolding new_memory_store store_content append staged_operation text_eq lookup insert
ready-IsStocked = record {
  hashed = λ c b h.
      (store-IsStocked hash hash-injective store memory_views law new_memory_store content
          new_memory_store-IsStocked).hashed
        c b h;
  queued = ((content, refl, refl), tt);
}
