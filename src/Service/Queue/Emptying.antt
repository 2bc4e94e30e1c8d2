-- ===== src/Service/Queue/Emptying.antt =====
-- BackupAll of internal/bt/service.go, with a callback that does not fail.
use bt_go.Prelude.{
  ℕ, suc, ◌+◌, ◌<◌, ◌≡◌, ◌∙◌, refl, Option, some, List, [], ◌∷◌, Text, Bytes, ok, length, All,
  arith,
}
use bt_go.Staging.Operation.{StagedOperation}
use bt_go.Staging.Store.{StagingStore, Views, Contract}
use bt_go.Staging.Area.{BackupFunc}
use bt_go.Staging.Area.Stocked.{Stocked, IsStocked}
use bt_go.Service.Queue.{done, backup_all}
use bt_go.Service.Queue.Draining.{drain, backup_all-Drains}

module _ {W : Type 0} (sha256_hex : Bytes → Text) where
  -- What `P` says of the queue that is left and the state: the callback does not fail on the
  -- content of the queue's head, and keeps it so for the rest of the queue.
  abbrev pub Succeeds : (List StagedOperation → W → Type 0) → BackupFunc W → Type 0
  Succeeds P fn =
      (b : Bytes) (op : StagedOperation) (queue : List StagedOperation) (w : W)
      → sha256_hex b ≡ op.snapshot.content_id
      → length b ≡ op.snapshot.size
      → P (op ∷ queue) w
      → let next = fn b op.snapshot op.directory_id op.relative_path w in
        (next.0 ≡ ok tt) × P queue next.1

  module _ (content : Text → Option Bytes)
      (hashed : (c : Text) (b : Bytes) → content c ≡ some b → sha256_hex b ≡ c)
      (P : List StagedOperation → W → Type 0) (fn : BackupFunc W) (succeeds : Succeeds P fn) where
    drain_queue_whole :
        (n : ℕ) (queue : List StagedOperation) (w : W)
        → All (Stocked content) queue
        → P queue w
        → let d = drain content fn n queue w in
          (d.ended ≡ done) × ((d.left ≡ []) × ((d.count ≡ n + length queue) × P [] d.rest))
    unfolding drain
    drain_queue_whole n [] w a p = (refl, (refl, (omega arith, p)))
    drain_queue_whole n (op ∷ queue) w a p =
        let (b, there, size) = a.0 in
        let id = op.snapshot.content_id in
        let (fine, kept) = succeeds b op queue w (hashed id b there) size p in
        let (ended, (left, (counted, rest))) =
          drain_queue_whole (suc n) queue (fn b op.snapshot op.directory_id op.relative_path w).1
            a.1 kept in
        rw (there, drain) (rw (fine, drain) (ended, (left, (counted ∙ omega arith, rest))))

-- On a sound and stocked store, and with a callback that does not fail on the queued operations in
-- their order, given content that is as their snapshots say, BackupAll with fuel for each queued
-- operation and one round more ends without an error, with an empty queue, having counted every
-- operation that was queued.
pub backup_all-empties :
    {S W : Type 0} (sha256_hex : Bytes → Text) (store : StagingStore S) (v : Views S)
    (law : Contract sha256_hex store v) (P : List StagedOperation → W → Type 0) (fn : BackupFunc W)
    (fuel : ℕ) (s : S) (w : W)
    → v.IsSound s
    → IsStocked sha256_hex v s
    → length (v.queue s) < fuel
    → Succeeds sha256_hex P fn
    → P (v.queue s) w
    → let r = backup_all store fn fuel 0 s w in
      (r.ended ≡ done) × ((v.queue r.store ≡ []) × ((r.count ≡ length (v.queue s)) × P [] r.rest))
backup_all-empties sha256_hex store v law P fn fuel s w sound stocked less succeeds p =
    let run = backup_all-Drains sha256_hex store v law fn fuel s w sound less in
    let (ended, (left, (counted, rest))) =
      drain_queue_whole sha256_hex (v.contents s) stocked.hashed P fn succeeds 0 (v.queue s) w
        stocked.queued p in
    (run.ended ∙ ended, (run.left ∙ left, (run.count ∙ (counted ∙ omega arith), rw run.rest rest)))
