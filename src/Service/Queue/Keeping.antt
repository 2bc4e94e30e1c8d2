-- ===== src/Service/Queue/Keeping.antt =====
-- BackupAll of internal/bt/service.go, and a property of the state that its callback runs on.
use bt_go.Prelude.{
  ℕ, zero, suc, inl, inr, Text, Bytes, Result-cases, Option-cases, Bool-cases, ◌==◌,
}
use bt_go.Models.{FileSnapshot}
use bt_go.Staging.Operation.{StagedOperation}
use bt_go.Staging.Store.{StagingStore}
use bt_go.Staging.Area.{BackupFunc, run_callback, process_head, process_next}
use bt_go.Service.Queue.{backup_all}

module _ {S W : Type 0} (store : StagingStore S) (fn : BackupFunc W) (P : W → Type 0)
    (kept : (b : Bytes) (s : FileSnapshot) (d r : Text) (w : W) → P w → P (fn b s d r w).1) where
  run_callback_keeps :
      (op : StagedOperation) (b : Bytes) (s : S) (w : W)
      → P w
      → P (run_callback store fn op b (s, w)).1.1
  unfolding run_callback
  run_callback_keeps op b s w h =
      elim (Result-cases (fn b op.snapshot op.directory_id op.relative_path w).0) [
        | inl (_, x) ↦
            rw (run_callback, x) (kept b op.snapshot op.directory_id op.relative_path w h)
        | inr (e, x) ↦
            rw (run_callback, x) (kept b op.snapshot op.directory_id op.relative_path w h)
      ]

  process_next_keeps : (s : S) (w : W) → P w → P (process_next store fn (s, w)).1.1
  unfolding process_next
  process_next_keeps s w h = elim (Result-cases (store.peek s)) [
    | inr (e, x) ↦ rw (process_next, x) h
    | inl (o, x) ↦
        rw (process_next, x)
          (elim (Option-cases o) [
            | inl y ↦ rw y h
            | inr (op, y) ↦
                rw y (elim (Result-cases (store.open_content op.snapshot.content_id s)) [
                  | inr (e, z) ↦ rw (process_head, z) h
                  | inl (b, z) ↦ rw (process_head, z) (run_callback_keeps op b s w h)
                ])
          ])
  ]

  pub backup_all_keeps :
      (fuel n : ℕ) (s : S) (w : W) → P w → P (backup_all store fn fuel n s w).rest
  unfolding backup_all
  backup_all_keeps zero n s w h = h
  backup_all_keeps (suc fuel) n s w h = elim (Result-cases (store.len s)) [
    | inr (e, x) ↦ rw (backup_all, x) h
    | inl (size, x) ↦
        rw (backup_all, x)
          (elim (Bool-cases (size == 0)) [
            | inl y ↦ rw y h
            | inr y ↦ rw y (elim (Result-cases (process_next store fn (s, w)).0) [
              | inr (e, z) ↦ rw z (process_next_keeps s w h)
              | inl (u, z) ↦ rw z (
                  backup_all_keeps fuel (suc n) (process_next store fn (s, w)).1.0
                    (process_next store fn (s, w)).1.1 (process_next_keeps s w h))
            ])
          ])
  ]
