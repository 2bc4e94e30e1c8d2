-- ===== src/Service/Queue.antt =====
-- BackupAll of internal/bt/service.go: the staged operations, one after the other.
pub mod Draining
pub mod Keeping
pub mod Emptying
use bt_go.Prelude.{
  ℕ, zero, suc, ◌+◌, ◌≡◌, Option, none, some, Result, Error, ok, err, ◌==◌, if◌then◌else◌,
}
use bt_go.Staging.Store.{StagingStore}
use bt_go.Staging.Area.{BackupFunc, process_next}

-- How a run of the loop ended: by its break, by an error, or with no fuel left.
pub data Ended : Type 0 where
  done : Ended
  failed : Error → Ended
  out_of_fuel : Ended

-- What BackupAll returns, the count beside the error, with the state that it leaves.
pub record Run (S W : Type 0) : Type 0 where
  pub count : ℕ
  pub ended : Ended
  pub store : S
  pub rest : W

module _ {S W : Type 0} (store : StagingStore S) (fn : BackupFunc W) where
  unfoldable pub backup_all : ℕ → ℕ → S → W → Run S W
  backup_all zero count s w = record { count = count; ended = out_of_fuel; store = s; rest = w }
  backup_all (suc fuel) count s w =
      let next = process_next store fn (s, w) in
      let again = backup_all fuel (suc count) next.1.0 next.1.1 in
      elim (store.len s) [
        | err e ↦ record { count = count; ended = failed e; store = s; rest = w }
        | ok size ↦
            if size == 0
            then record { count = count; ended = done; store = s; rest = w }
            else (elim next.0 [
              | err e ↦ record {
                count = count;
                ended = failed e;
                store = next.1.0;
                rest = next.1.1;
              }
              | ok _ ↦ again
            ])
      ]
