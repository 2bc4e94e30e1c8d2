-- ===== src/Service/Queue/Draining.antt =====
-- BackupAll takes the queue in order, and its loop ends.
use bt_go.Prelude.{
  ℕ, zero, suc, ◌+◌, ◌<◌, ◌≡◌, ◌⊎◌, inl, inr, refl, ap, ◌∙◌, ◌&&◌, Option, none, some, List, [],
  ◌∷◌, Text, Bytes, text_eq, text_eq_iff, Result-cases, Option-cases, Bool-cases, Error, ok, err,
  not_found, length, All, All-map, All-keep, arith, ◌==◌, ==_iff, if◌then◌else◌,
}
use bt_go.Staging.Operation.{StagedOperation}
use bt_go.Staging.Store.{StagingStore, Views, Contract, refs}
use bt_go.Staging.Area.{BackupFunc, process_next}
use bt_go.Staging.Area.Process.{process_missing, process_fails, process_commits}
use bt_go.Service.Queue.{Ended, done, failed, Run, backup_all}

-- The reference: the callback on each operation of a queue in turn, with the content staged for it,
-- up to the first failure.
pub record Drained (W : Type 0) : Type 0 where
  pub count : ℕ
  pub ended : Ended
  pub left : List StagedOperation
  pub rest : W

unfoldable pub drain :
    {W : Type 0} → (Text → Option Bytes) → BackupFunc W → ℕ → List StagedOperation → W → Drained W
drain content fn n [] w = record { count = n; ended = done; left = []; rest = w }
drain content fn n (op ∷ queue) w = elim (content op.snapshot.content_id) [
  | none ↦ record { count = n; ended = failed not_found; left = op ∷ queue; rest = w }
  | some b ↦ elim (fn b op.snapshot op.directory_id op.relative_path w).0 [
    | err e ↦ record {
      count = n;
      ended = failed e;
      left = op ∷ queue;
      rest = (fn b op.snapshot op.directory_id op.relative_path w).1;
    }
    | ok _ ↦ drain content fn (suc n) queue (fn b op.snapshot op.directory_id op.relative_path w).1
  ]
]

-- A queue whose operations have the contents that `content` says.
abbrev pub Agrees : (Text → Option Bytes) → (Text → Option Bytes) → List StagedOperation → Type 0
Agrees now content = All (λ op. now op.snapshot.content_id ≡ content op.snapshot.content_id)

Agrees-refl :
    (content : Text → Option Bytes) (queue : List StagedOperation) → Agrees content content queue
Agrees-refl content [] = tt
Agrees-refl content (op ∷ queue) = (refl, Agrees-refl content queue)

-- Removing what nothing refers to keeps the agreement.
Agrees-left :
    (now later content : Text → Option Bytes) (op : StagedOperation) (queue : List StagedOperation)
    → ((c : Text)
        → later c ≡ (
            if refs op.snapshot.content_id queue == 0 && text_eq op.snapshot.content_id c
            then none
            else now c))
    → Agrees now content queue
    → Agrees later content queue
Agrees-left now later content op queue cs a =
    elim (Bool-cases (refs op.snapshot.content_id queue == 0)) [
      | inl free ↦
          All-keep _ _ _ queue
            (λ o other h. ground (
              arith,
              cs o.snapshot.content_id,
              other,
              h,
              text_eq_iff op.snapshot.content_id o.snapshot.content_id,
              text_eq_iff o.snapshot.content_id op.snapshot.content_id,
            ))
            ((==_iff (refs op.snapshot.content_id queue) 0).0 free) a
      | inr used ↦ All-map _ _ queue (λ o h. ground (arith, cs o.snapshot.content_id, used, h)) a
    ]

module _ {S W : Type 0} (sha256_hex : Bytes → Text) (store : StagingStore S) (v : Views S)
    (law : Contract sha256_hex store v) (fn : BackupFunc W) where
  -- A run and its reference end alike.
  pub record Drains (r : Run S W) (d : Drained W) : Type 0 where
    pub count : r.count ≡ d.count
    pub ended : r.ended ≡ d.ended
    pub left : v.queue r.store ≡ d.left
    pub rest : r.rest ≡ d.rest
    pub sound : v.IsSound r.store

  module _ (fuel n k : ℕ) (s t : S) (w w' : W) (more : store.len s ≡ ok (suc k)) where
    step_fails :
        (e : Error)
        → process_next store fn (s, w) ≡ (err e, (t, w'))
        → backup_all store fn (suc fuel) n s w
          ≡ record { count = n; ended = failed e; store = t; rest = w' }
    unfolding backup_all
    step_fails e h = ground (arith, more, h)

    step_commits :
        process_next store fn (s, w) ≡ (ok tt, (t, w'))
        → backup_all store fn (suc fuel) n s w ≡ backup_all store fn fuel (suc n) t w'
    unfolding backup_all
    step_commits h = ground (arith, more, h)

  -- The head of the queue has its content: the callback decides.
  present :
      (content : Text → Option Bytes) (op : StagedOperation) (queue : List StagedOperation)
      (fuel n : ℕ) (s : S) (w : W) (b : Bytes)
      → store.len s ≡ ok (suc (length queue))
      → v.IsSound s
      → v.queue s ≡ op ∷ queue
      → Agrees (v.contents s) content queue
      → v.contents s op.snapshot.content_id ≡ some b
      → ((t : S)
          → v.IsSound t
          → v.queue t ≡ queue
          → Agrees (v.contents t) content queue
          → let w' = (fn b op.snapshot op.directory_id op.relative_path w).1 in
            Drains (backup_all store fn fuel (suc n) t w') (drain content fn (suc n) queue w'))
      → content op.snapshot.content_id ≡ some b
      → Drains (backup_all store fn (suc fuel) n s w) (drain content fn n (op ∷ queue) w)
  unfolding drain
  present content op queue fuel n s w b more sound e a here again there =
      elim (Result-cases (fn b op.snapshot op.directory_id op.relative_path w).0) [
        | inl (_, fine) ↦
            let (t, run, sound', left, cs) =
              process_commits sha256_hex store v law fn s w sound op queue e b here fine in
            rw (there, drain)
              (rw (fine, drain)
                (rw (step_commits fuel n (length queue) s t w _ more run)
                  (again t sound' left (Agrees-left _ _ content op queue cs a))))
        | inr (x, bad) ↦
            rw (there, drain)
              (rw (bad, drain)
                (rw
                  (step_fails fuel n (length queue) s s w _ more x
                    (process_fails sha256_hex store v law fn s w sound op queue b x e here bad))
                  (record { count = refl; ended = refl; left = e; rest = refl; sound = sound })))
      ]

  drains :
      (content : Text → Option Bytes) (queue : List StagedOperation) (fuel n : ℕ) (s : S) (w : W)
      → length queue < fuel
      → v.IsSound s
      → v.queue s ≡ queue
      → Agrees (v.contents s) content queue
      → Drains (backup_all store fn fuel n s w) (drain content fn n queue w)
  unfolding backup_all drain
  drains content queue zero n s w less sound e a = absurd (omega arith)
  drains content [] (suc fuel) n s w less sound e a =
      rw (law.len_lem s sound, backup_all)
        (rw e (record { count = refl; ended = refl; left = e; rest = refl; sound = sound }))
  drains content (op ∷ queue) (suc fuel) n s w less sound e a =
      elim (Option-cases (content op.snapshot.content_id)) [
        | inl gone ↦
            rw (gone, drain)
              (rw
                (step_fails fuel n (length queue) s s w w more not_found
                  (process_missing sha256_hex store v law fn s w sound op queue e (a.0 ∙ gone)))
                (record { count = refl; ended = refl; left = e; rest = refl; sound = sound }))
        | inr (b, there) ↦
            present content op queue fuel n s w b more sound e a.1 (a.0 ∙ there)
              (λ t sound' left a'.
                drains content queue fuel (suc n) t
                  (fn b op.snapshot op.directory_id op.relative_path w).1 (omega arith) sound' left
                  a')
              there
      ]
    where
      more : store.len s ≡ ok (suc (length queue))
      more = law.len_lem s sound ∙ ap (λ q. ok (length q)) e

-- On a sound store, with fuel for each operation of the queue and one round more, BackupAll runs
-- the callback on the queued operations in order, with the contents staged for them, up to the
-- first failure: its count, its error, the state that the callbacks leave and the operations still
-- queued are those of the reference run.
pub backup_all-Drains :
    {S W : Type 0} (sha256_hex : Bytes → Text) (store : StagingStore S) (v : Views S)
    (law : Contract sha256_hex store v) (fn : BackupFunc W) (fuel : ℕ) (s : S) (w : W)
    → v.IsSound s
    → length (v.queue s) < fuel
    → Drains sha256_hex store v law fn
        (backup_all store fn fuel 0 s w)
        (drain (v.contents s) fn 0 (v.queue s) w)
backup_all-Drains sha256_hex store v law fn fuel s w sound less =
    drains sha256_hex store v law fn (v.contents s) (v.queue s) fuel 0 s w less sound refl
      (Agrees-refl (v.contents s) (v.queue s))

-- The reference ends with its queue empty or with an error, and each operation is counted or left.
drain_counts :
    {W : Type 0} (content : Text → Option Bytes) (fn : BackupFunc W) (n : ℕ)
    (queue : List StagedOperation) (w : W)
    → let d = drain content fn n queue w in
      (d.count + length d.left ≡ n + length queue)
      × (((d.ended ≡ done) × (d.left ≡ [])) ⊎ ((e : Error) × (d.ended ≡ failed e)))
unfolding drain
drain_counts content fn n [] w = (refl, inl (refl, refl))
drain_counts content fn n (op ∷ queue) w = elim (Option-cases (content op.snapshot.content_id)) [
  | inl gone ↦ rw (gone, drain) (refl, inr (not_found, refl))
  | inr (b, there) ↦ elim (Result-cases (fn b op.snapshot op.directory_id op.relative_path w).0) [
    | inl (_, fine) ↦
        let rest =
          drain_counts content fn (suc n) queue
            (fn b op.snapshot op.directory_id op.relative_path w).1 in
        rw (there, drain) (rw (fine, drain) (omega (arith, rest.0), rest.1))
    | inr (e, bad) ↦ rw (there, drain) (rw (bad, drain) (refl, inr (e, refl)))
  ]
]

-- On a sound store BackupAll ends by itself: with fuel for each queued operation and one round more
-- it either empties the queue or reports an error, and its count and the operations still queued
-- add up to the operations that were queued.
pub backup_all-ends :
    {S W : Type 0} (sha256_hex : Bytes → Text) (store : StagingStore S) (v : Views S)
    (law : Contract sha256_hex store v) (fn : BackupFunc W) (fuel : ℕ) (s : S) (w : W)
    → v.IsSound s
    → length (v.queue s) < fuel
    → let r = backup_all store fn fuel 0 s w in
      (r.count + length (v.queue r.store) ≡ length (v.queue s))
      × (((r.ended ≡ done) × (v.queue r.store ≡ [])) ⊎ ((e : Error) × (r.ended ≡ failed e)))
backup_all-ends sha256_hex store v law fn fuel s w sound less =
    let d = backup_all-Drains sha256_hex store v law fn fuel s w sound less in
    let c = drain_counts (v.contents s) fn 0 (v.queue s) w in
    (rw (d.count, d.left) (c.0 ∙ omega arith), rw (d.ended, d.left) c.1)
