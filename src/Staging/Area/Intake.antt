-- ===== src/Staging/Area/Intake.antt =====
-- The promises of `Stage`, for any store that keeps its contract.
use bt_go.Prelude.{
  continue, ◌<◌, ℕ, ◌≡◌, ◌≤◌, ◌⊎◌, inl, inr, refl, sym, ap, ◌∙◌, none, some, List, [], ◌∷◌, ◌++◌,
  Text, Bytes, text_eq, text_eq_iff, text_eq_refl, Result, Error, ok, err, not_found, length, arith,
  Option-cases, Bool-cases,
}
use bt_go.Models.{Directory}
use bt_go.Filesystem.{FileInfo, StatData, FilePath, FilesystemManager}
use bt_go.Staging.Operation.{StagedOperation, validate_stat_unchanged}
use bt_go.Staging.Store.{StagingStore, Views, Contract, refs}
use bt_go.Staging.Area.{staged_operation, stage, store_and_finish, finish}
use bt_go.Staging.Area.Stage.{stage-Outcome, stored, Outcome}
use bt_go.Staging.Area.Stocked.{
  missing_refs, IsStocked, stored_self, store-IsStocked, remove-IsStocked, append-IsStocked,
}

module _ {S : Type 0} (sha256_hex : Bytes → Text)
    (injective : (x y : Bytes) → sha256_hex x ≡ sha256_hex y → x ≡ y) (store : StagingStore S)
    (v : Views S) (law : Contract sha256_hex store v) (fsmgr : FilesystemManager) (max_size : ℕ)
    (directory : Directory) (relative_path : Text) (path : FilePath) (s : S)
    (sound : v.IsSound s) where
  abbrev after : Result (Unit {0}) × S
  after = stage store fsmgr max_size directory relative_path path s

  outcome : Outcome sha256_hex store v law fsmgr max_size directory relative_path path s after
  outcome = stage-Outcome sha256_hex store v law fsmgr max_size directory relative_path path s sound

  -- In a sound store in which every queued operation has its content, under a checksum free of
  -- collisions, a successful `Stage` has read the whole file, stored its bytes under their
  -- checksum, and put one operation at the end of the queue: the checksum and size are those of the
  -- bytes, the metadata those of the first stat. The content stored does not exceed the maximum.
  pub stage_success :
      IsStocked sha256_hex v s
      → after.0 ≡ ok tt
      → (b : Bytes) × (stat1 : StatData) × (fsmgr.open_file path ≡ ok (ok b))
        × (fsmgr.extract_stat_data path.info ≡ ok stat1)
        × (v.queue after.1
            ≡ v.queue s
              ++ staged_operation directory relative_path path.info stat1 (sha256_hex b) (length b)
                ∷ [])
        × (v.contents after.1 (sha256_hex b) ≡ some b)
        × (v.size after.1 ≤ max_size)
  stage_success k h = elim outcome [
    | inl (e, r) ↦ absurd (cc (ap (λ (x : Result (Unit {0}) × S). x.0) r))
    | inr (inl (b, e, eo, r)) ↦ absurd (cc (ap (λ (x : Result (Unit {0}) × S). x.0) r))
    | inr (inr (b, stat1, eo, es, r, fits)) ↦ (
      b,
      stat1,
      eo,
      es,
      rw r (
          law.append_queue _ _ (law.store_IsSound s b sound) tt
          ∙ ap
              (λ (q : List StagedOperation).
                q
                ++ staged_operation directory relative_path path.info stat1 (sha256_hex b)
                    (length b)
                  ∷ [])
              (law.store_queue s b)),
      rw r (law.append_contents _ _ _ ∙ stored_self sha256_hex injective store v law s b k),
      rw (r, law.append_size) fits,
    )
  ]

  dropped-size-le :
      (b : Bytes)
      → v.size (
          store.remove_content
            (sha256_hex b)
            (stored sha256_hex store v law fsmgr max_size directory relative_path path s b))
        ≤ v.size s
  dropped-size-le b = elim (Option-cases (v.contents s (sha256_hex b))) [
    | inl e ↦ law.store_remove s b e
    | inr (old, e) ↦ omega (
      arith,
      law.store_known s b old e,
      law.remove_size (store.store_content (ok b) s).1 (sha256_hex b),
    )
  ]

  -- In a sound store, a failed `Stage` leaves the queue as it was and the store no larger. It
  -- changes no content but that of the file's own checksum, which it removes.
  pub stage_failure :
      (e : Error)
      → after.0 ≡ err e
      → (v.queue after.1 ≡ v.queue s)
        × (v.size after.1 ≤ v.size s)
        × ((c : Text)
            → (v.contents after.1 c ≡ v.contents s c)
              ⊎ ((b : Bytes) × (fsmgr.open_file path ≡ ok (ok b))
                  × (sha256_hex b ≡ c)
                  × (v.contents after.1 c ≡ none)))
  stage_failure e h = elim outcome [
    | inl (e', r) ↦ (rw r refl, rw r (omega arith), λ c. inl (rw r refl))
    | inr (inl (b, e', eo, r)) ↦ (
      rw (r, law.remove_queue) (law.store_queue s b),
      rw r (dropped-size-le b),
      λ c. elim (Bool-cases (text_eq (sha256_hex b) c)) [
        | inl same ↦ inr (b, eo, (text_eq_iff _ _).0 same, rw (r, law.remove_contents, same))
        | inr other ↦ inl (rw (r, law.remove_contents, other, law.store_contents, other))
      ],
    )
    | inr (inr (b, stat1, eo, es, r, fits)) ↦
        absurd (cc (sym h ∙ ap (λ (x : Result (Unit {0}) × S). x.0) r))
  ]

  -- In a sound store within its limit, whatever comes of it, `Stage` keeps the size of the stored
  -- content within the maximum.
  pub stage-size-le : v.size s ≤ max_size → v.size after.1 ≤ max_size
  stage-size-le h = elim outcome [
    | inl (e, r) ↦ rw r h
    | inr (inl (b, e, eo, r)) ↦ rw r (omega (arith, dropped-size-le b))
    | inr (inr (b, stat1, eo, es, r, fits)) ↦ rw (r, law.append_size) fits
  ]

  -- Under a checksum free of collisions, `Stage` keeps a sound store sound and every queued
  -- operation ready for backup, where that held before and unless it fails on a file whose content a
  -- queued operation shares.
  pub stage-IsStocked :
      IsStocked sha256_hex v s
      → ((e : Error) (b : Bytes)
          → after.0 ≡ err e
          → fsmgr.open_file path ≡ ok (ok b)
          → refs (sha256_hex b) (v.queue s) ≡ 0)
      → IsStocked sha256_hex v after.1 × v.IsSound after.1
  unfolding staged_operation
  stage-IsStocked k unshared = elim outcome [
    | inl (e, r) ↦ (rw r k, rw r sound)
    | inr (inl (b, e, eo, r)) ↦
        let free = unshared e b (ap (λ (x : Result (Unit {0}) × S). x.0) r) eo in
        let free' = ap (refs (sha256_hex b)) (law.store_queue s b) ∙ free in
        (
          rw r (
              remove-IsStocked sha256_hex injective store v law _ _ free'
                (store-IsStocked sha256_hex injective store v law s b k)),
          rw r (law.remove_IsSound _ _ (law.store_IsSound s b sound) free'),
        )
    | inr (inr (b, stat1, eo, es, r, fits)) ↦ (
      rw r (
          append-IsStocked sha256_hex injective store v law _ _ (law.store_IsSound s b sound)
            (b, stored_self sha256_hex injective store v law s b k, refl)
            (store-IsStocked sha256_hex injective store v law s b k)),
      rw r (law.append_IsSound _ _ (law.store_IsSound s b sound) tt),
    )
  ]

  -- In a sound store: when a file changes while it is being staged and a queued operation has the
  -- same content, that content is removed from under the operation, which stays in the queue and
  -- cannot be backed up.
  pub stage_drops_shared :
      (b : Bytes) (stat1 stat2 : StatData) (info2 : FileInfo) (e : Error)
      → fsmgr.open_file path ≡ ok (ok b)
      → fsmgr.extract_stat_data path.info ≡ ok stat1
      → fsmgr.stat path ≡ ok info2
      → fsmgr.extract_stat_data info2 ≡ ok stat2
      → validate_stat_unchanged path.info info2 stat1 stat2 ≡ err e
      → 0 < refs (sha256_hex b) (v.queue s)
      → (v.queue after.1 ≡ v.queue s)
        × (store.open_content (sha256_hex b) after.1 ≡ err not_found)
        × ¬ IsStocked sha256_hex v after.1
  unfolding stage store_and_finish finish
  stage_drops_shared b stat1 stat2 info2 e eo es e2 es2 changed shared =
      rw (es, continue)
        (rw (eo, continue)
          (rw (law.store_result s b, continue)
            (rw (e2, continue)
              (rw (es2, continue)
                (rw (changed, continue)
                  (
                    kept,
                    rw (law.open_lem, gone),
                    λ k. absurd (
                        omega (
                          arith,
                          shared,
                          missing_refs _ (sha256_hex b) _ gone k.queued,
                          ap (refs (sha256_hex b)) kept,
                        )),
                  ))))))
    where
      removed : S
      removed = store.remove_content (sha256_hex b) (store.store_content (ok b) s).1

      kept : v.queue removed ≡ v.queue s
      kept = law.remove_queue _ _ ∙ law.store_queue s b

      gone : v.contents removed (sha256_hex b) ≡ none
      gone = rw (law.remove_contents, text_eq_refl (sha256_hex b))
