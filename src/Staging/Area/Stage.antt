-- ===== src/Staging/Area/Stage.antt =====
-- What `Stage` does to a store that keeps its contract.
use bt_go.Prelude.{
  ℕ, ◌≡◌, ◌≤◌, ◌⊎◌, inl, inr, refl, Bool, false, true, Text, Bytes, Result, Error, ok, err,
  staging_full, length, Act, tidy, continue, continue_cases, ltb, arith, if◌then◌else◌,
}
use bt_go.Models.{Directory}
use bt_go.Filesystem.{StatData, FilePath, FilesystemManager}
use bt_go.Staging.Operation.{StagedOperation, validate_stat_unchanged}
use bt_go.Staging.Store.{StagingStore, Views, Contract}
use bt_go.Staging.Area.{staged_operation, finish, store_and_finish, stage}

module _ {S : Type 0} (sha256_hex : Bytes → Text) (store : StagingStore S) (v : Views S)
    (law : Contract sha256_hex store v) (fsmgr : FilesystemManager) (max_size : ℕ)
    (directory : Directory) (relative_path : Text) (path : FilePath) where
  -- The operation of a file with these bytes.
  abbrev pub op_of : StatData → Bytes → StagedOperation
  op_of stat1 b = staged_operation directory relative_path path.info stat1 (sha256_hex b) (length b)

  -- The store once the bytes are in.
  abbrev pub stored : S → Bytes → S
  stored s b = (store.store_content (ok b) s).1

  abbrev run_finish : StatData → Bytes → Act S (Unit {0})
  run_finish stat1 b =
      finish store fsmgr max_size directory relative_path path stat1 (sha256_hex b, length b)

  -- Either nothing was queued, or the operation was appended and the store is within its limit.
  abbrev Finished : StatData → Bytes → S → Result (Unit {0}) × S → Type 0
  Finished stat1 b s r =
      ((e : Error) × (r ≡ (err e, s)))
      ⊎ ((r ≡ (ok tt, (store.append (op_of stat1 b) s).1)) × (v.size s ≤ max_size))

  finish_append :
      (stat1 : StatData) (b : Bytes) (s : S)
      → v.IsSound s
      → (t : Bool) → ltb max_size (v.size s) ≡ t
      → Finished stat1 b s
          (continue (if t then err staging_full else ok tt) (λ _. store.append (op_of stat1 b)) s)
  finish_append stat1 b s sound true h = inl (staging_full, refl)
  finish_append stat1 b s sound false h =
      inr (ground (arith, law.append_result s (op_of stat1 b) sound), ground arith)

  finish_outcome :
      (stat1 : StatData) (b : Bytes) (s : S)
      → v.IsSound s
      → Finished stat1 b s (run_finish stat1 b s)
  unfolding finish
  finish_outcome stat1 b s sound = continue_cases P _ s (fsmgr.stat path) refused λ info2 _.
      continue_cases P _ s (fsmgr.extract_stat_data info2) refused λ stat2 _.
        continue_cases P _ s (validate_stat_unchanged path.info info2 stat1 stat2) refused
          λ _ _. rw (law.size_lem s sound, continue) (finish_append stat1 b s sound _ refl)
    where
      P : Result (Unit {0}) × S → Type 0
      P = Finished stat1 b s

      refused : {A : Type 0} {r : Result A} (e : Error) → r ≡ err e → P (err e, s)
      refused e h = inl (e, refl)

  abbrev pub run_stage : Act S (Unit {0})
  run_stage = stage store fsmgr max_size directory relative_path path

  -- The three ways out of `Stage`: it gives up before the content is stored; it stores the content,
  -- fails, and removes it; or it queues the operation.
  abbrev pub Outcome : S → Result (Unit {0}) × S → Type 0
  Outcome s r =
      ((e : Error) × (r ≡ (err e, s)))
      ⊎ ((b : Bytes) × (e : Error) × (fsmgr.open_file path ≡ ok (ok b))
          × (r ≡ (err e, store.remove_content (sha256_hex b) (stored s b))))
      ⊎ ((b : Bytes) × (stat1 : StatData) × (fsmgr.open_file path ≡ ok (ok b))
          × (fsmgr.extract_stat_data path.info ≡ ok stat1)
          × (r ≡ (ok tt, (store.append (op_of stat1 b) (stored s b)).1))
          × (v.size (stored s b) ≤ max_size))

  stored-Outcome :
      (stat1 : StatData) (b : Bytes) (s : S)
      → v.IsSound s
      → fsmgr.extract_stat_data path.info ≡ ok stat1
      → fsmgr.open_file path ≡ ok (ok b)
      → Outcome s
          (store_and_finish store fsmgr max_size directory relative_path path stat1 (ok b) s)
  unfolding store_and_finish
  stored-Outcome stat1 b s sound es eo =
      rw (law.store_result s b, continue)
        (elim (finish_outcome stat1 b (stored s b) (law.store_IsSound s b sound)) [
          | inl (e, h) ↦ inr (inl (b, e, eo, rw (h, tidy)))
          | inr (h, fits) ↦ inr (inr (b, stat1, eo, es, rw (h, tidy), fits))
        ])

  pub stage-Outcome : (s : S) → v.IsSound s → Outcome s (run_stage s)
  unfolding stage
  stage-Outcome s sound =
      continue_cases (Outcome s) _ s (fsmgr.extract_stat_data path.info) (λ e _. inl (e, refl))
        λ stat1 es.
          continue_cases (Outcome s) _ s (fsmgr.open_file path) (λ e _. inl (e, refl))
            λ reader eo. opened stat1 es reader eo
    where
      opened :
          (stat1 : StatData)
          → fsmgr.extract_stat_data path.info ≡ ok stat1
          → (reader : Result Bytes) → fsmgr.open_file path ≡ ok reader
          → Outcome s
              (store_and_finish store fsmgr max_size directory relative_path path stat1 reader s)
      opened stat1 es (ok b) eo = stored-Outcome stat1 b s sound es eo
      opened stat1 es (err e) eo =
          inl (e, unfold store_and_finish in rw (law.store_broken s e, continue))
