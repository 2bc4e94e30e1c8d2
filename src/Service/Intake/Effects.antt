-- ===== src/Service/Intake/Effects.antt =====
-- What staging many files keeps.
use bt_go.Prelude.{
  ℕ, ◌+◌, ◌≡◌, ◌≤◌, ◌⊎◌, inl, inr, refl, ◌∙◌, Bool, true, false, Option, none, some, List, [], ◌∷◌,
  Text, Bytes, length, length-append, ◌++◌, ap, subst, Result, Error, ok, err, Act, lift, fail,
  not_tracked, file_ignored, not_in_tracked_directory, pure, continue, continue_cases, ◌>>=◌,
  Result-cases, arith,
}
use bt_go.Models.{Directory}
use bt_go.Filesystem.{FilePath, FilesystemManager}
use bt_go.FilePaths.{rel}
use bt_go.Staging.Store.{StagingStore, Views, Contract}
use bt_go.Staging.Operation.{StagedOperation}
use bt_go.Staging.Area.{stage}
use bt_go.Staging.Area.Stage.{op_of, stage-Outcome}
use bt_go.Staging.Area.Intake.{stage-size-le}
use bt_go.Database.Sqlite.{Sqlite, search_directory_for_path}
use bt_go.Service.Intake.{
  stage_in, stage_one_file, stage_each, tracking_directory, stage_found, stage_kind, stage_files,
}

module _ {S : Type 0} (sha256_hex : Bytes → Text)
    (injective : (x y : Bytes) → sha256_hex x ≡ sha256_hex y → x ≡ y) (store : StagingStore S)
    (v : Views S) (law : Contract sha256_hex store v) (fsmgr : FilesystemManager) (max_size : ℕ)
    (db : Sqlite) where
  -- The store is within its limit; and after a success it is sound and has `k` more operations.
  abbrev pub Grew : {A : Type 0} → ℕ → S → Result A × S → Type 0
  Grew k s (err e, t) = v.size t ≤ max_size
  Grew k s (ok _, t) =
      (v.size t ≤ max_size) × v.IsSound t × (length (v.queue t) ≡ length (v.queue s) + k)

  length_snoc :
      (xs ys : List StagedOperation) (x : StagedOperation)
      → ys ≡ xs ++ x ∷ []
      → length ys ≡ length xs + 1
  length_snoc xs ys x h = ap length h ∙ length-append xs (x ∷ [])

  stage-Grew :
      (directory : Directory) (relative_path : Text) (path : FilePath) (s : S)
      → v.IsSound s
      → v.size s ≤ max_size
      → Grew 1 s (stage store fsmgr max_size directory relative_path path s)
  stage-Grew directory relative_path path s sound fits =
      elim (stage-Outcome sha256_hex store v law fsmgr max_size directory relative_path path s
        sound) [
          | inl (e, r) ↦ rw r fits
          | inr (inl (b, e, eo, r)) ↦ rw r (
              subst (λ (x : Result (Unit {0}) × S). v.size x.1 ≤ max_size) r
                (stage-size-le sha256_hex injective store v law fsmgr max_size directory
                  relative_path path s sound fits))
          | inr (inr (b, stat1, eo, es, r, within)) ↦ rw r (
            rw law.append_size within,
            law.append_IsSound _ _ (law.store_IsSound s b sound) tt,
            length_snoc (v.queue s) _ _ (
                law.append_queue _ _ (law.store_IsSound s b sound) tt
                ∙ ap
                    (λ q.
                      q
                      ++ op_of sha256_hex store v law fsmgr max_size directory relative_path path
                          stat1 b
                        ∷ [])
                    (law.store_queue s b)),
          )
        ]

  stage_one_file-Grew :
      (path : FilePath) (s : S)
      → v.IsSound s
      → v.size s ≤ max_size
      → Grew 1 s (stage_one_file store fsmgr max_size db path s)
  unfolding stage_one_file stage_in
  stage_one_file-Grew path s sound fits =
      elim (Result-cases (search_directory_for_path path.abs_path db)) [
        | inr (e, h) ↦ rw (h, continue) fits
        | inl (found, h) ↦ rw (h, continue) (inside found)
      ]
    where
      rest : Directory → Bool → Act S (Unit {0})
      rest directory ignored = elim ignored [
        | true ↦ fail file_ignored
        | false ↦ do
          relative_path ← lift (rel directory.path path.abs_path)
          stage store fsmgr max_size directory relative_path path
      ]

      checked : (directory : Directory) (ignored : Bool) → Grew 1 s (rest directory ignored s)
      checked directory true = fits
      checked directory false =
          continue_cases (Grew 1 s)
            (λ relative_path. stage store fsmgr max_size directory relative_path path) s
            (rel directory.path path.abs_path) (λ e h. fits)
            (λ relative_path h. stage-Grew directory relative_path path s sound fits)

      pick : Option Directory → Act S (Unit {0})
      pick found = elim found [
        | none ↦ fail not_in_tracked_directory
        | some directory ↦ stage_in store fsmgr max_size db directory path
      ]

      inside : (found : Option Directory) → Grew 1 s (pick found s)
      inside none = fits
      inside (some directory) =
          continue_cases (Grew 1 s) (rest directory) s (fsmgr.is_ignored path directory.path)
            (λ e h. fits) (λ ignored h. checked directory ignored)

  Grew-more :
      {A B : Type 0} (j k : ℕ) (s : S) (f : A → Act S B) (res : Result A × S)
      → Grew j s res
      → ((a : A) (t : S) → v.IsSound t → v.size t ≤ max_size → Grew k t (f a t))
      → Grew (j + k) s (continue res.0 f res.1)
  Grew-more j k s f (err e, t) h next = h
  Grew-more {B = B} j k s f (ok a, t) h next = go (f a t) (next a t h.1 h.0)
    where
      go : (res : Result B × S) → Grew k t res → Grew (j + k) s res
      go (err e, u) g = g
      go (ok b, u) g = (g.0, g.1, omega (arith, g.2, h.2))

  stage_each-Grew :
      (files : List FilePath) (s : S)
      → v.IsSound s
      → v.size s ≤ max_size
      → Grew (length files) s (stage_each store fsmgr max_size db files s)
  unfolding stage_each
  stage_each-Grew [] s sound fits = (fits, sound, omega arith)
  stage_each-Grew (file ∷ files) s sound fits =
      subst (λ n. Grew n s (stage_each store fsmgr max_size db (file ∷ files) s)) (omega arith)
        (Grew-more 1 (length files) s (λ _. stage_each store fsmgr max_size db files)
          (stage_one_file store fsmgr max_size db file s) (stage_one_file-Grew file s sound fits)
          (λ _ t sound' fits'. stage_each-Grew files t sound' fits'))

  -- The returned number says by how much the queue grew.
  abbrev Counted : S → Result ℕ × S → Type 0
  Counted s (err e, t) = v.size t ≤ max_size
  Counted s (ok n, t) =
      (v.size t ≤ max_size) × v.IsSound t × (length (v.queue t) ≡ length (v.queue s) + n)

  Grew-Counted :
      (n : ℕ) (s : S) (res : Result (Unit {0}) × S)
      → Grew n s res
      → Counted s (continue res.0 (λ _. pure n) res.1)
  Grew-Counted n s (err e, t) h = h
  Grew-Counted n s (ok _, t) h = h

  stage_kind-Counted :
      (path : FilePath) (recursive is_dir : Bool) (s : S)
      → v.IsSound s
      → v.size s ≤ max_size
      → Counted s (stage_kind store fsmgr max_size db path recursive is_dir s)
  unfolding stage_kind stage_found
  stage_kind-Counted path recursive false s sound fits =
      (Grew-Counted 1 s (stage_one_file store fsmgr max_size db path s)
        (stage_one_file-Grew path s sound fits))
  stage_kind-Counted path recursive true s sound fits =
      (continue_cases (Counted s) tracked s
        (tracking_directory store fsmgr max_size db path.abs_path) (λ e h. fits)
        (λ found h. in_tracked found))
    where
      tracked : Option Directory → Act S ℕ
      tracked found = elim found [
        | none ↦ fail not_tracked
        | some _ ↦ do
          files ← lift (fsmgr.find_files path recursive)
          stage_found store fsmgr max_size db files
      ]

      in_tracked : (found : Option Directory) → Counted s (tracked found s)
      in_tracked none = fits
      in_tracked (some directory) =
          continue_cases (Counted s) (stage_found store fsmgr max_size db) s
            (fsmgr.find_files path recursive) (λ e h. fits)
            (λ files h.
              Grew-Counted (length files) s (stage_each store fsmgr max_size db files s)
                (stage_each-Grew files s sound fits))

  -- Staging a path into a sound store within its limit. Whatever comes of it, the store is within
  -- its limit. On success the returned number is that of the operations that were queued, and the
  -- store is sound, so that a backup can follow.
  pub stage_files-queues :
      (path : FilePath) (recursive : Bool) (s : S)
      → v.IsSound s
      → v.size s ≤ max_size
      → let res = stage_files store fsmgr max_size db path recursive s in
        (v.size res.1 ≤ max_size)
        × (((e : Error) × (res.0 ≡ err e))
            ⊎ ((n : ℕ) × (res.0 ≡ ok n)
                × v.IsSound res.1
                × (length (v.queue res.1) ≡ length (v.queue s) + n)))
  unfolding stage_files
  stage_files-queues path recursive s sound fits =
      go (stage_kind store fsmgr max_size db path recursive path.is_dir s)
        (stage_kind-Counted path recursive path.is_dir s sound fits)
    where
      go :
          (res : Result ℕ × S)
          → Counted s res
          → (v.size res.1 ≤ max_size)
            × (((e : Error) × (res.0 ≡ err e))
                ⊎ ((n : ℕ) × (res.0 ≡ ok n)
                    × v.IsSound res.1
                    × (length (v.queue res.1) ≡ length (v.queue s) + n)))
      go (err e, t) h = (h, inl (e, refl))
      go (ok n, t) h = (h.0, inr (n, refl, h.1, h.2))
