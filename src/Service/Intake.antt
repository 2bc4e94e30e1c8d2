-- ===== src/Service/Intake.antt =====
-- AddDirectory, StageFiles and stageOneFile of internal/bt/service.go.
pub mod Effects
use bt_go.Prelude.{
  ℕ, ◌≡◌, Bool, true, false, Option, none, some, List, [], ◌∷◌, Text, length, Result, ok, err,
  not_a_directory, not_tracked, not_in_tracked_directory, file_ignored, Act, lift, reads, pure,
  fail, continue, ◌>>=◌, ◌>>◌,
}
use bt_go.Models.{Directory}
use bt_go.Filesystem.{FilePath, FilesystemManager}
use bt_go.FilePaths.{rel}
use bt_go.Staging.Store.{StagingStore}
use bt_go.Staging.Area.{stage}
use bt_go.Database.Sqlite.{Sources, Sqlite, find_directory_by_path, search_directory_for_path}
use bt_go.Database.Consolidation.{create_directory}

-- A directory that is tracked already is left as it is, whatever `encrypted` says.
unfoldable pub add_directory : Sources → FilePath → Bool → Act Sqlite (Unit {0})
add_directory env path encrypted = elim path.is_dir [
  | false ↦ fail not_a_directory
  | true ↦ do
    existing ← reads (find_directory_by_path path.abs_path)
    elim existing [
      | some _ ↦ pure tt
      | none ↦ do create_directory env path.abs_path encrypted; pure tt
    ]
]

module _ {S : Type 0} (store : StagingStore S) (fsmgr : FilesystemManager) (max_size : ℕ)
    (db : Sqlite) where
  unfoldable pub stage_in : Directory → FilePath → Act S (Unit {0})
  stage_in directory path = do
    ignored ← lift (fsmgr.is_ignored path directory.path)
    elim ignored [
      | true ↦ fail file_ignored
      | false ↦ do
        relative_path ← lift (rel directory.path path.abs_path)
        stage store fsmgr max_size directory relative_path path
    ]

  unfoldable pub stage_one_file : FilePath → Act S (Unit {0})
  unfolding stage_in
  stage_one_file path = do
    found ← lift (search_directory_for_path path.abs_path db)
    elim found [ none ↦ fail not_in_tracked_directory | some directory ↦ stage_in directory path ]

  unfoldable pub stage_each : List FilePath → Act S (Unit {0})
  unfolding stage_one_file
  stage_each [] = pure tt
  stage_each (file ∷ files) = do stage_one_file file; stage_each files

  -- The directory itself, or else one that it lies in.
  unfoldable pub tracking_directory : Text → Result (Option Directory)
  tracking_directory path = elim (find_directory_by_path path db) [
    | err e ↦ err e
    | ok (some directory) ↦ ok (some directory)
    | ok none ↦ search_directory_for_path path db
  ]

  unfoldable pub stage_found : List FilePath → Act S ℕ
  unfolding stage_each
  stage_found files = do stage_each files; pure (length files)

  -- StageFiles for a file and for a directory.
  unfoldable pub stage_kind : FilePath → Bool → Bool → Act S ℕ
  unfolding stage_found tracking_directory
  stage_kind path recursive false = do stage_one_file path; pure 1
  stage_kind path recursive true = do
    directory ← lift (tracking_directory path.abs_path)
    elim directory [
      | none ↦ fail not_tracked
      | some _ ↦ do files ← lift (fsmgr.find_files path recursive); stage_found files
    ]

  unfoldable pub stage_files : FilePath → Bool → Act S ℕ
  unfolding stage_kind
  stage_files path recursive = stage_kind path recursive path.is_dir
