-- ===== src/Service/Status.antt =====
-- internal/bt/status.go
pub mod OneFile
use bt_go.Prelude.{
  ℕ, zero, suc, ◌+◌, Bool, true, false, not, ◌&&◌, ◌||◌, Option, none, some, List, [], ◌∷◌, ◌++◌,
  Text, text_eq, find_first, any, length, ltb, Result, ok, err, not_a_directory, not_tracked, ◌==◌,
  if◌then◌else◌,
}
use bt_go.Models.{Time, equal, Directory, File, FileSnapshot}
use bt_go.Filesystem.{FileInfo, FilePath, FilesystemManager}
use bt_go.FilePaths.{rel, dir, dot}
use bt_go.Staging.Store.{StagingStore}
use bt_go.Database.Sqlite.{
  Sqlite, find_file_by_path, find_file_snapshots_for_file, find_files_by_directory,
}
use bt_go.Service.Intake.{tracking_directory}

pub record FileStatus : Type 0 where
  pub relative_path : Text
  pub is_backed_up : Bool
  pub is_staged : Bool
  pub is_modified_since : Bool

abbrev pub is_modified : FileInfo → FileSnapshot → Bool
is_modified info snapshot =
    not (info.size == snapshot.size) || not (equal info.mod_time snapshot.modified_at)

-- A current snapshot that is not found counts as modified.
abbrev pub modified_since : FileInfo → Option FileSnapshot → Bool
modified_since info none = true
modified_since info (some snapshot) = is_modified info snapshot

-- The text of a sql.NullString that is valid.
abbrev pub current_id : Option File → Option Text
current_id none = none
current_id (some file) = file.current_snapshot_id

abbrev pub or_empty : Option File → Sqlite → Result (List FileSnapshot)
or_empty none db = ok []
or_empty (some file) db = find_file_snapshots_for_file file db

module _ {S : Type 0} (store : StagingStore S) (db : Sqlite) (staging : S) where
  -- A file that was backed up, by its database row.
  unfoldable pub backed_up_status : Text → Bool → Option File → Text → FileInfo → Result FileStatus
  backed_up_status relative_path staged file current info = elim (or_empty file db) [
    | err e ↦ err e
    | ok snapshots ↦ ok (record {
      relative_path = relative_path;
      is_backed_up = true;
      is_staged = staged;
      is_modified_since = modified_since info (find_first (λ s. text_eq s.id current) snapshots);
    })
  ]

  unfoldable pub get_file_status : Directory → Text → FilePath → Result FileStatus
  unfolding backed_up_status
  get_file_status directory relative_path file_path =
      elim (store.contains directory.id relative_path staging) [
        | err e ↦ err e
        | ok staged ↦ elim (find_file_by_path directory relative_path db) [
          | err e ↦ err e
          | ok file ↦ elim (current_id file) [
            | none ↦ ok (record {
              relative_path = relative_path;
              is_backed_up = false;
              is_staged = staged;
              is_modified_since = false;
            })
            | some current ↦ backed_up_status relative_path staged file current file_path.info
          ]
        ]
      ]

  -- The loop over the files on disk: the relative paths seen, and the statuses.
  unfoldable pub disk_statuses : Directory → List FilePath → Result (List FileStatus)
  unfolding get_file_status
  disk_statuses directory [] = ok []
  disk_statuses directory (f ∷ files) =
      let rest = disk_statuses directory files in
      elim (rel directory.path f.abs_path) [
        | err e ↦ err e
        | ok relative_path ↦ elim (get_file_status directory relative_path f) [
          | err e ↦ err e
          | ok status ↦ elim rest [ err e ↦ err e | ok statuses ↦ ok (status ∷ statuses) ]
        ]
      ]

-- name[:len(prefix)] == prefix, and name is longer.
abbrev pub is_below : Text → Text → Bool
is_below [] [] = false
is_below [] (c ∷ cs) = true
is_below (p ∷ ps) [] = false
is_below (p ∷ ps) (c ∷ cs) = p == c && is_below ps cs

-- name[len(prefix):]
abbrev pub drop_prefix : Text → Text → Text
drop_prefix [] name = name
drop_prefix (p ∷ ps) [] = []
drop_prefix (p ∷ ps) (c ∷ cs) = drop_prefix ps cs

-- The filters on the subtree and on the depth.
unfoldable pub in_query : Text → Bool → Text → Bool
unfolding dir
in_query query_prefix recursive name =
    if not (text_eq query_prefix []) && not (is_below query_prefix name)
    then false
    else recursive || text_eq (dir (drop_prefix query_prefix name)) dot

abbrev pub has_current : File → Bool
has_current file = elim file.current_snapshot_id [ none ↦ false | some _ ↦ true ]

abbrev pub missing_status : File → FileStatus
missing_status file = record {
  relative_path = file.name;
  is_backed_up = true;
  is_staged = false;
  is_modified_since = true;
}

-- The loop over the database's files. `seen` holds the paths found on disk.
unfoldable pub missing_statuses : Text → Bool → List FileStatus → List File → List FileStatus
unfolding in_query
missing_statuses query_prefix recursive on_disk [] = []
missing_statuses query_prefix recursive on_disk (f ∷ files) =
    let rest = missing_statuses query_prefix recursive on_disk files in
    if not (in_query query_prefix recursive f.name)
    then rest
    else if any (λ s. text_eq s.relative_path f.name) on_disk
    then rest
    else if has_current f
    then missing_status f ∷ rest
    else rest

abbrev pub query_prefix : Directory → Text → Result Text
query_prefix directory path =
    if text_eq path directory.path
    then ok []
    else (elim (rel directory.path path) [ err e ↦ err e | ok r ↦ ok (r ++ (b'/' ∷ [])) ])

module _ {S : Type 0} (store : StagingStore S) (fsmgr : FilesystemManager) (max_size : ℕ)
    (db : Sqlite) (staging : S) where
  -- The statuses of a tracked directory.
  unfoldable pub status_in : Directory → FilePath → Bool → Result (List FileStatus)
  unfolding disk_statuses missing_statuses
  status_in directory path recursive = elim (fsmgr.find_files path recursive) [
    | err e ↦ err e
    | ok files ↦ elim (disk_statuses store db staging directory files) [
      | err e ↦ err e
      | ok on_disk ↦ elim (find_files_by_directory directory db) [
        | err e ↦ err e
        | ok db_files ↦ elim (query_prefix directory path.abs_path) [
          | err e ↦ err e
          | ok prefix ↦ ok (on_disk ++ missing_statuses prefix recursive on_disk db_files)
        ]
      ]
    ]
  ]

  unfoldable pub get_status : FilePath → Bool → Result (List FileStatus)
  unfolding status_in
  get_status path recursive = elim path.is_dir [
    | false ↦ err not_a_directory
    | true ↦ elim (tracking_directory store fsmgr max_size db path.abs_path) [
      | err e ↦ err e
      | ok none ↦ err not_tracked
      | ok (some directory) ↦ status_in directory path recursive
    ]
  ]
