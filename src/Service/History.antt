-- ===== src/Service/History.antt =====
-- internal/bt/log.go and internal/bt/history.go
pub mod Newest
use bt_go.Prelude.{
  ℕ, zero, suc, length, Bool, true, false, Option, none, some, List, [], ◌∷◌, ◌++◌, map, Text,
  text_eq, Result, ok, err, is_a_directory, not_in_tracked_directory, no_backup_history,
  if◌then◌else◌,
}
use bt_go.Models.{Time, Directory, File, FileSnapshot, BackupOperation}
use bt_go.Filesystem.{FilePath}
use bt_go.FilePaths.{rel}
use bt_go.Database.Sqlite.{
  Sqlite, search_directory_for_path, find_file_by_path, find_file_snapshots_for_file,
  list_backup_operations,
}

pub record FileHistoryEntry : Type 0 where
  pub content_checksum : Text
  pub backed_up_at : Time
  pub size : ℕ
  pub modified_at : Time
  pub is_current : Bool

abbrev pub is_current_id : Option Text → Text → Bool
is_current_id none id = false
is_current_id (some current) id = text_eq current id

abbrev pub entry : File → FileSnapshot → FileHistoryEntry
entry file snap = record {
  content_checksum = snap.content_id;
  backed_up_at = snap.created_at;
  size = snap.size;
  modified_at = snap.modified_at;
  is_current = is_current_id file.current_snapshot_id snap.id;
}

-- entries[i], entries[j] = entries[j], entries[i] from both ends inwards.
abbrev pub last_and_rest : {A : Type 0} → A → List A → List A × A
last_and_rest x [] = ([], x)
last_and_rest x (y ∷ ys) = let (front, last) = last_and_rest y ys in (x ∷ front, last)

-- The loop that reverses a slice, with fuel for its rounds: the ends change places, and what is
-- between them is done next.
unfoldable pub swap_ends : {A : Type 0} → ℕ → List A → List A
swap_ends zero xs = xs
swap_ends (suc n) [] = []
swap_ends (suc n) (x ∷ []) = x ∷ []
swap_ends (suc n) (x ∷ y ∷ ys) =
    let (front, last) = last_and_rest y ys in last ∷ (swap_ends n front ++ x ∷ [])

module _ (db : Sqlite) where
  unfoldable pub history_of : File → Result (List FileHistoryEntry)
  unfolding swap_ends
  history_of file = elim (find_file_snapshots_for_file file db) [
    | err e ↦ err e
    | ok snapshots ↦ ok (swap_ends (length snapshots) (map (entry file) snapshots))
  ]

  unfoldable pub history_in : Directory → Text → Result (List FileHistoryEntry)
  unfolding history_of
  history_in directory path = elim (rel directory.path path) [
    | err e ↦ err e
    | ok relative_path ↦ elim (find_file_by_path directory relative_path db) [
      | err e ↦ err e
      | ok none ↦ err no_backup_history
      | ok (some file) ↦ history_of file
    ]
  ]

  unfoldable pub get_file_history : FilePath → Result (List FileHistoryEntry)
  unfolding history_in
  get_file_history path = elim path.is_dir [
    | true ↦ err is_a_directory
    | false ↦ elim (search_directory_for_path path.abs_path db) [
      | err e ↦ err e
      | ok none ↦ err not_in_tracked_directory
      | ok (some directory) ↦ history_in directory path.abs_path
    ]
  ]

unfoldable pub get_history : ℕ → Sqlite → Result (List BackupOperation)
get_history limit db = list_backup_operations limit db
