-- ===== src/Database/Consolidation.antt =====
-- CreateDirectory of internal/database/sqlite.go: a new directory takes over the files of the
-- tracked directories below it.
pub mod Files
pub mod Outcome
pub mod Rows
pub mod Placed
use bt_go.Prelude.{
  ℕ, ◌≡◌, Bool, true, false, Option, none, some, List, [], ◌∷◌, ◌++◌, Text, codes, Result, ok, err,
  Act, lift, reads, pure, continue, ◌>>=◌, ◌>>◌, if◌then◌else◌,
}
use bt_go.Models.{Time, Directory, File}
use bt_go.FilePaths.{rel, join}
use bt_go.Database.Queries.{
  get_directories_by_path_prefix, insert_directory, get_files_by_directory_id,
  update_file_directory_and_name, delete_directory_by_id,
}
use bt_go.Database.Sqlite.{
  Sources, Sqlite, query, exec, select_rows, next_id, next_time, transaction,
}

unfoldable pub move_files : Directory → Text → List File → Act Sqlite (Unit {0})
move_files new_dir rel_path [] = pure tt
move_files new_dir rel_path (file ∷ files) = do
  query (update_file_directory_and_name new_dir.id (join rel_path file.name) file.id)
  move_files new_dir rel_path files

unfoldable pub move_child : Text → Directory → Directory → Act Sqlite (Unit {0})
unfolding move_files
move_child path new_dir child_dir = do
  files ← select_rows (get_files_by_directory_id child_dir.id)
  rel_path ← lift (rel path child_dir.path)
  move_files new_dir rel_path files
  exec (delete_directory_by_id child_dir.id)

unfoldable pub move_children : Text → Directory → List Directory → Act Sqlite (Unit {0})
unfolding move_child
move_children path new_dir [] = pure tt
move_children path new_dir (child_dir ∷ child_dirs) = do
  move_child path new_dir child_dir
  move_children path new_dir child_dirs

module _ (env : Sources) where
  unfoldable pub create_body : Text → Bool → Act Sqlite Directory
  unfolding move_children
  create_body path encrypted = do
    child_dirs ← select_rows (get_directories_by_path_prefix (path ++ codes "/%"))
    id ← next_id env
    now ← next_time env
    new_dir ← query (
        insert_directory (record {
          id = id;
          path = path;
          created_at = now;
          encrypted = if encrypted then 1 else 0;
        }))
    move_children path new_dir child_dirs
    pure new_dir

  unfoldable pub create_directory : Text → Bool → Act Sqlite Directory
  unfolding create_body
  create_directory path encrypted = transaction (create_body path encrypted)
