-- ===== src/Database/Sqlite.antt =====
-- internal/database/sqlite.go
use bt_go.Prelude.{
  ℕ, suc, Bool, false, ◌&&◌, Option, none, some, List, [], ◌∷◌, ◌++◌, Text, codes, text_eq, Result,
  ok, err, not_found, Act, reads, pure, ◌>>=◌, ◌>>◌, length, ltb, ◌==◌, if◌then◌else◌,
}
use bt_go.Models.{Time, Directory, File, FileSnapshot, Content, BackupOperation}
use bt_go.Database.Tables.{Tables}
use bt_go.Database.Queries.{
  get_directory_by_path, get_directory_by_id, get_directories_by_path_prefix,
  delete_directory_by_id, get_files_by_directory_id, get_file_by_directory_and_name, insert_file,
  update_file_current_snapshot, get_file_snapshots_by_file_id,
  get_file_snapshot_by_file_and_content, insert_file_snapshot, get_content_by_id, insert_content,
  insert_backup_operation, update_backup_operation_finished, get_max_backup_operation_id,
  get_backup_operations,
}

-- `nowFn` and `newIDFn`: what the n-th call of each gives. uuid.New and time.Now are parameters.
pub record Sources : Type 0 where
  pub new_id : ℕ → Text
  pub now : ℕ → Time

-- The tables, and how often the sources have been called. A rollback does not undo the calls.
pub record Sqlite : Type 0 where
  pub tables : Tables
  pub ids : ℕ
  pub clock : ℕ

-- One statement.
abbrev pub query : {A : Type 0} → Act Tables A → Act Sqlite A
query q db = ((q db.tables).0, record db { tables = (q db.tables).1 })

abbrev pub exec : (Tables → Tables) → Act Sqlite (Unit {0})
exec f db = (ok tt, record db { tables = f db.tables })

abbrev pub select_rows : {A : Type 0} → (Tables → A) → Act Sqlite A
select_rows f db = (ok (f db.tables), db)

-- `errors.Is(err, sql.ErrNoRows)` makes a missing row a nil.
abbrev pub optional : {A : Type 0} → Result A → Result (Option A)
optional (ok a) = ok (some a)
optional (err not_found) = ok none
optional (err e) = err e

-- Rollback, if the body failed: the tables are those of before.
abbrev pub settle : {A : Type 0} → Tables → Result A × Sqlite → Result A × Sqlite
settle before (ok a, after) = (ok a, after)
settle before (err e, after) = (err e, record after { tables = before })

-- BeginTx, a deferred Rollback, and Commit at the end of the body.
unfoldable pub transaction : {A : Type 0} → Act Sqlite A → Act Sqlite A
transaction body db = settle db.tables (body db)

-- Lookups

unfoldable pub find_directory_by_id : Text → Sqlite → Result (Option Directory)
find_directory_by_id id db = optional (get_directory_by_id id db.tables)

unfoldable pub find_directory_by_path : Text → Sqlite → Result (Option Directory)
find_directory_by_path path db = optional (get_directory_by_path path db.tables)

-- path[:len(d)] == d && path[len(d)] == '/', and path is longer than d.
abbrev pub is_inside : Text → Text → Bool
is_inside [] d = false
is_inside (c ∷ cs) [] = c == b'/'
is_inside (c ∷ cs) (x ∷ xs) = c == x && is_inside cs xs

-- The loop's variable `bestMatch`: the shortest directory so far.
abbrev pub better : Option Directory → Directory → Option Directory
better none d = some d
better (some best) d = if ltb (length d.path) (length best.path) then some d else some best

unfoldable pub search_loop : Text → Option Directory → List Directory → Option Directory
search_loop path best [] = best
search_loop path best (d ∷ ds) =
    search_loop path
      (if text_eq path d.path
        then better best d
        else if is_inside path d.path
        then better best d
        else best)
      ds

unfoldable pub search_directory_for_path : Text → Sqlite → Result (Option Directory)
unfolding search_loop
search_directory_for_path path db =
    ok (search_loop path none (get_directories_by_path_prefix (codes "/%") db.tables))

unfoldable pub find_directories_by_path_prefix : Text → Sqlite → Result (List Directory)
find_directories_by_path_prefix prefix db =
    ok (get_directories_by_path_prefix (prefix ++ codes "/%") db.tables)

unfoldable pub find_files_by_directory : Directory → Sqlite → Result (List File)
find_files_by_directory directory db = ok (get_files_by_directory_id directory.id db.tables)

unfoldable pub find_file_by_path : Directory → Text → Sqlite → Result (Option File)
find_file_by_path directory relative_path db =
    optional (get_file_by_directory_and_name directory.id relative_path db.tables)

unfoldable pub find_file_snapshots_for_file : File → Sqlite → Result (List FileSnapshot)
find_file_snapshots_for_file file db = ok (get_file_snapshots_by_file_id file.id db.tables)

unfoldable pub find_file_snapshot_by_checksum : File → Text → Sqlite → Result (Option FileSnapshot)
find_file_snapshot_by_checksum file checksum db =
    optional (get_file_snapshot_by_file_and_content file.id checksum db.tables)

unfoldable pub find_content_by_checksum : Text → Sqlite → Result (Option Content)
find_content_by_checksum checksum db = optional (get_content_by_id checksum db.tables)

unfoldable pub list_backup_operations : ℕ → Sqlite → Result (List BackupOperation)
list_backup_operations n db = ok (get_backup_operations n db.tables)

unfoldable pub max_backup_operation_id : Sqlite → Result ℕ
max_backup_operation_id db = ok (get_max_backup_operation_id db.tables)

-- Writes that are one statement

unfoldable pub delete_directory : Directory → Act Sqlite (Unit {0})
delete_directory directory = exec (delete_directory_by_id directory.id)

unfoldable pub create_file_snapshot : FileSnapshot → Act Sqlite (Unit {0})
create_file_snapshot snapshot = do query (insert_file_snapshot snapshot); pure tt

unfoldable pub set_file_current_snapshot : File → Text → Act Sqlite (Unit {0})
set_file_current_snapshot file snapshot_id =
    query (update_file_current_snapshot (some snapshot_id) file.id)

module _ (env : Sources) where
  abbrev pub next_id : Act Sqlite Text
  next_id db = (ok (env.new_id db.ids), record db { ids = suc db.ids })

  abbrev pub next_time : Act Sqlite Time
  next_time db = (ok (env.now db.clock), record db { clock = suc db.clock })

  unfoldable pub find_or_create_file : Directory → Text → Act Sqlite File
  find_or_create_file directory relative_path = do
    found ← reads (find_file_by_path directory relative_path)
    elim found [
      | some file ↦ pure file
      | none ↦ do
        id ← next_id
        query (
            insert_file (record {
              id = id;
              name = relative_path;
              directory_id = directory.id;
              current_snapshot_id = none;
              deleted = false;
            }))
    ]

  unfoldable pub create_content : Text → Text → Act Sqlite Content
  create_content checksum encrypted_content_id = do
    now ← next_time
    query (
        insert_content (record {
          id = checksum;
          created_at = now;
          encrypted_content_id =
              if text_eq encrypted_content_id [] then none else some encrypted_content_id;
        }))

  unfoldable pub create_backup_operation : Text → Text → Act Sqlite BackupOperation
  create_backup_operation operation parameters = do
    now ← next_time
    query (insert_backup_operation now operation parameters)

  unfoldable pub finish_backup_operation : ℕ → Text → Act Sqlite (Unit {0})
  finish_backup_operation id status = do
    now ← next_time
    exec (update_backup_operation_finished (some now) status id)
