-- ===== src/Database/Queries.antt =====
-- The statements of internal/database/sqlc/queries.sql, through queries.sql.go: what each does to
-- the tables, under the constraints of the schema. A row that is not there is `not_found`
-- (sql.ErrNoRows). The engine itself, and its I/O errors, are not modelled.
use bt_go.Prelude.{
  ℕ, zero, suc, ◌+◌, Bool, true, not, ◌&&◌, ◌||◌, Option, none, some, List, [], ◌∷◌, ◌++◌, map,
  Text, codes, text_eq, Result, ok, err, not_found, unique_violation, foreign_key_violation, Act,
  find_first, any, select, ltb, ◌==◌, if◌then◌else◌,
}
use bt_go.Models.{Time, wall, Directory, File, FileSnapshot, Content, BackupOperation}
use bt_go.Database.Like.{like, text_le}
use bt_go.Database.Tables.{Tables, has_directory, has_file, has_snapshot, has_content}

abbrev pub one_row {ℓ} : {A : Type ℓ} → Option A → Result A
one_row none = err not_found
one_row (some a) = ok a

-- Directories

unfoldable pub get_directory_by_path : Text → Tables → Result Directory
get_directory_by_path path db = one_row (find_first (λ d. text_eq d.path path) db.directories)

unfoldable pub get_directory_by_id : Text → Tables → Result Directory
get_directory_by_id id db = one_row (find_first (λ d. text_eq d.id id) db.directories)

unfoldable pub insert_by_path : Directory → List Directory → List Directory
insert_by_path d [] = d ∷ []
insert_by_path d (e ∷ es) = if text_le d.path e.path then d ∷ e ∷ es else e ∷ insert_by_path d es

unfoldable pub order_by_path : List Directory → List Directory
unfolding insert_by_path
order_by_path [] = []
order_by_path (d ∷ ds) = insert_by_path d (order_by_path ds)

unfoldable pub get_directories_by_path_prefix : Text → Tables → List Directory
unfolding order_by_path like text_le
get_directories_by_path_prefix pattern db =
    order_by_path (select (λ d. like pattern d.path) db.directories)

unfoldable pub insert_directory : Directory → Act Tables Directory
insert_directory d db =
    if has_directory d.id db || any (λ e. text_eq e.path d.path) db.directories
    then (err unique_violation, db)
    else (ok d, record db { directories = db.directories ++ d ∷ [] })

-- ON DELETE SET NULL of a file's current snapshot.
abbrev pub clear_snapshot : (Text → Bool) → File → File
clear_snapshot gone f = record f {
  current_snapshot_id = elim f.current_snapshot_id [
    | none ↦ none
    | some s ↦ if gone s then none else some s
  ];
}

-- ON DELETE CASCADE: the directory's files go, and the snapshots of those.
unfoldable pub delete_directory_by_id : Text → Tables → Tables
delete_directory_by_id id db =
    let lost =
      λ (file_id : Text). any (λ f. text_eq f.id file_id && text_eq f.directory_id id) db.files in
    let gone = λ (s : Text). any (λ r. text_eq r.id s && lost r.file_id) db.file_snapshots in
    record db {
      directories = select (λ d. not (text_eq d.id id)) db.directories;
      files = map (clear_snapshot gone) (select (λ f. not (text_eq f.directory_id id)) db.files);
      file_snapshots = select (λ r. not (lost r.file_id)) db.file_snapshots;
    }

-- Files

unfoldable pub get_file_by_id : Text → Tables → Result File
get_file_by_id id db = one_row (find_first (λ f. text_eq f.id id) db.files)

unfoldable pub get_files_by_directory_id : Text → Tables → List File
get_files_by_directory_id directory_id db =
    select (λ f. text_eq f.directory_id directory_id) db.files

-- The test of the UNIQUE constraint on files, and of the query by directory and name.
abbrev pub names : Text → Text → File → Bool
names directory_id name f = text_eq f.directory_id directory_id && text_eq f.name name

unfoldable pub get_file_by_directory_and_name : Text → Text → Tables → Result File
get_file_by_directory_and_name directory_id name db =
    one_row (find_first (names directory_id name) db.files)

abbrev pub update_file : Text → (File → File) → List File → List File
update_file id change = map (λ f. if text_eq f.id id then change f else f)

unfoldable pub update_file_directory_and_name : Text → Text → Text → Act Tables (Unit {0})
update_file_directory_and_name directory_id name id db =
    if not (has_file id db)
    then (ok tt, db)
    else if any (λ f. names directory_id name f && not (text_eq f.id id)) db.files
    then (err unique_violation, db)
    else if has_directory directory_id db
    then (
      ok tt,
      record db {
        files =
            update_file id (λ f. record f { directory_id = directory_id; name = name }) db.files;
      },
    )
    else (err foreign_key_violation, db)

abbrev pub optional_snapshot : Option Text → Tables → Bool
optional_snapshot none db = true
optional_snapshot (some s) db = has_snapshot s db

unfoldable pub insert_file : File → Act Tables File
insert_file f db =
    if has_file f.id db || any (names f.directory_id f.name) db.files
    then (err unique_violation, db)
    else if has_directory f.directory_id db && optional_snapshot f.current_snapshot_id db
    then (ok f, record db { files = db.files ++ f ∷ [] })
    else (err foreign_key_violation, db)

unfoldable pub update_file_current_snapshot : Option Text → Text → Act Tables (Unit {0})
update_file_current_snapshot snapshot_id id db =
    if not (has_file id db)
    then (ok tt, db)
    else if optional_snapshot snapshot_id db
    then (
      ok tt,
      record db {
        files = update_file id (λ f. record f { current_snapshot_id = snapshot_id }) db.files;
      },
    )
    else (err foreign_key_violation, db)

-- Snapshots

unfoldable pub get_file_snapshot_by_id : Text → Tables → Result FileSnapshot
get_file_snapshot_by_id id db = one_row (find_first (λ s. text_eq s.id id) db.file_snapshots)

unfoldable pub insert_by_time : FileSnapshot → List FileSnapshot → List FileSnapshot
insert_by_time s [] = s ∷ []
insert_by_time s (r ∷ rs) =
    if ltb (wall r.created_at) (wall s.created_at) then r ∷ insert_by_time s rs else s ∷ r ∷ rs

-- ORDER BY created_at. The column has the text that the driver writes, which begins with what the
-- clocks showed and ends with the offset; rows of which the clocks showed the same keep their order.
unfoldable pub order_by_time : List FileSnapshot → List FileSnapshot
unfolding insert_by_time
order_by_time [] = []
order_by_time (s ∷ ss) = insert_by_time s (order_by_time ss)

unfoldable pub get_file_snapshots_by_file_id : Text → Tables → List FileSnapshot
unfolding order_by_time
get_file_snapshots_by_file_id file_id db =
    order_by_time (select (λ s. text_eq s.file_id file_id) db.file_snapshots)

unfoldable pub get_file_snapshot_by_file_and_content : Text → Text → Tables → Result FileSnapshot
get_file_snapshot_by_file_and_content file_id content_id db = one_row (
    find_first (λ s. text_eq s.file_id file_id && text_eq s.content_id content_id)
      db.file_snapshots)

-- The row's times are kept as they were given. A time that is read back from the driver's text has
-- the same instant and the same offset.
unfoldable pub insert_file_snapshot : FileSnapshot → Act Tables FileSnapshot
insert_file_snapshot s db =
    if has_snapshot s.id db
    then (err unique_violation, db)
    else if has_file s.file_id db && has_content s.content_id db
    then (ok s, record db { file_snapshots = db.file_snapshots ++ s ∷ [] })
    else (err foreign_key_violation, db)

-- Contents

unfoldable pub get_content_by_id : Text → Tables → Result Content
get_content_by_id id db = one_row (find_first (λ c. text_eq c.id id) db.contents)

-- The constraint holds at the end of the statement: a row may refer to itself.
abbrev pub optional_content : Content → Option Text → Tables → Bool
optional_content c none db = true
optional_content c (some e) db = text_eq c.id e || has_content e db

unfoldable pub insert_content : Content → Act Tables Content
insert_content c db =
    if has_content c.id db
    then (err unique_violation, db)
    else if optional_content c c.encrypted_content_id db
    then (ok c, record db { contents = db.contents ++ c ∷ [] })
    else (err foreign_key_violation, db)

-- Backup operations

unfoldable pub insert_backup_operation : Time → Text → Text → Act Tables BackupOperation
insert_backup_operation started_at operation parameters db =
    let op : BackupOperation = record {
      id = db.sequence + 1;
      started_at = started_at;
      finished_at = none;
      operation = operation;
      parameters = parameters;
      status = codes "running";
    } in
    (
      ok op,
      record db { backup_operations = db.backup_operations ++ op ∷ []; sequence = db.sequence + 1 },
    )

unfoldable pub update_backup_operation_finished : Option Time → Text → ℕ → Tables → Tables
update_backup_operation_finished finished_at status id db = record db {
  backup_operations =
      map
        (λ op. if op.id == id then record op { finished_at = finished_at; status = status } else op)
        db.backup_operations;
}

abbrev pub largest : List BackupOperation → ℕ
largest [] = 0
largest (op ∷ ops) = let rest = largest ops in if ltb rest op.id then op.id else rest

-- COALESCE(MAX(id), 0)
unfoldable pub get_max_backup_operation_id : Tables → ℕ
get_max_backup_operation_id db = largest db.backup_operations

unfoldable pub insert_by_id_desc : BackupOperation → List BackupOperation → List BackupOperation
insert_by_id_desc op [] = op ∷ []
insert_by_id_desc op (o ∷ os) = if ltb op.id o.id then o ∷ insert_by_id_desc op os else op ∷ o ∷ os

unfoldable pub order_by_id_desc : List BackupOperation → List BackupOperation
unfolding insert_by_id_desc
order_by_id_desc [] = []
order_by_id_desc (op ∷ ops) = insert_by_id_desc op (order_by_id_desc ops)

abbrev pub limit : ℕ → List BackupOperation → List BackupOperation
limit zero ops = []
limit (suc n) [] = []
limit (suc n) (op ∷ ops) = op ∷ limit n ops

unfoldable pub get_backup_operations : ℕ → Tables → List BackupOperation
unfolding order_by_id_desc
get_backup_operations n db = limit n (order_by_id_desc db.backup_operations)
