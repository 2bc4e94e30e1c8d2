-- ===== src/Database/Keeping.antt =====
-- The record of operations, beside the writes of internal/database/sqlite.go.
use bt_go.Prelude.{
  ℕ, suc, ◌≡◌, refl, ◌∙◌, Bool, true, false, Option, none, some, List, [], ◌∷◌, ◌++◌, codes, Text,
  Result, ok, err, Act, lift, reads, pure, continue, ◌>>=◌, ◌>>◌, arith, if◌then◌else◌,
}
use bt_go.Models.{Directory, File, FileSnapshot, Content, BackupOperation}
use bt_go.FilePaths.{rel, join}
use bt_go.Database.Tables.{Tables}
use bt_go.Database.Queries.{
  insert_directory, delete_directory_by_id, update_file_directory_and_name, insert_file,
  update_file_current_snapshot, insert_file_snapshot, insert_content, get_files_by_directory_id,
  get_directories_by_path_prefix,
}
use bt_go.Database.Sqlite.{Sources, Sqlite, query, exec, settle, transaction}
use bt_go.Database.Recording.{
  add_snapshot, find_or_insert_file, ensure_content, ensure_contents, record_body,
  create_file_snapshot_and_content, check_current,
}
use bt_go.Database.Consolidation.{
  move_files, move_child, move_children, create_body, create_directory,
}

-- The rows of the operations, and the last id that was given to one.
abbrev pub log_of : Tables → List BackupOperation × ℕ
log_of db = (db.backup_operations, db.sequence)

-- An action after which the record of operations is as before.
abbrev pub KeepsLog : {A : Type 0} → Act Sqlite A → Type 0
KeepsLog m = (db : Sqlite) → log_of (m db).1.tables ≡ log_of db.tables

module _ {A B : Type 0} where
  pub KeepsLog-bind :
      (m : Act Sqlite A) (f : A → Act Sqlite B)
      → KeepsLog m
      → ((a : A) → KeepsLog (f a))
      → KeepsLog (m >>= f)
  KeepsLog-bind m f h k db = go (m db).0 (m db).1 ∙ h db
    where
      go :
          (r : Result A) (after : Sqlite)
          → log_of (continue r f after).1.tables ≡ log_of after.tables
      go (ok a) after = k a after
      go (err e) after = refl

module _ {A : Type 0} where
  KeepsLog-transaction : (m : Act Sqlite A) → KeepsLog m → KeepsLog (transaction m)
  unfolding transaction
  KeepsLog-transaction m h db = go (m db) (h db)
    where
      go :
          (res : Result A × Sqlite)
          → log_of res.1.tables ≡ log_of db.tables
          → log_of (settle db.tables res).1.tables ≡ log_of db.tables
      go (ok a, after) e = e
      go (err e', after) e = refl

insert_file-log : (x : File) (db : Tables) → log_of (insert_file x db).1 ≡ log_of db
unfolding insert_file
insert_file-log x db = ground arith

insert_content-log : (x : Content) (db : Tables) → log_of (insert_content x db).1 ≡ log_of db
unfolding insert_content
insert_content-log x db = ground arith

insert_file_snapshot-log :
    (x : FileSnapshot) (db : Tables) → log_of (insert_file_snapshot x db).1 ≡ log_of db
unfolding insert_file_snapshot
insert_file_snapshot-log x db = ground arith

update_file_current_snapshot-log :
    (s : Option Text) (id : Text) (db : Tables)
    → log_of (update_file_current_snapshot s id db).1 ≡ log_of db
unfolding update_file_current_snapshot
update_file_current_snapshot-log s id db = ground arith

update_file_directory_and_name-log :
    (d n id : Text) (db : Tables) → log_of (update_file_directory_and_name d n id db).1 ≡ log_of db
unfolding update_file_directory_and_name
update_file_directory_and_name-log d n id db = ground arith

insert_directory-log : (x : Directory) (db : Tables) → log_of (insert_directory x db).1 ≡ log_of db
unfolding insert_directory
insert_directory-log x db = ground arith

module _ (env : Sources) where
  ensure_content-KeepsLog : (id : Text) (link : Option Text) → KeepsLog (ensure_content env id link)
  unfolding ensure_content
  ensure_content-KeepsLog id link db = ground (
    arith,
    insert_content-log
        (record { id = id; created_at = env.now db.clock; encrypted_content_id = link }) db.tables,
  )

  ensure_contents-KeepsLog : (id e : Text) → KeepsLog (ensure_contents env id e)
  unfolding ensure_contents
  ensure_contents-KeepsLog id [] = ensure_content-KeepsLog id none
  ensure_contents-KeepsLog id (c ∷ cs) =
      KeepsLog-bind _ _ (ensure_content-KeepsLog (c ∷ cs) none)
        (λ _. ensure_content-KeepsLog id (some (c ∷ cs)))

  find_or_insert_file-KeepsLog : (d r : Text) → KeepsLog (find_or_insert_file env d r)
  unfolding find_or_insert_file
  find_or_insert_file-KeepsLog d r db = ground (
    arith,
    insert_file-log
        (record {
          id = env.new_id db.ids;
          name = r;
          directory_id = d;
          current_snapshot_id = none;
          deleted = false;
        })
        db.tables,
  )

  add_snapshot-KeepsLog : (file : File) (s : FileSnapshot) → KeepsLog (add_snapshot file s)
  unfolding add_snapshot
  add_snapshot-KeepsLog file s =
      KeepsLog-bind (query (insert_file_snapshot (record s { file_id = file.id })))
        (λ created. query (update_file_current_snapshot (some created.id) file.id))
        (λ db. insert_file_snapshot-log _ db.tables)
        (λ created db. update_file_current_snapshot-log _ _ db.tables)

  last_step-KeepsLog :
      (file : File) (s : FileSnapshot) (unchanged : Bool)
      → KeepsLog (if unchanged then pure tt else add_snapshot file s)
  last_step-KeepsLog file s true = λ db. refl
  last_step-KeepsLog file s false = add_snapshot-KeepsLog file s

  pub create_file_snapshot_and_content-KeepsLog :
      (d r : Text) (s : FileSnapshot) (e : Text)
      → KeepsLog (create_file_snapshot_and_content env d r s e)
  unfolding create_file_snapshot_and_content record_body
  create_file_snapshot_and_content-KeepsLog d r s e =
      KeepsLog-transaction (record_body env d r s e) (
        KeepsLog-bind (find_or_insert_file env d r) _ (find_or_insert_file-KeepsLog d r) (λ file.
          KeepsLog-bind (ensure_contents env s.content_id e) _
            (ensure_contents-KeepsLog s.content_id e)
            (λ _.
              KeepsLog-bind (reads (λ db. check_current s file.current_snapshot_id db.tables)) _
                (λ db. refl) (last_step-KeepsLog file s))))

move_files-KeepsLog :
    (d : Directory) (r : Text) (files : List File) → KeepsLog (move_files d r files)
unfolding move_files
move_files-KeepsLog d r [] = λ db. refl
move_files-KeepsLog d r (file ∷ files) =
    KeepsLog-bind (query (update_file_directory_and_name d.id (join r file.name) file.id)) _
      (λ db. update_file_directory_and_name-log _ _ _ db.tables)
      (λ _. move_files-KeepsLog d r files)

move_child-KeepsLog : (path : Text) (d child : Directory) → KeepsLog (move_child path d child)
unfolding move_child delete_directory_by_id
move_child-KeepsLog path d child = λ db.
    KeepsLog-bind (lift (rel path child.path)) (rest (get_files_by_directory_id child.id db.tables))
      (λ db'. refl) (λ r. moved r (get_files_by_directory_id child.id db.tables)) db
  where
    rest : List File → Text → Act Sqlite (Unit {0})
    rest files r = move_files d r files >> exec (delete_directory_by_id child.id)

    moved : (r : Text) (files : List File) → KeepsLog (rest files r)
    moved r files =
        KeepsLog-bind (move_files d r files) (λ _. exec (delete_directory_by_id child.id))
          (move_files-KeepsLog d r files) (λ _ db. refl)

move_children-KeepsLog :
    (path : Text) (d : Directory) (children : List Directory)
    → KeepsLog (move_children path d children)
unfolding move_children
move_children-KeepsLog path d [] = λ db. refl
move_children-KeepsLog path d (child ∷ children) =
    KeepsLog-bind (move_child path d child) _ (move_child-KeepsLog path d child)
      (λ _. move_children-KeepsLog path d children)

module _ (env : Sources) (path : Text) (encrypted : Bool) where
  pub create_directory-KeepsLog : KeepsLog (create_directory env path encrypted)
  unfolding create_directory create_body
  create_directory-KeepsLog = KeepsLog-transaction (create_body env path encrypted) (λ db.
      KeepsLog-bind (query (insert_directory (row db)))
        (after (get_directories_by_path_prefix (path ++ codes "/%") db.tables))
        (λ db'. insert_directory-log (row db) db'.tables)
        (λ d. moved d (get_directories_by_path_prefix (path ++ codes "/%") db.tables))
        (record db { ids = suc db.ids; clock = suc db.clock }))
    where
      row : Sqlite → Directory
      row db = record {
        id = env.new_id db.ids;
        path = path;
        created_at = env.now db.clock;
        encrypted = if encrypted then 1 else 0;
      }

      after : List Directory → Directory → Act Sqlite Directory
      after children d = move_children path d children >> pure d

      moved : (d : Directory) (children : List Directory) → KeepsLog (after children d)
      moved d children =
          KeepsLog-bind (move_children path d children) (λ _. pure d)
            (move_children-KeepsLog path d children) (λ _ db. refl)
