-- ===== src/Database/Recording.antt =====
-- CreateFileSnapshotAndContent of internal/database/sqlite.go.
pub mod Inserts
pub mod Effects
pub mod Outcome
use bt_go.Prelude.{
  ℕ, ◌≡◌, Bool, true, false, ◌&&◌, Option, none, some, List, [], ◌∷◌, Text, text_eq, Result, ok,
  err, Error, not_found, Act, lift, reads, pure, continue, ◌>>=◌, ◌>>◌, ◌==◌, if◌then◌else◌,
}
use bt_go.Models.{Time, NullTime, File, FileSnapshot, Content, equal, same}
use bt_go.Database.Tables.{Tables}
use bt_go.Database.Queries.{
  get_file_by_directory_and_name, insert_file, update_file_current_snapshot,
  get_file_snapshot_by_id, insert_file_snapshot, get_content_by_id, insert_content,
}
use bt_go.Database.Sqlite.{Sources, Sqlite, query, optional, next_id, next_time, transaction}

abbrev pub same_bool : Bool → Bool → Bool
same_bool true b = b
same_bool false true = false
same_bool false false = true

-- `==` on sql.NullTime compares both fields.
abbrev pub same_null_time : NullTime → NullTime → Bool
same_null_time a b = same a.time b.time && same_bool a.valid b.valid

unfoldable pub snapshots_equal : FileSnapshot → FileSnapshot → Bool
snapshots_equal a b =
    text_eq a.content_id b.content_id
    && a.size == b.size
    && a.permissions == b.permissions
    && a.uid == b.uid
    && a.gid == b.gid
    && equal a.modified_at b.modified_at
    && equal a.changed_at b.changed_at
    && same_null_time a.born_at b.born_at

-- Step 3: whether the current snapshot says the same. A current snapshot that is not there is an
-- error.
unfoldable pub check_current : FileSnapshot → Option Text → Tables → Result Bool
check_current snapshot none db = ok false
check_current snapshot (some id) db = elim (get_file_snapshot_by_id id db) [
  | err e ↦ err e
  | ok current ↦ ok (snapshots_equal current snapshot)
]

-- Step 4.
unfoldable pub add_snapshot : File → FileSnapshot → Act Sqlite (Unit {0})
add_snapshot file snapshot = do
  created ← query (insert_file_snapshot (record snapshot { file_id = file.id }))
  query (update_file_current_snapshot (some created.id) file.id)

module _ (env : Sources) where
  -- Step 1.
  unfoldable pub find_or_insert_file : Text → Text → Act Sqlite File
  find_or_insert_file directory_id relative_path = do
    found ←
        reads (λ db. optional (get_file_by_directory_and_name directory_id relative_path db.tables))
    elim found [
      | some file ↦ pure file
      | none ↦ do
        id ← next_id env
        query (
            insert_file (record {
              id = id;
              name = relative_path;
              directory_id = directory_id;
              current_snapshot_id = none;
              deleted = false;
            }))
    ]

  -- A content record, created where there is none of this id.
  unfoldable pub ensure_content : Text → Option Text → Act Sqlite (Unit {0})
  ensure_content id encrypted_content_id = do
    found ← reads (λ db. optional (get_content_by_id id db.tables))
    elim found [
      | some _ ↦ pure tt
      | none ↦ do
        now ← next_time env
        query (
            insert_content
              (record { id = id; created_at = now; encrypted_content_id = encrypted_content_id }))
        pure tt
    ]

  -- Step 2. The empty text stands for "not encrypted".
  unfoldable pub ensure_contents : Text → Text → Act Sqlite (Unit {0})
  unfolding ensure_content
  ensure_contents content_id [] = ensure_content content_id none
  ensure_contents content_id (c ∷ cs) = do
    ensure_content (c ∷ cs) none
    ensure_content content_id (some (c ∷ cs))

  unfoldable pub record_body : Text → Text → FileSnapshot → Text → Act Sqlite (Unit {0})
  unfolding find_or_insert_file ensure_contents
  record_body directory_id relative_path snapshot encrypted_content_id = do
    file ← find_or_insert_file directory_id relative_path
    ensure_contents snapshot.content_id encrypted_content_id
    unchanged ← reads (λ db. check_current snapshot file.current_snapshot_id db.tables)
    if unchanged then pure tt else add_snapshot file snapshot

  unfoldable pub create_file_snapshot_and_content :
      Text → Text → FileSnapshot → Text → Act Sqlite (Unit {0})
  unfolding record_body
  create_file_snapshot_and_content directory_id relative_path snapshot encrypted_content_id =
      transaction (record_body directory_id relative_path snapshot encrypted_content_id)
