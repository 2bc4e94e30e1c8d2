-- ===== src/Service/Restore.antt =====
-- internal/bt/restore.go
pub mod OneFile
pub mod Writing
pub mod Roundtrip
use Prim.Native.Nat.{◌-◌}
use bt_go.Prelude.{
  ℕ, zero, suc, ◌+◌, ◌≡◌, Bool, true, false, ◌||◌, Option, none, some, List, [], ◌∷◌, ◌++◌, Text,
  Bytes, codes, text_eq, Assoc, lookup, insert, delete, length, Result, Error, ok, err, Act, lift,
  reads, pure, fail, tidy, continue, ◌>>=◌, ◌>>◌, find_first, ◌==◌, if◌then◌else◌,
  not_in_tracked_directory, no_backup_history, no_snapshot_with_checksum, no_current_snapshot,
  snapshot_not_in_database, output_exists, content_record_missing, no_passphrase,
  checksum_with_directory,
}
use bt_go.Models.{Time, Directory, File, FileSnapshot, Content}
use bt_go.FilePaths.{rel, join, dir, base, ext}
use bt_go.Database.Sqlite.{
  Sqlite, find_directory_by_path, search_directory_for_path, find_file_by_path,
  find_file_snapshot_by_checksum, find_file_snapshots_for_file, find_files_by_directory,
  find_content_by_checksum,
}
use bt_go.Vault.{Vault}
use bt_go.Encryption.{DecryptionContext}

-- A file that a restore writes. Parent directories are made as needed and are not recorded.
pub record OutFile : Type 0 where
  pub contents : Bytes
  pub permissions : ℕ
  pub accessed_at : Time
  pub modified_at : Time

abbrev pub Disk : Type 0
Disk = Assoc OutFile

-- The calls that set a file's metadata, each of which can fail, and what a file has that was just
-- created and written.
pub record FileCalls : Type 0 where
  pub chmod : Text → ℕ → Result (Unit {0})
  pub chtimes : Text → Time → Time → Result (Unit {0})
  pub created_permissions : ℕ
  pub written_at : Time

-- The paths that were written, and the error that ended the run.
pub record Restored : Type 0 where
  pub paths : List Text
  pub failure : Option Error

abbrev pub take : ℕ → Text → Text
take zero s = []
take (suc n) [] = []
take (suc n) (c ∷ cs) = c ∷ take n cs

-- {dir}/{basename}.{checksum[:12]}.btrestored
unfoldable pub build_restore_path : Text → Text → Text → Text
build_restore_path dir_path relative_path content_id =
    let full_path = join dir_path relative_path in
    let base_name = base full_path in
    let name = take (length base_name - length (ext base_name)) base_name in
    join (dir full_path)
      (name ++ ext base_name ++ (b'.' ∷ (take 12 content_id ++ codes ".btrestored")))

module _ {V : Type 0} (vault : Vault V) (db : Sqlite) (stored : V)
    (decrypt_ctx : Option DecryptionContext) where
  -- The bytes that are written to the output file. The decryptor reads from a pipe, on which an
  -- error of the vault arrives as an error of the reader.
  unfoldable pub fetch : FileSnapshot → Result Bytes
  fetch snapshot = elim (find_content_by_checksum snapshot.content_id db) [
    | err e ↦ err e
    | ok none ↦ err content_record_missing
    | ok (some content) ↦ elim content.encrypted_content_id [
      | none ↦ vault.get_content snapshot.content_id stored
      | some encrypted ↦ elim decrypt_ctx [
        | none ↦ err no_passphrase
        | some ctx ↦ ctx.decrypt (vault.get_content encrypted stored)
      ]
    ]
  ]

  -- A file with these bytes that has no metadata set yet.
  abbrev pub fresh_file : FileCalls → Bytes → OutFile
  fresh_file calls contents = record {
    contents = contents;
    permissions = calls.created_permissions;
    accessed_at = calls.written_at;
    modified_at = calls.written_at;
  }

  -- The file with its mode set.
  abbrev pub moded_file : FileCalls → FileSnapshot → Bytes → OutFile
  moded_file calls snapshot contents = record (fresh_file calls contents) {
    permissions = snapshot.permissions;
  }

  -- The permissions and then the times; an error in either leaves the file that was written.
  unfoldable pub restore_metadata : FileCalls → Text → FileSnapshot → Bytes → Act Disk Text
  restore_metadata calls out_path snapshot contents disk =
      elim (calls.chmod out_path snapshot.permissions) [
        | err e ↦ (err e, insert out_path (fresh_file calls contents) disk)
        | ok _ ↦ elim (calls.chtimes out_path snapshot.accessed_at snapshot.modified_at) [
          | err e ↦ (err e, insert out_path (moded_file calls snapshot contents) disk)
          | ok _ ↦ (
            ok out_path,
            insert out_path
                (record {
                  contents = contents;
                  permissions = snapshot.permissions;
                  accessed_at = snapshot.accessed_at;
                  modified_at = snapshot.modified_at;
                })
                disk,
          )
        ]
      ]

  -- The file is created empty first; an error up to the metadata removes it.
  unfoldable pub write_restored : FileCalls → Text → FileSnapshot → Act Disk Text
  unfolding fetch restore_metadata
  write_restored calls out_path snapshot disk = elim (fetch snapshot) [
    | err e ↦ (err e, delete out_path disk)
    | ok contents ↦ restore_metadata calls out_path snapshot contents disk
  ]

  unfoldable pub restore_one_file : FileCalls → Directory → Text → FileSnapshot → Act Disk Text
  unfolding write_restored build_restore_path
  restore_one_file calls directory relative_path snapshot disk =
      let out_path = build_restore_path directory.path relative_path snapshot.content_id in
      elim (lookup out_path disk) [
        | some _ ↦ (err output_exists, disk)
        | none ↦ write_restored calls out_path snapshot disk
      ]

  abbrev pub or_error : {A : Type 0} → Error → Option A → Result A
  or_error e none = err e
  or_error e (some a) = ok a

  unfoldable pub current_snapshot : File → Result FileSnapshot
  current_snapshot file = elim file.current_snapshot_id [
    | none ↦ err no_current_snapshot
    | some id ↦ elim (find_file_snapshots_for_file file db) [
      | err e ↦ err e
      | ok snapshots ↦
          or_error snapshot_not_in_database (find_first (λ s. text_eq s.id id) snapshots)
    ]
  ]

  -- The empty text stands for "no checksum given".
  unfoldable pub resolve_snapshot : File → Text → Result FileSnapshot
  unfolding current_snapshot
  resolve_snapshot file [] = current_snapshot file
  resolve_snapshot file (c ∷ cs) = elim (find_file_snapshot_by_checksum file (c ∷ cs) db) [
    | err e ↦ err e
    | ok found ↦ or_error no_snapshot_with_checksum found
  ]

  unfoldable pub restore_file : FileCalls → Text → Text → Act Disk Text
  unfolding resolve_snapshot restore_one_file
  restore_file calls abs_path checksum = do
    found ← lift (search_directory_for_path abs_path db)
    directory ← lift (or_error not_in_tracked_directory found)
    relative_path ← lift (rel directory.path abs_path)
    found_file ← lift (find_file_by_path directory relative_path db)
    file ← lift (or_error no_backup_history found_file)
    snapshot ← lift (resolve_snapshot file checksum)
    restore_one_file calls directory relative_path snapshot

  abbrev pub is_restorable : File → Bool
  is_restorable file = elim file.deleted [
    | true ↦ false
    | false ↦ elim file.current_snapshot_id [ none ↦ false | some _ ↦ true ]
  ]

  -- What becomes of the paths restored so far when the next file has been tried.
  abbrev pub restore_then :
      (List Text → Disk → Restored × Disk) → List Text → Result Text × Disk → Restored × Disk
  restore_then rest restored (err e, disk) = (record { paths = restored; failure = some e }, disk)
  restore_then rest restored (ok out_path, disk) = rest (restored ++ out_path ∷ []) disk

  abbrev pub restore_next : FileCalls → Directory → File → Act Disk Text
  restore_next calls directory file = do
    snapshot ← lift (resolve_snapshot file [])
    restore_one_file calls directory file.name snapshot

  -- The loop of restoreDirectory, which has restored the paths of its second argument.
  unfoldable pub restore_each :
      FileCalls → Directory → List File → List Text → Disk → Restored × Disk
  restore_each calls directory [] restored disk =
      (record { paths = restored; failure = none }, disk)
  restore_each calls directory (file ∷ files) restored disk =
      let rest = restore_each calls directory files in
      if is_restorable file
      then restore_then rest restored (restore_next calls directory file disk)
      else rest restored disk

  unfoldable pub restore_directory : FileCalls → Directory → Disk → Restored × Disk
  unfolding restore_each
  restore_directory calls directory disk = elim (find_files_by_directory directory db) [
    | err e ↦ (record { paths = []; failure = some e }, disk)
    | ok files ↦ restore_each calls directory files [] disk
  ]

  abbrev pub restored_file : Result Text × Disk → Restored × Disk
  restored_file (err e, disk) = (record { paths = []; failure = some e }, disk)
  restored_file (ok out_path, disk) = (record { paths = out_path ∷ []; failure = none }, disk)

  unfoldable pub restore : FileCalls → Text → Text → Disk → Restored × Disk
  unfolding restore_directory restore_file
  restore calls abs_path checksum disk = elim (find_directory_by_path abs_path db) [
    | err e ↦ (record { paths = []; failure = some e }, disk)
    | ok none ↦ restored_file (restore_file calls abs_path checksum disk)
    | ok (some directory) ↦
        if text_eq checksum []
        then restore_directory calls directory disk
        else (record { paths = []; failure = some checksum_with_directory }, disk)
  ]
