-- ===== src/Tests/ReportRuns.antt =====
-- The reports on a file with two versions, and the real file system's search.
use bt_go.Prelude.{
  ◌≡◌, ◌&&◌, refl, Bool, true, false, not, none, some, List, [], ◌∷◌, Text, codes, text_eq, any,
  count, ok, err, not_found, All, ltb,
}
use bt_go.Models.{File, FileSnapshot}
use bt_go.Filesystem.{FilePath}
use bt_go.FilePaths.{rel, base}
use bt_go.Database.Sqlite.{Sqlite}
use bt_go.Staging.Store.{named}
use bt_go.Staging.Memory.{new_memory_store, memory_store}
use bt_go.Staging.Memory.Laws.{memory_views, new_memory_store-IsConsistent, memory_store-Contract}
use bt_go.Vault.Memory.{new_memory_vault, memory_vault}
use bt_go.Service.History.{FileHistoryEntry, entry, history_of}
use bt_go.Service.History.Newest.{Newest, history_of_lem}
use bt_go.Service.Status.{FileStatus, get_file_status}
use bt_go.Service.Status.OneFile.{Agrees, row_of, get_file_status_lem}
use bt_go.Fs.Glob.{glob, tokens, step, match_tokens, star}
use bt_go.Fs.Ignore.{new_ignore_matcher, trim_left, trim_right, match, parse_ignore_file, raw_lines}
use bt_go.Fs.Os.{
  Os, DirEntry, base_matcher, combined_matcher, visit_file, walk_files, find_files, is_ignored,
}
use bt_go.Fs.Os.Found.{is_ignored-restored, find_files-is_ignored}
use bt_go.Tests.Data.{at, hash, directory, info, path, stat_data, tracking, snapshot}

abbrev first_version : FileSnapshot
first_version = record snapshot { id = codes "s1"; file_id = codes "f"; created_at = at 1 }

abbrev second_version : FileSnapshot
second_version = record snapshot {
  id = codes "s2";
  file_id = codes "f";
  created_at = at 5;
  size = 9;
}

abbrev file : File
file = record {
  id = codes "f";
  name = codes "x";
  directory_id = codes "d";
  current_snapshot_id = some (codes "s2");
  deleted = false;
}

abbrev db : Sqlite
db = record tracking {
  tables = record tracking.tables {
    files = file ∷ [];
    file_snapshots = second_version ∷ first_version ∷ [];
  };
}

abbrev of_nine : FileHistoryEntry → Bool
of_nine e = not (ltb e.size 9)

history_of_lem_example :
    (entries : List FileHistoryEntry) × (history_of db file ≡ ok entries)
    × Newest entries
    × (count of_nine entries
        ≡ count
            (λ s. text_eq s.file_id (codes "f") && of_nine (entry file s))
            db.tables.file_snapshots)
history_of_lem_example = history_of_lem db file of_nine

get_file_status_lem_example :
    (status : FileStatus) × (get_file_status
        (memory_store hash)
        db
        new_memory_store
        directory
        (codes "x")
        path
      ≡ ok status)
    × (status.is_staged ≡ any (named (codes "d") (codes "x")) (memory_views.queue new_memory_store))
    × Agrees memory_vault new_memory_vault none db info status (row_of directory (codes "x") db)
get_file_status_lem_example =
    get_file_status_lem hash (memory_store hash) memory_views (memory_store-Contract hash)
      memory_vault new_memory_vault none db new_memory_store directory (codes "x") path
      new_memory_store-IsConsistent

abbrev entry_of : Text → DirEntry
entry_of name = record { name = name; is_dir = false; is_regular = true; info = ok info }

-- A directory with a file and a restored one, whose ignore file names a third.
abbrev os : Os
os = record {
  abs = λ p. ok p;
  stat = λ p. err not_found;
  open_file = λ p. ok (ok (codes "*.log"));
  read_dir = λ p. ok (entry_of (codes "x") ∷ []);
  walk_dir = λ p.
      (codes "/a/x", ok (entry_of (codes "x")))
      ∷ (codes "/a/x.1.btrestored", ok (entry_of (codes "x.1.btrestored")))
      ∷ (codes "/a/y.log", ok (entry_of (codes "y.log")))
      ∷ [];
  sys_stat = λ i. ok stat_data;
}

abbrev restored : FilePath
restored = record path { abs_path = codes "/a/x.1.btrestored" }

is_ignored-restored_example : is_ignored os (base_matcher os []) restored (codes "/a") ≡ ok true
unfolding rel base text_eq
is_ignored-restored_example =
    is_ignored-restored os [] restored (codes "/a") (codes "x.1.btrestored") (codes "x.1") refl refl
      refl

find_files-is_ignored_example :
    All (λ p. is_ignored os (base_matcher os []) p (codes "/a") ≡ ok false) (path ∷ [])
unfolding find_files walk_files visit_file combined_matcher parse_ignore_file raw_lines
    new_ignore_matcher trim_left trim_right match glob tokens step match_tokens star rel base
    text_eq
find_files-is_ignored_example =
    find_files-is_ignored os [] (record { abs_path = codes "/a"; is_dir = true; info = info })
      (path ∷ []) refl
