-- ===== src/Tests/Data.antt =====
-- The concrete inputs: a directory, a file of two bytes, and functions in place of the parameters.
use bt_go.Prelude.{ℕ, ◌≡◌, false, [], ◌∷◌, Text, Bytes, codes, ok}
use bt_go.Models.{Time, Directory, FileSnapshot}
use bt_go.Filesystem.{FileInfo, StatData, FilePath, FilesystemManager}
use bt_go.Staging.Operation.{StagedOperation}
use bt_go.Staging.Area.{staged_operation}
use bt_go.Database.Tables.{no_rows}
use bt_go.Database.Sqlite.{Sources, Sqlite}

-- In place of SHA-256: no two contents have one value, and none is empty.
abbrev pub hash : Bytes → Text
hash b = 1 ∷ b

pub hash-injective : (x y : Bytes) → hash x ≡ hash y → x ≡ y
hash-injective x y h = cc

abbrev pub at : ℕ → Time
at n = record { instant = n; location = 0 }

abbrev pub directory : Directory
directory = record { id = codes "d"; path = codes "/a"; created_at = at 1; encrypted = 1 }

abbrev pub content : Bytes
content = 7 ∷ 8 ∷ []

abbrev pub info : FileInfo
info = record { size = 2; mode = 420; perm = 420; mod_time = at 2 }

abbrev pub changed_info : FileInfo
changed_info = record info { size = 3 }

abbrev pub stat_data : StatData
stat_data = record {
  uid = 1;
  gid = 2;
  atime = at 3;
  ctime = at 4;
  birth_time = record { time = at 0; valid = false };
}

abbrev pub path : FilePath
path = record { abs_path = codes "/a/x"; is_dir = false; info = info }

-- A file system with that file, which the second stat finds as `later`.
abbrev pub file_system : FileInfo → FilesystemManager
file_system later = record {
  resolve = λ _. ok path;
  open_file = λ _. ok (ok content);
  stat = λ _. ok later;
  extract_stat_data = λ _. ok stat_data;
  find_files = λ _ _. ok (path ∷ []);
  is_ignored = λ _ _. ok false;
}

abbrev pub sources : Sources
sources = record { new_id = λ n. n ∷ codes "id"; now = at }

abbrev pub tracking : Sqlite
tracking = record { tables = record no_rows { directories = directory ∷ [] }; ids = 0; clock = 0 }

-- The operation that staging the file queues.
abbrev pub operation : StagedOperation
operation = staged_operation directory (codes "x") info stat_data (hash content) 2

abbrev pub snapshot : FileSnapshot
snapshot = record {
  id = [];
  file_id = [];
  content_id = hash content;
  created_at = at 0;
  size = 2;
  permissions = 420;
  uid = 1;
  gid = 2;
  accessed_at = at 3;
  modified_at = at 2;
  changed_at = at 4;
  born_at = record { time = at 0; valid = false };
}
