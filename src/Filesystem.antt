-- ===== src/Filesystem.antt =====
-- What the service sees of a file system: internal/bt/path.go and internal/bt/filesystem.go.
use bt_go.Prelude.{ℕ, Bool, List, Text, Bytes, Result}
use bt_go.Models.{Time, NullTime}

-- The parts of an fs.FileInfo that the program reads.
pub record FileInfo : Type 0 where
  pub size : ℕ
  pub mode : ℕ
  pub perm : ℕ
  pub mod_time : Time

pub record StatData : Type 0 where
  pub uid : ℕ
  pub gid : ℕ
  pub atime : Time
  pub ctime : Time
  pub birth_time : NullTime

-- `Path` of path.go.
pub record FilePath : Type 0 where
  pub abs_path : Text
  pub is_dir : Bool
  pub info : FileInfo

-- The interface FilesystemManager, at one moment. A reader is the bytes that it will yield, or
-- the error on which it breaks off.
pub record FilesystemManager : Type 0 where
  pub resolve : Text → Result FilePath
  pub open_file : FilePath → Result (Result Bytes)
  pub stat : FilePath → Result FileInfo
  pub extract_stat_data : FileInfo → Result StatData
  pub find_files : FilePath → Bool → Result (List FilePath)
  pub is_ignored : FilePath → Text → Result Bool
