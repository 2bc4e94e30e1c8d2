-- ===== src/Fs/Os.antt =====
-- internal/fs/filesystem.go and stat_unix.go: the file system manager on the operating system.
--
-- The operating system's calls are parameters, as they answer at one moment. A walk is the list of
-- its visits in their order, the failed ones with their error.
pub mod Found
use bt_go.Prelude.{
  ℕ, Bool, true, false, not, ◌||◌, Option, none, some, List, [], ◌∷◌, ◌++◌, map, Text, Bytes, codes,
  Result, ok, err, is_a_directory, not_a_directory, unsupported_file_type, if◌then◌else◌,
}
use bt_go.Filesystem.{FileInfo, StatData, FilePath, FilesystemManager}
use bt_go.FilePaths.{rel, join}
use bt_go.Fs.Ignore.{
  IgnorePattern, default_ignore_patterns, new_ignore_matcher, match, parse_ignore_file,
}

-- What os.Stat tells, with the bits of the mode that Resolve tests.
pub record OsInfo : Type 0 where
  pub info : FileInfo
  pub is_dir : Bool
  pub is_symlink : Bool
  pub is_device : Bool
  pub is_named_pipe : Bool
  pub is_socket : Bool

pub record DirEntry : Type 0 where
  pub name : Text
  pub is_dir : Bool
  pub is_regular : Bool
  pub info : Result FileInfo

pub record Os : Type 0 where
  pub abs : Text → Result Text
  pub stat : Text → Result OsInfo
  pub open_file : Text → Result (Result Bytes)
  pub read_dir : Text → Result (List DirEntry)
  pub walk_dir : Text → List (Text × Result DirEntry)
  pub sys_stat : FileInfo → Result StatData

module _ (os : Os) where
  unfoldable pub resolve : Text → Result FilePath
  resolve raw_path = elim (os.abs raw_path) [
    | err e ↦ err e
    | ok abs_path ↦ elim (os.stat abs_path) [
      | err e ↦ err e
      | ok i ↦
          if i.is_symlink || (i.is_device || (i.is_named_pipe || i.is_socket))
          then err unsupported_file_type
          else ok (record { abs_path = abs_path; is_dir = i.is_dir; info = i.info })
    ]
  ]

  unfoldable pub open_path : FilePath → Result (Result Bytes)
  open_path path = if path.is_dir then err is_a_directory else os.open_file path.abs_path

  unfoldable pub stat_path : FilePath → Result FileInfo
  stat_path path = elim (os.stat path.abs_path) [ err e ↦ err e | ok i ↦ ok i.info ]

  -- Opening a file and reading it to its end.
  abbrev pub file_contents : Text → Result Bytes
  file_contents path = elim (os.open_file path) [ err e ↦ err e | ok reader ↦ reader ]

  abbrev pub pattern_of : IgnorePattern → Text
  pattern_of p = p.pattern

  -- `base` is what NewOSFilesystemManager made of the configuration's patterns.
  unfoldable pub combined_matcher : List IgnorePattern → Text → List IgnorePattern
  combined_matcher base dir_path =
      elim (parse_ignore_file (file_contents (join dir_path (codes ".btignore")))) [
        | err _ ↦ base
        | ok [] ↦ base
        | ok (line ∷ lines) ↦ new_ignore_matcher (map pattern_of base ++ line ∷ lines)
      ]

  -- One visit of the walk: nothing, or a file.
  unfoldable pub visit_file : List IgnorePattern → Text → Text → DirEntry → Result (Option FilePath)
  visit_file matcher dir_root p d =
      if d.is_dir || not d.is_regular then ok none else (elim (rel dir_root p) [
        | err e ↦ err e
        | ok r ↦ if match matcher r then ok none else (elim d.info [
          | err e ↦ err e
          | ok i ↦ ok (some (record { abs_path = p; is_dir = false; info = i }))
        ])
      ])

  abbrev pub add_found : Option FilePath → Result (List FilePath) → Result (List FilePath)
  add_found found (err e) = err e
  add_found none (ok paths) = ok paths
  add_found (some p) (ok paths) = ok (p ∷ paths)

  unfoldable pub walk_files :
      List IgnorePattern → Text → List (Text × Result DirEntry) → Result (List FilePath)
  unfolding visit_file
  walk_files matcher dir_root [] = ok []
  walk_files matcher dir_root ((p, err e) ∷ visits) = err e
  walk_files matcher dir_root ((p, ok d) ∷ visits) = elim (visit_file matcher dir_root p d) [
    | err e ↦ err e
    | ok found ↦ add_found found (walk_files matcher dir_root visits)
  ]

  unfoldable pub list_files : List IgnorePattern → Text → List DirEntry → Result (List FilePath)
  list_files matcher dir_root [] = ok []
  list_files matcher dir_root (entry ∷ entries) =
      let rest = list_files matcher dir_root entries in
      if not entry.is_regular || match matcher entry.name then rest else (elim entry.info [
        | err e ↦ err e
        | ok i ↦
            add_found
              (some (record { abs_path = join dir_root entry.name; is_dir = false; info = i })) rest
      ])

  unfoldable pub find_files : List IgnorePattern → FilePath → Bool → Result (List FilePath)
  unfolding walk_files list_files combined_matcher
  find_files base path recursive =
      let matcher = combined_matcher base path.abs_path in
      if not path.is_dir
      then err not_a_directory
      else if recursive
      then walk_files matcher path.abs_path (os.walk_dir path.abs_path)
      else (elim (os.read_dir path.abs_path) [
        | err e ↦ err e
        | ok entries ↦ list_files matcher path.abs_path entries
      ])

  unfoldable pub is_ignored : List IgnorePattern → FilePath → Text → Result Bool
  unfolding combined_matcher
  is_ignored base path dir_root = elim (rel dir_root path.abs_path) [
    | err e ↦ err e
    | ok r ↦ ok (match (combined_matcher base dir_root) r)
  ]

  -- NewOSFilesystemManager
  abbrev pub base_matcher : List Text → List IgnorePattern
  base_matcher config_patterns = new_ignore_matcher (default_ignore_patterns ++ config_patterns)

  abbrev pub os_filesystem_manager : List Text → FilesystemManager
  os_filesystem_manager config_patterns = record {
    resolve = resolve;
    open_file = open_path;
    stat = stat_path;
    extract_stat_data = os.sys_stat;
    find_files = find_files (base_matcher config_patterns);
    is_ignored = is_ignored (base_matcher config_patterns);
  }
