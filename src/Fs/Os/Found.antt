-- ===== src/Fs/Os/Found.antt =====
-- FindFiles and IsIgnored of internal/fs/filesystem.go.
use bt_go.Prelude.{
  ◌≡◌, ap, Bool, true, false, not, ◌||◌, inl, inr, Bool-cases, Result-cases, Option, none, some,
  List, [], ◌∷◌, ◌++◌, map, Text, codes, Result, ok, err, All, All-map, subst, not_a_directory,
  if◌then◌else◌, arith,
}
use bt_go.Filesystem.{FilePath}
use bt_go.FilePaths.{rel, join, base}
use bt_go.Fs.Glob.{no_slash}
use bt_go.Fs.Ignore.{IgnorePattern, new_ignore_matcher, match, parse_ignore_file}
use bt_go.Fs.Ignore.Restored.{ignore_file, restored_files, defaults_first, match_restored}
use bt_go.Fs.Os.{
  Os, DirEntry, base_matcher, pattern_of, file_contents, combined_matcher, visit_file, walk_files,
  find_files, is_ignored, add_found,
}

module _ (os : Os) (config_patterns : List Text) where
  -- The matcher of any directory begins with the default patterns.
  combined_first :
      (dir_root : Text)
      → (more : List IgnorePattern) × (combined_matcher os
            (base_matcher os config_patterns)
            dir_root
          ≡ ignore_file ∷ restored_files ∷ more)
  unfolding combined_matcher
  combined_first dir_root =
      go (parse_ignore_file (file_contents os (join dir_root (codes ".btignore"))))
    where
      go :
          (r : Result (List Text))
          → (more : List IgnorePattern) × ((elim r [
            | err _ ↦ base_matcher os config_patterns
            | ok [] ↦ base_matcher os config_patterns
            | ok (line ∷ lines) ↦
                new_ignore_matcher
                  (map (pattern_of os) (base_matcher os config_patterns) ++ line ∷ lines)
          ])
              ≡ ignore_file ∷ restored_files ∷ more)
      go (err e) = (new_ignore_matcher config_patterns, defaults_first config_patterns)
      go (ok []) = (new_ignore_matcher config_patterns, defaults_first config_patterns)
      go (ok (line ∷ lines)) = (
        new_ignore_matcher
            (map (pattern_of os) (new_ignore_matcher config_patterns) ++ line ∷ lines),
        rw (defaults_first config_patterns) (
            defaults_first
              (map (pattern_of os) (new_ignore_matcher config_patterns) ++ line ∷ lines)),
      )

  -- A restored file is never taken for one to back up: whatever the configuration and the
  -- directory's ignore file say, a file whose name ends as a restore names its output is ignored.
  pub is_ignored-restored :
      (path : FilePath) (dir_root r stem : Text)
      → rel dir_root path.abs_path ≡ ok r
      → base r ≡ stem ++ codes ".btrestored"
      → no_slash stem ≡ true
      → is_ignored os (base_matcher os config_patterns) path dir_root ≡ ok true
  unfolding is_ignored
  is_ignored-restored path dir_root r stem below named plain =
      let (more, first) = combined_first dir_root in
      rw (is_ignored, below) (rw first (ap ok (match_restored more r stem named plain)))

-- What is found is not ignored.
abbrev Visible : Os → List IgnorePattern → Text → FilePath → Type 0
Visible os matcher dir_root p =
    (r : Text) × (rel dir_root p.abs_path ≡ ok r) × (match matcher r ≡ false)

module _ (os : Os) (matcher : List IgnorePattern) (dir_root : Text) where
  abbrev Shown : Result (Option FilePath) → Type 0
  Shown (err e) = Unit
  Shown (ok none) = Unit
  Shown (ok (some p)) = Visible os matcher dir_root p

  abbrev AllShown : Result (List FilePath) → Type 0
  AllShown (err e) = Unit
  AllShown (ok paths) = All (Visible os matcher dir_root) paths

  visit_file-Shown : (p : Text) (d : DirEntry) → Shown (visit_file os matcher dir_root p d)
  unfolding visit_file
  visit_file-Shown p d = elim (Bool-cases (d.is_dir || not d.is_regular)) [
    | inl x ↦ rw (visit_file, x) tt
    | inr x ↦
        rw (visit_file, x)
          (elim (Result-cases (rel dir_root p)) [
            | inr (e, y) ↦ rw y tt
            | inl (r, y) ↦ rw y (elim (Bool-cases (match matcher r)) [
              | inl z ↦ rw z tt
              | inr z ↦ rw z (elim (Result-cases d.info) [
                | inr (e, w) ↦ rw w tt
                | inl (i, w) ↦ rw w (r, y, z)
              ])
            ])
          ])
  ]

  add_found-AllShown :
      (found : Option FilePath) (rest : Result (List FilePath))
      → Shown (ok found)
      → AllShown rest
      → AllShown (add_found os found rest)
  add_found-AllShown found (err e) s a = tt
  add_found-AllShown none (ok paths) s a = a
  add_found-AllShown (some p) (ok paths) s a = (s, a)

  walk_files-AllShown :
      (visits : List (Text × Result DirEntry)) → AllShown (walk_files os matcher dir_root visits)
  unfolding walk_files
  walk_files-AllShown [] = tt
  walk_files-AllShown ((p, err e) ∷ visits) = tt
  walk_files-AllShown ((p, ok d) ∷ visits) =
      go (visit_file os matcher dir_root p d) (visit_file-Shown p d) (walk_files-AllShown visits)
    where
      go :
          (r : Result (Option FilePath))
          → Shown r
          → AllShown (walk_files os matcher dir_root visits)
          → AllShown (elim r [
            | err e ↦ err e
            | ok found ↦ add_found os found (walk_files os matcher dir_root visits)
          ])
      go (err e) s a = tt
      go (ok found) s a = add_found-AllShown found _ s a

-- What a recursive search of a directory finds, the check of one file in that directory does not
-- ignore, whatever the configuration and the ignore files say.
pub find_files-is_ignored :
    (os : Os) (config_patterns : List Text) (path : FilePath) (paths : List FilePath)
    → find_files os (base_matcher os config_patterns) path true ≡ ok paths
    → All (λ p. is_ignored os (base_matcher os config_patterns) p path.abs_path ≡ ok false) paths
unfolding find_files is_ignored
find_files-is_ignored os config_patterns path paths h = go path.is_dir h
  where
    matcher : List IgnorePattern
    matcher = combined_matcher os (base_matcher os config_patterns) path.abs_path

    seen :
        AllShown os matcher path.abs_path
          (walk_files os matcher path.abs_path (os.walk_dir path.abs_path))
    seen = walk_files-AllShown os matcher path.abs_path (os.walk_dir path.abs_path)

    go :
        (b : Bool)
        → (if not b
            then err not_a_directory
            else walk_files os matcher path.abs_path (os.walk_dir path.abs_path))
          ≡ ok paths
        → All
            (λ p. is_ignored os (base_matcher os config_patterns) p path.abs_path ≡ ok false)
            paths
    go false e = absurd (ground (arith, e))
    go true e =
        All-map _ _ paths (λ p v. let (r, below, shown) = v in rw (is_ignored, below) (ap ok shown))
          (subst (AllShown os matcher path.abs_path) e seen)
