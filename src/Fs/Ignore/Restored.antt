-- ===== src/Fs/Ignore/Restored.antt =====
-- The default patterns of internal/fs/ignore.go.
use bt_go.Prelude.{
  ◌≡◌, refl, true, false, inl, inr, Bool-cases, List, ◌∷◌, ◌++◌, Text, codes, text_eq,
}
use bt_go.FilePaths.{base}
use bt_go.Fs.Glob.{no_slash, glob_restored}
use bt_go.Fs.Ignore.{
  IgnorePattern, default_ignore_patterns, new_ignore_matcher, match, pattern_matches, trim_left,
  trim_right,
}

abbrev pub ignore_file : IgnorePattern
ignore_file = record { pattern = codes ".btignore"; match_path = false }

abbrev pub restored_files : IgnorePattern
restored_files = record { pattern = codes "*.btrestored"; match_path = false }

-- The default patterns stand first in every matcher made of them.
pub defaults_first :
    (raws : List Text)
    → new_ignore_matcher (default_ignore_patterns ++ raws)
      ≡ ignore_file ∷ restored_files ∷ new_ignore_matcher raws
unfolding new_ignore_matcher trim_left trim_right text_eq
defaults_first raws = refl

pub match_restored :
    (more : List IgnorePattern) (relative_path stem : Text)
    → base relative_path ≡ stem ++ codes ".btrestored"
    → no_slash stem ≡ true
    → match (ignore_file ∷ restored_files ∷ more) relative_path ≡ true
unfolding match
match_restored more relative_path stem named h =
    elim (Bool-cases (pattern_matches relative_path ignore_file)) [
      | inl e ↦ rw (match, e) refl
      | inr e ↦ rw (match, e) (rw (named, glob_restored stem h) refl)
    ]
