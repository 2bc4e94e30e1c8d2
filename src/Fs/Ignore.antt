-- ===== src/Fs/Ignore.antt =====
-- internal/fs/ignore.go
pub mod Restored
use bt_go.Prelude.{
  ℕ, Bool, true, false, not, ◌&&◌, ◌||◌, Option, none, some, List, [], ◌∷◌, ◌++◌, Text, Bytes,
  codes, text_eq, Result, ok, err, not_found, Error, ltb, any, ◌==◌, if◌then◌else◌,
}
use bt_go.FilePaths.{base}
use bt_go.Fs.Glob.{glob}

abbrev pub default_ignore_patterns : List Text
default_ignore_patterns = codes ".btignore" ∷ codes "*.btrestored" ∷ []

pub record IgnorePattern : Type 0 where
  pub pattern : Text
  pub match_path : Bool

-- The bytes that strings.TrimSpace takes off.
abbrev pub is_space : ℕ → Bool
is_space c = c == b' ' || (not (ltb c 9) && ltb c 14)

unfoldable pub trim_left : Text → Text
trim_left [] = []
trim_left (c ∷ cs) = let rest = trim_left cs in if is_space c then rest else c ∷ cs

unfoldable pub trim_right : Text → Text
trim_right [] = []
trim_right (c ∷ cs) = elim (trim_right cs) [
  | [] ↦ if is_space c then [] else c ∷ []
  | d ∷ ds ↦ c ∷ d ∷ ds
]

abbrev pub begins_comment : Text → Bool
begins_comment [] = false
begins_comment (c ∷ cs) = c == b'#'

-- NewIgnoreMatcher: blank lines and comments are skipped.
unfoldable pub new_ignore_matcher : List Text → List IgnorePattern
unfolding trim_left trim_right
new_ignore_matcher [] = []
new_ignore_matcher (raw ∷ raws) =
    let rest = new_ignore_matcher raws in
    let line = trim_left (trim_right raw) in
    if text_eq line [] || begins_comment line
    then rest
    else record { pattern = line; match_path = any (λ c. c == b'/') line } ∷ rest

-- A bad pattern matches nothing.
abbrev pub matched : Option Bool → Bool
matched none = false
matched (some b) = b

abbrev pub pattern_matches : Text → IgnorePattern → Bool
pattern_matches relative_path p =
    matched (glob p.pattern (if p.match_path then relative_path else base relative_path))

-- Match of a matcher; ToSlash changes nothing on Unix.
unfoldable pub match : List IgnorePattern → Text → Bool
match patterns relative_path = any (pattern_matches relative_path) patterns

-- bufio.Scanner's lines: a carriage return at the end of a line is dropped, and so is an empty last
-- line.
abbrev pub drop_return : Text → Text
drop_return [] = []
drop_return (c ∷ []) = if c == 13 then [] else c ∷ []
drop_return (c ∷ d ∷ ds) = c ∷ drop_return (d ∷ ds)

unfoldable pub raw_lines : Text → List Text
raw_lines [] = []
raw_lines (c ∷ cs) =
    if c == 10
    then [] ∷ raw_lines cs
    else (elim (raw_lines cs) [ [] ↦ (c ∷ []) ∷ [] | line ∷ rest ↦ (c ∷ line) ∷ rest ])

abbrev pub each_line : List Text → List Text
each_line [] = []
each_line (line ∷ rest) = drop_return line ∷ each_line rest

-- ParseIgnoreFile, on what opening and reading the file gives. A file that is missing has no
-- patterns.
unfoldable pub parse_ignore_file : Result Bytes → Result (List Text)
unfolding raw_lines
parse_ignore_file (err not_found) = ok []
parse_ignore_file (err e) = err e
parse_ignore_file (ok contents) = ok (each_line (raw_lines contents))
