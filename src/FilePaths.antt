-- ===== src/FilePaths.antt =====
-- The functions of Go's package path/filepath that the program calls, on a Unix path as its list
-- of elements.
mod Tests
use bt_go.Prelude.{
  ℕ, ◌≡◌, Bool, true, false, not, ◌&&◌, ◌||◌, List, [], ◌∷◌, ◌++◌, Text, codes, text_eq, Result, ok,
  err, no_relative_path, find_first, arith, ◌==◌, if◌then◌else◌,
}
use mathlib.Core.List.{reverse}

-- The pieces between the separators.
unfoldable pub split : Text → List Text
split [] = [] ∷ []
split (c ∷ cs) = elim (split cs) [
  | [] ↦ [] ∷ []
  | piece ∷ rest ↦ if c == b'/' then [] ∷ piece ∷ rest else (c ∷ piece) ∷ rest
]

unfoldable pub join_pieces : List Text → Text
join_pieces [] = []
join_pieces (piece ∷ []) = piece
join_pieces (piece ∷ next ∷ rest) = piece ++ (b'/' ∷ join_pieces (next ∷ rest))

abbrev pub dot : Text
dot = b'.' ∷ []

abbrev pub dot_dot : Text
dot_dot = b'.' ∷ b'.' ∷ []

-- The element that follows is put on the stack; `..` takes one off, where there is one to take.
unfoldable pub put_element : Bool → List Text → Text → List Text
put_element rooted [] e = if text_eq e dot_dot && rooted then [] else e ∷ []
put_element rooted (top ∷ stack) e =
    if text_eq e dot_dot && not (text_eq top dot_dot) then stack else e ∷ top ∷ stack

-- Empty elements and `.` are dropped. The stack holds the elements kept, last first.
unfoldable pub clean_elements : Bool → List Text → List Text → List Text
unfolding put_element
clean_elements rooted stack [] = reverse stack
clean_elements rooted stack (e ∷ es) =
    clean_elements rooted
      (if text_eq e [] || text_eq e dot then stack else put_element rooted stack e) es

abbrev pub is_rooted : Text → Bool
is_rooted [] = false
is_rooted (c ∷ cs) = c == b'/'

unfoldable pub elements : Text → List Text
unfolding split clean_elements
elements path = clean_elements (is_rooted path) [] (split path)

abbrev pub or_dot : Text → Text
or_dot [] = dot
or_dot (c ∷ cs) = c ∷ cs

-- filepath.Clean
unfoldable pub clean : Text → Text
unfolding elements join_pieces
clean path =
    if is_rooted path
    then b'/' ∷ join_pieces (elements path)
    else or_dot (join_pieces (elements path))

-- filepath.Join of two elements; empty ones are ignored.
unfoldable pub join : Text → Text → Text
unfolding clean
join [] [] = []
join [] (c ∷ cs) = clean (c ∷ cs)
join (b ∷ bs) [] = clean (b ∷ bs)
join (b ∷ bs) (c ∷ cs) = clean ((b ∷ bs) ++ (b'/' ∷ c ∷ cs))

-- What is left of two lists of elements after their common beginning.
unfoldable pub strip_common : List Text → List Text → List Text × List Text
strip_common [] ts = ([], ts)
strip_common (b ∷ bs) [] = (b ∷ bs, [])
strip_common (b ∷ bs) (t ∷ ts) =
    let rest = strip_common bs ts in if text_eq b t then rest else (b ∷ bs, t ∷ ts)

abbrev pub begins_up : List Text → Bool
begins_up [] = false
begins_up (e ∷ es) = text_eq e dot_dot

abbrev pub ups : List Text → List Text → List Text
ups [] rest = rest
ups (b ∷ bs) rest = dot_dot ∷ ups bs rest

-- filepath.Rel
unfoldable pub rel : Text → Text → Result Text
unfolding elements strip_common join_pieces
rel base target =
    if (is_rooted base && not (is_rooted target)) || (is_rooted target && not (is_rooted base))
    then err no_relative_path
    else if begins_up (strip_common (elements base) (elements target)).0
    then err no_relative_path
    else ok (
        or_dot (
          join_pieces (
            ups (strip_common (elements base) (elements target)).0
              (strip_common (elements base) (elements target)).1)))

-- The bytes up to the last separator, and those after it.
unfoldable pub cut_last : Text → Text × Text
cut_last [] = ([], [])
cut_last (c ∷ cs) =
    let rest = cut_last cs in
    elim rest.0 [
      | [] ↦ if c == b'/' then (c ∷ [], rest.1) else ([], c ∷ rest.1)
      | d ∷ ds ↦ (c ∷ d ∷ ds, rest.1)
    ]

-- filepath.Dir
unfoldable pub dir : Text → Text
unfolding clean cut_last
dir path = clean (cut_last path).0

-- Trailing separators are dropped.
unfoldable pub trim_slashes : Text → Text
trim_slashes [] = []
trim_slashes (c ∷ cs) = elim (trim_slashes cs) [
  | [] ↦ if c == b'/' then [] else c ∷ []
  | d ∷ ds ↦ c ∷ d ∷ ds
]

-- filepath.Base
unfoldable pub base : Text → Text
unfolding trim_slashes cut_last
base [] = dot
base (c ∷ cs) = elim (cut_last (trim_slashes (c ∷ cs))).1 [ [] ↦ b'/' ∷ [] | d ∷ ds ↦ d ∷ ds ]

abbrev pub has_dot : Text → Bool
has_dot [] = false
has_dot (c ∷ cs) = c == b'.' || has_dot cs

-- filepath.Ext of a name with no separator: from its last dot on.
unfoldable pub ext : Text → Text
ext [] = []
ext (c ∷ cs) = let rest = ext cs in if has_dot cs then rest else if c == b'.' then c ∷ cs else []
