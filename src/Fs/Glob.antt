-- ===== src/Fs/Glob.antt =====
-- filepath.Match of Go's library, by its documentation, on names of one byte per character. A
-- malformed pattern, which is an error there, has no tokens.
use bt_go.Prelude.{
  ℕ, ◌≡◌, refl, ap, codes, arith, Bool, true, false, not, ◌&&◌, ◌||◌, Option, none, some, List, [],
  ◌∷◌, ◌++◌, map, Text, any, ltb, ◌==◌, if◌then◌else◌,
}

pub data Token : Type 0 where
  star_token : Token
  any_byte : Token
  byte : ℕ → Token
  class_of : Bool → List (ℕ × ℕ) → Token

-- Where the reading of a pattern is; in a class, with its negation, its ranges so far and the
-- lower end of the range that is being read.
pub data Mode : Type 0 where
  plain : Mode
  escaped : Mode
  class_start : Mode
  class_body : Bool → List (ℕ × ℕ) → Mode
  class_escape : Bool → List (ℕ × ℕ) → Mode
  class_low : Bool → List (ℕ × ℕ) → ℕ → Mode
  class_high : Bool → List (ℕ × ℕ) → ℕ → Mode
  class_high_escape : Bool → List (ℕ × ℕ) → ℕ → Mode

abbrev backslash : ℕ
backslash = 92

-- What one byte of the pattern adds, and where the reading is then; none is a malformed pattern.
abbrev pub plain_step : ℕ → List Token × Mode
plain_step c =
    if c == b'*'
    then (star_token ∷ [], plain)
    else if c == b'?'
    then (any_byte ∷ [], plain)
    else if c == b'['
    then ([], class_start)
    else if c == backslash
    then ([], escaped)
    else (byte c ∷ [], plain)

abbrev is_empty : List (ℕ × ℕ) → Bool
is_empty [] = true
is_empty (r ∷ rs) = false

abbrev body_step : Bool → List (ℕ × ℕ) → ℕ → Option (List Token × Mode)
body_step negated ranges c =
    if c == b']'
    then if is_empty ranges then none else some (class_of negated ranges ∷ [], plain)
    else if c == b'-'
    then none
    else if c == backslash
    then some ([], class_escape negated ranges)
    else some ([], class_low negated ranges c)

unfoldable pub step : Mode → ℕ → Option (List Token × Mode)
step plain c = some (plain_step c)
step escaped c = some (byte c ∷ [], plain)
step class_start c = if c == b'^' then some ([], class_body true []) else body_step false [] c
step (class_body negated ranges) c = body_step negated ranges c
step (class_escape negated ranges) c = some ([], class_low negated ranges c)
step (class_low negated ranges lo) c =
    if c == b'-'
    then some ([], class_high negated ranges lo)
    else body_step negated ((lo, lo) ∷ ranges) c
step (class_high negated ranges lo) c =
    if c == b']' || c == b'-'
    then none
    else if c == backslash
    then some ([], class_high_escape negated ranges lo)
    else some ([], class_body negated ((lo, c) ∷ ranges))
step (class_high_escape negated ranges lo) c = some ([], class_body negated ((lo, c) ∷ ranges))

-- The text ends well outside of classes and escapes.
abbrev ended : Mode → Option (List Token)
ended plain = some []
ended _ = none

abbrev add_tokens : List Token → Option (List Token) → Option (List Token)
add_tokens ts none = none
add_tokens ts (some rest) = some (ts ++ rest)

unfoldable pub tokens : Mode → Text → Option (List Token)
unfolding step
tokens mode [] = ended mode
tokens mode (c ∷ cs) = elim (step mode c) [ none ↦ none | some r ↦ add_tokens r.0 (tokens r.1 cs) ]

-- A star takes any bytes but separators.
unfoldable pub star : (Text → Bool) → Text → Bool
star rest [] = rest []
star rest (c ∷ cs) = let later = star rest cs in rest (c ∷ cs) || (not (c == b'/') && later)

abbrev in_ranges : List (ℕ × ℕ) → ℕ → Bool
in_ranges ranges c = any (λ r. not (ltb c r.0) && not (ltb r.1 c)) ranges

unfoldable pub match_tokens : List Token → Text → Bool
unfolding star
match_tokens [] [] = true
match_tokens [] (c ∷ cs) = false
match_tokens (star_token ∷ ts) name = star (match_tokens ts) name
match_tokens (any_byte ∷ ts) [] = false
match_tokens (any_byte ∷ ts) (c ∷ cs) = not (c == b'/') && match_tokens ts cs
match_tokens (byte b ∷ ts) [] = false
match_tokens (byte b ∷ ts) (c ∷ cs) = c == b && match_tokens ts cs
match_tokens (class_of negated ranges ∷ ts) [] = false
match_tokens (class_of negated ranges ∷ ts) (c ∷ cs) =
    (if negated then not (in_ranges ranges c) else in_ranges ranges c) && match_tokens ts cs

-- filepath.Match(pattern, name); none is ErrBadPattern.
unfoldable pub glob : Text → Text → Option Bool
unfolding tokens match_tokens
glob pattern name = elim (tokens plain pattern) [
  | none ↦ none
  | some ts ↦ some (match_tokens ts name)
]

abbrev pub no_slash : Text → Bool
no_slash [] = true
no_slash (c ∷ cs) = not (c == b'/') && no_slash cs

star-append :
    (rest : Text → Bool) (stem suffix : Text)
    → no_slash stem ≡ true
    → rest suffix ≡ true
    → star rest (stem ++ suffix) ≡ true
unfolding star
star-append rest [] [] h r = r
star-append rest [] (c ∷ cs) h r = ground arith
star-append rest (c ∷ cs) suffix h r = ground (arith, star-append rest cs suffix)

-- The pattern for restored files takes every name with their ending.
pub glob_restored :
    (stem : Text)
    → no_slash stem ≡ true
    → glob (codes "*.btrestored") (stem ++ codes ".btrestored") ≡ some true
unfolding glob tokens step match_tokens star
glob_restored stem h =
    ap some (
      star-append (match_tokens (map byte (codes ".btrestored"))) stem (codes ".btrestored") h refl)
