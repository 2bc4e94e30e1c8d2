-- ===== src/Database/Like.antt =====
-- SQLite's LIKE, which GetDirectoriesByPathPrefix of internal/database/sqlc/queries.sql uses:
-- `%` stands for any bytes, `_` for any one, and ASCII letters match in either case.
use Prim.Native.Nat.{◌+◌}
use bt_go.Prelude.{ℕ, Bool, true, false, ◌&&◌, ◌||◌, [], ◌∷◌, Text, leb, ◌==◌, if◌then◌else◌}

-- The lower-case form of an ASCII letter.
unfoldable pub fold_case : ℕ → ℕ
fold_case c = if leb b'A' c && leb c b'Z' then c + 32 else c

unfoldable pub like : Text → Text → Bool
unfolding fold_case
like [] [] = true
like [] (c ∷ cs) = false
like (p ∷ ps) [] = let rest = like ps [] in if p == b'%' then rest else false
like (p ∷ ps) (c ∷ cs) =
    let skip = like ps (c ∷ cs) in
    let eat = like (p ∷ ps) cs in
    let next = like ps cs in
    if p == b'%' then skip || eat else (p == b'_' || fold_case p == fold_case c) && next

-- The order of `ORDER BY path`.
unfoldable pub text_le : Text → Text → Bool
text_le [] t = true
text_le (x ∷ xs) [] = false
text_le (x ∷ xs) (y ∷ ys) = let rest = text_le xs ys in if x == y then rest else leb x y
