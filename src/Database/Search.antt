-- ===== src/Database/Search.antt =====
-- SearchDirectoryForPath of internal/database/sqlite.go: which directory is found.
use Prim.Native.Nat.{◌≤◌}
use mathlib.Core.List.{Mem, mem-cons_self, mem-cons_of_mem}
use bt_go.Prelude.{
  ◌≡◌, ◌⊎◌, ◌++◌, ==_iff, text_eq_sound, text_eq_refl, inl, inr, refl, ap, ◌∙◌, subst, Bool, true,
  false, ◌||◌, Option, none, some, List, [], ◌∷◌, Text, codes, text_eq, ok, length, ltb, ltb→lt,
  ltb-le, select, All, All-map, arith, Bool-cases, if◌then◌else◌,
}
use bt_go.Models.{Directory}
use bt_go.Database.Like.{like, text_le}
use bt_go.Database.Rows.{All-select}
use bt_go.Database.Queries.{insert_by_path, order_by_path, get_directories_by_path_prefix}
use bt_go.Database.Sqlite.{Sqlite, is_inside, better, search_loop, search_directory_for_path}
use bt_go.Database.Consolidation.Outcome.{All-order_by_path}

insert_by_path-All :
    (P : Directory → Type 0) (d : Directory) (ds : List Directory)
    → All P (insert_by_path d ds)
    → P d × All P ds
unfolding insert_by_path
insert_by_path-All P d [] h = h
insert_by_path-All P d (e ∷ es) h = elim (Bool-cases (text_le d.path e.path)) [
  | inl below ↦ subst (λ b. All P (if b then d ∷ e ∷ es else e ∷ insert_by_path d es)) below h
  | inr above ↦
      let k : All P (e ∷ insert_by_path d es) =
        subst (λ b. All P (if b then d ∷ e ∷ es else e ∷ insert_by_path d es)) above h in
      let r = insert_by_path-All P d es k.1 in (r.0, (k.0, r.1))
]

order_by_path-All :
    (P : Directory → Type 0) (ds : List Directory) → All P (order_by_path ds) → All P ds
unfolding order_by_path
order_by_path-All P [] h = tt
order_by_path-All P (d ∷ ds) h =
    let r = insert_by_path-All P d (order_by_path ds) h in (r.0, order_by_path-All P ds r.1)

select-All :
    (P : Directory → Type 0) (p : Directory → Bool) (ds : List Directory)
    → All P (select p ds)
    → All (λ d. p d ≡ true → P d) ds
select-All P p [] h = tt
select-All P p (d ∷ ds) h = elim (Bool-cases (p d)) [
  | inl kept ↦
      let k : All P (d ∷ select p ds) =
        subst (λ b. All P (if b then d ∷ select p ds else select p ds)) kept h in
      (λ _. k.0, select-All P p ds k.1)
  | inr dropped ↦ (
    λ e. absurd (ground (arith, dropped, e)),
    select-All P p ds (subst (λ b. All P (if b then d ∷ select p ds else select p ds)) dropped h),
  )
]

All-Mem : (ds : List Directory) → All (λ d. Mem d ds) ds
All-Mem [] = tt
All-Mem (d ∷ ds) = (mem-cons_self, All-map _ _ ds (λ e m. mem-cons_of_mem d m) (All-Mem ds))

-- The path is the directory's, or lies inside it.
abbrev covers : Text → Directory → Bool
covers path d = text_eq path d.path || is_inside path d.path

module _ (path : Text) (P : Directory → Type 0) where
  abbrev AtMost : Option Directory → Directory → Type 0
  AtMost none d = Unit
  AtMost (some b) d = length d.path ≤ length b.path

  -- The loop's result, started with `best`.
  abbrev Best : Option Directory → List Directory → Option Directory → Type 0
  Best best ds none = (best ≡ none) × All (λ e. covers path e ≡ false) ds
  Best best ds (some d) =
      P d
      × (covers path d ≡ true)
      × AtMost best d
      × All (λ e. covers path e ≡ true → length d.path ≤ length e.path) ds

  abbrev Start : Option Directory → Type 0
  Start none = Unit
  Start (some b) = P b × (covers path b ≡ true)

  better-Start :
      (best : Option Directory) (d : Directory)
      → Start best
      → P d
      → covers path d ≡ true
      → Start (better best d)
  better-Start none d s p c = (p, c)
  better-Start (some b) d s p c = elim (Bool-cases (ltb (length d.path) (length b.path))) [
    | inl e ↦ rw e (p, c)
    | inr e ↦ rw e s
  ]

  seen :
      (best : Option Directory) (d : Directory) (ds : List Directory) (r : Option Directory)
      → covers path d ≡ true
      → Best (better best d) ds r
      → Best best (d ∷ ds) r
  seen none d ds none c h = cc
  seen (some b) d ds none c h = elim (Bool-cases (ltb (length d.path) (length b.path))) [
    | inl e ↦ absurd (ground (arith, h.0, e))
    | inr e ↦ absurd (ground (arith, h.0, e))
  ]
  seen none d ds (some r) c h = (h.0, h.1, tt, (λ _. h.2, h.3))
  seen (some b) d ds (some r) c h = elim (Bool-cases (ltb (length d.path) (length b.path))) [
    | inl e ↦
        let k : length r.path ≤ length d.path =
          subst (λ t. AtMost (if t then some d else some b) r) e h.2 in
        (h.0, h.1, omega (arith, ltb→lt (length d.path) (length b.path) e, k), (λ _. k, h.3))
    | inr e ↦
        let k : length r.path ≤ length b.path =
          subst (λ t. AtMost (if t then some d else some b) r) e h.2 in
        (h.0, h.1, k, (λ _. omega (arith, ltb-le (length d.path) (length b.path) e, k), h.3))
  ]

  passed :
      (best : Option Directory) (d : Directory) (ds : List Directory) (r : Option Directory)
      → covers path d ≡ false
      → Best best ds r
      → Best best (d ∷ ds) r
  passed best d ds none c h = (h.0, (c, h.1))
  passed best d ds (some r) c h = (h.0, h.1, h.2, (λ e. absurd (ground (arith, c, e)), h.3))

  search_loop_lem :
      (best : Option Directory) (ds : List Directory)
      → Start best
      → All P ds
      → Best best ds (search_loop path best ds)
  unfolding search_loop
  search_loop_lem none [] s h = (refl, tt)
  search_loop_lem (some b) [] s h = (s.0, s.1, omega arith, tt)
  search_loop_lem best (d ∷ ds) s h = elim (Bool-cases (text_eq path d.path)) [
    | inl same ↦ rw same (
        seen best d ds _ (ground (arith, same)) (
          search_loop_lem (better best d) ds (better-Start best d s h.0 (ground (arith, same)))
            h.1))
    | inr differs ↦ elim (Bool-cases (is_inside path d.path)) [
      | inl inside ↦
          rw (differs, inside)
            (seen best d ds _ (ground (arith, inside)) (
              search_loop_lem (better best d) ds
                (better-Start best d s h.0 (ground (arith, inside))) h.1))
      | inr outside ↦
          rw (differs, outside)
            (passed best d ds _ (ground (arith, differs, outside)) (search_loop_lem best ds s h.1))
    ]
  ]

-- The loop over the rows of the query, by its own test.
search-covers :
    (path : Text) (db : Sqlite)
    → let absolute = λ (d : Directory). like (codes "/%") d.path in
      ((search_directory_for_path path db ≡ ok none)
        × All (λ d. absolute d ≡ true → covers path d ≡ false) db.tables.directories)
      ⊎ ((d : Directory) × (search_directory_for_path path db ≡ ok (some d))
          × Mem d db.tables.directories
          × (covers path d ≡ true)
          × All
              (λ e. absolute e ≡ true → covers path e ≡ true → length d.path ≤ length e.path)
              db.tables.directories)
unfolding search_directory_for_path get_directories_by_path_prefix
search-covers path db = go (search_loop path none rows) refl (
    search_loop_lem path (λ d. Mem d directories) none rows tt
      (All-order_by_path (λ d. Mem d directories) _
        (All-select (λ d. Mem d directories) absolute directories (All-Mem directories))))
  where
    absolute : Directory → Bool
    absolute d = like (codes "/%") d.path

    directories : List Directory
    directories = db.tables.directories

    rows : List Directory
    rows = get_directories_by_path_prefix (codes "/%") db.tables

    all : (Q : Directory → Type 0) → All Q rows → All (λ d. absolute d ≡ true → Q d) directories
    all Q h =
        select-All Q absolute directories (order_by_path-All Q (select absolute directories) h)

    go :
        (r : Option Directory)
        → search_loop path none rows ≡ r
        → Best path (λ d. Mem d directories) none rows r
        → ((search_directory_for_path path db ≡ ok none)
            × All (λ d. absolute d ≡ true → covers path d ≡ false) directories)
          ⊎ ((d : Directory) × (search_directory_for_path path db ≡ ok (some d))
              × Mem d directories
              × (covers path d ≡ true)
              × All
                  (λ e. absolute e ≡ true → covers path e ≡ true → length d.path ≤ length e.path)
                  directories)
    go none e h = inl (ap ok e, all _ h.1)
    go (some d) e h = inr (d, ap ok e, h.0, h.1, all _ h.3)

-- `path` is the directory's own, or the directory's with a slash and something after it.
abbrev pub Covers : Text → Directory → Type 0
Covers path d = (path ≡ d.path) ⊎ ((rest : Text) × (path ≡ d.path ++ b'/' ∷ rest))

is_inside-rest :
    (path d : Text) → is_inside path d ≡ true → (rest : Text) × (path ≡ d ++ b'/' ∷ rest)
is_inside-rest [] d h = cc
is_inside-rest (c ∷ cs) [] h = (cs, ap (λ x. x ∷ cs) ((==_iff c b'/').0 h))
is_inside-rest (c ∷ cs) (x ∷ xs) h =
    let (rest, e) = is_inside-rest cs xs (ground (arith, h)) in
    let same : c ≡ x = ground (arith, h) in
    (rest, ap (λ t. c ∷ t) e ∙ ap (λ y. y ∷ (xs ++ b'/' ∷ rest)) same)

rest-is_inside : (d rest : Text) → is_inside (d ++ b'/' ∷ rest) d ≡ true
rest-is_inside [] rest = refl
rest-is_inside (x ∷ xs) rest = ground (arith, rest-is_inside xs rest)

covers-Covers : (path : Text) (d : Directory) → covers path d ≡ true → Covers path d
covers-Covers path d h = elim (Bool-cases (text_eq path d.path)) [
  | inl e ↦ inl (text_eq_sound path d.path e)
  | inr e ↦ inr (is_inside-rest path d.path (ground (arith, h, e)))
]

Covers-covers : (path : Text) (d : Directory) → Covers path d → covers path d ≡ true
Covers-covers path d (inl e) = rw (e, text_eq_refl d.path) refl
Covers-covers path d (inr (rest, e)) =
    let inside : is_inside path d.path ≡ true = rw e (rest-is_inside d.path rest) in
    ground (arith, inside)

-- Searching for a path, among the tracked directories with absolute paths. If none is found then
-- the path is none of theirs, nor one of theirs continued by a slash. If one is found then it is
-- tracked, the path is its own or its own continued by a slash, and no directory of which that
-- holds has a shorter path.
pub search_directory_for_path_lem :
    (path : Text) (db : Sqlite)
    → let absolute = λ (d : Directory). like (codes "/%") d.path in
      ((search_directory_for_path path db ≡ ok none)
        × All (λ d. absolute d ≡ true → ¬ Covers path d) db.tables.directories)
      ⊎ ((d : Directory) × (search_directory_for_path path db ≡ ok (some d))
          × Mem d db.tables.directories
          × Covers path d
          × All
              (λ e. absolute e ≡ true → Covers path e → length d.path ≤ length e.path)
              db.tables.directories)
search_directory_for_path_lem path db = elim (search-covers path db) [
  | inl (e, h) ↦ inl (
    e,
    All-map _ _ db.tables.directories (λ d k a c. ground (arith, k a, Covers-covers path d c)) h,
  )
  | inr (d, e, m, c, h) ↦ inr (
    d,
    e,
    m,
    covers-Covers path d c,
    All-map _ _ db.tables.directories (λ x k a c'. k a (Covers-covers path x c')) h,
  )
]
