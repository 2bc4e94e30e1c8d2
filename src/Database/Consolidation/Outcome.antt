-- ===== src/Database/Consolidation/Outcome.antt =====
-- What the creation of a directory leaves in the tables.
use bt_go.Prelude.{
  suc, ◌≡◌, inl, inr, refl, sym, ap, ◌∙◌, Bool, false, not, ◌||◌, List, [], ◌∷◌, ◌++◌, Text, codes,
  text_eq, text_eq_iff, Result, ok, err, any, select, All, arith, Bool-cases, if◌then◌else◌,
  continue, continue_cases, ◌>>◌,
}
use bt_go.FilePaths.{rel}
use bt_go.Models.{Directory, File}
use bt_go.Database.Like.{text_le}
use bt_go.Database.Rows.{All-select}
use bt_go.Database.Tables.{Tables, has_directory}
use bt_go.Database.Queries.{
  insert_by_path, order_by_path, get_directories_by_path_prefix, get_files_by_directory_id,
  insert_directory, delete_directory_by_id,
}
use bt_go.Database.Sqlite.{Sources, Sqlite, exec}
use bt_go.Database.Consolidation.{move_files, move_child, move_children, create_body}
use bt_go.Database.Consolidation.Files.{
  Preserved, Preserved-trans, Moved, Listed-self, move_files_lem, delete_directory_by_id_lem,
}

All-insert_by_path :
    (P : Directory → Type 0) (d : Directory) (ds : List Directory)
    → P d
    → All P ds
    → All P (insert_by_path d ds)
unfolding insert_by_path
All-insert_by_path P d [] p h = (p, tt)
All-insert_by_path P d (e ∷ es) p h = elim (Bool-cases (text_le d.path e.path)) [
  | inl below ↦ rw below (p, h)
  | inr above ↦ rw above (h.0, All-insert_by_path P d es p h.1)
]

pub All-order_by_path :
    (P : Directory → Type 0) (ds : List Directory) → All P ds → All P (order_by_path ds)
unfolding order_by_path
All-order_by_path P [] h = tt
All-order_by_path P (d ∷ ds) h =
    All-insert_by_path P d (order_by_path ds) h.0 (All-order_by_path P ds h.1)

-- The rows that a list of children does not name.
abbrev pub without : List Directory → List Directory → List Directory
without children ds = select (λ d. not (any (λ c. text_eq d.id c.id) children)) ds

without_none : (ds : List Directory) → ds ≡ without [] ds
without_none [] = refl
without_none (d ∷ ds) = ap (λ rest. d ∷ rest) (without_none ds)

without_one :
    (child : Directory) (ds : List Directory)
    → without (child ∷ []) ds ≡ select (λ d. not (text_eq d.id child.id)) ds
without_one child [] = refl
without_one child (d ∷ ds) = ground (arith, without_one child ds)

-- After children were consolidated: no file is lost, and their rows are gone.
abbrev Consolidated : List Directory → Tables → Result (Unit {0}) × Sqlite → Type 0
Consolidated children before (err e, after) = Unit
Consolidated children before (ok _, after) =
    Preserved before after.tables × (after.tables.directories ≡ without children before.directories)

after_move :
    (new_dir child : Directory) (db : Sqlite) (res : Result (Unit {0}) × Sqlite)
    → text_eq new_dir.id child.id ≡ false
    → Moved new_dir (get_files_by_directory_id child.id db.tables) db.tables res
    → Consolidated
        (child ∷ [])
        db.tables
        (continue res.0 (λ _. exec (delete_directory_by_id child.id)) res.1)
unfolding get_files_by_directory_id delete_directory_by_id
after_move new_dir child db (err e, after) away moved = tt
after_move new_dir child db (ok _, after) away moved = (
  Preserved-trans db.tables after.tables _ moved.0 (
      delete_directory_by_id_lem child.id after.tables
        (moved.2 child.id away (Listed-self child.id db.tables.files))),
  sym (without_one child after.tables.directories) ∙ ap (without (child ∷ [])) moved.1,
)

move_child_lem :
    (path : Text) (new_dir child : Directory) (db : Sqlite)
    → text_eq new_dir.id child.id ≡ false
    → Consolidated (child ∷ []) db.tables (move_child path new_dir child db)
unfolding move_child
move_child_lem path new_dir child db away =
    continue_cases (Consolidated (child ∷ []) db.tables)
      (λ rel_path. move_files new_dir rel_path files >> exec (delete_directory_by_id child.id)) db
      (rel path child.path) (λ e h. tt)
      (λ rel_path h. after_move new_dir child db _ away (move_files_lem new_dir rel_path files db))
  where
    files : List File
    files = get_files_by_directory_id child.id db.tables

without-without :
    (child : Directory) (children ds : List Directory)
    → without children (without (child ∷ []) ds) ≡ without (child ∷ children) ds
without-without child children [] = refl
without-without child children (d ∷ ds) = ground (arith, without-without child children ds)

children_after :
    (path : Text) (new_dir child : Directory) (children : List Directory) (before : Tables)
    (res : Result (Unit {0}) × Sqlite)
    → Consolidated (child ∷ []) before res
    → ((db : Sqlite) → Consolidated children db.tables (move_children path new_dir children db))
    → Consolidated
        (child ∷ children)
        before
        (continue res.0 (λ _. move_children path new_dir children) res.1)
children_after path new_dir child children before (err e, middle) h rest = tt
children_after path new_dir child children before (ok _, middle) h rest =
    go (move_children path new_dir children middle) (rest middle)
  where
    go :
        (res : Result (Unit {0}) × Sqlite)
        → Consolidated children middle.tables res
        → Consolidated (child ∷ children) before res
    go (err e, after) k = tt
    go (ok _, after) k = (
      Preserved-trans before middle.tables after.tables h.0 k.0,
      k.1 ∙ ap (without children) h.1 ∙ without-without child children before.directories,
    )

move_children_lem :
    (path : Text) (new_dir : Directory) (children : List Directory) (db : Sqlite)
    → All (λ c. text_eq new_dir.id c.id ≡ false) children
    → Consolidated children db.tables (move_children path new_dir children db)
unfolding move_children
move_children_lem path new_dir [] db away = (
  record { files = refl; file_snapshots = refl; contents = refl },
  without_none db.tables.directories,
)
move_children_lem path new_dir (child ∷ children) db away =
    children_after path new_dir child children db.tables (move_child path new_dir child db)
      (move_child_lem path new_dir child db away.0)
      (λ db'. move_children_lem path new_dir children db' away.1)

away-All :
    (id : Text) (ds : List Directory)
    → any (λ d. text_eq d.id id) ds ≡ false
    → All (λ d. text_eq id d.id ≡ false) ds
away-All id [] h = tt
away-All id (d ∷ ds) h = (
  ground (arith, h, text_eq_iff id d.id, text_eq_iff d.id id),
  away-All id ds (ground (arith, h)),
)

module _ (env : Sources) (path : Text) (encrypted : Bool) where
  -- The row that is inserted.
  abbrev pub new_directory : Sqlite → Directory
  new_directory db = record {
    id = env.new_id db.ids;
    path = path;
    created_at = env.now db.clock;
    encrypted = if encrypted then 1 else 0;
  }

  -- The directories that match the pattern for what lies below the path.
  abbrev pub children : Sqlite → List Directory
  children db = get_directories_by_path_prefix (path ++ codes "/%") db.tables

  abbrev pub Created : Sqlite → Result Directory × Sqlite → Type 0
  Created db (err e, after) = Unit
  Created db (ok d, after) =
      (d ≡ new_directory db)
      × Preserved db.tables after.tables
      × (after.tables.directories
          ≡ without (children db) (db.tables.directories ++ new_directory db ∷ []))

  pub children_away :
      (db : Sqlite)
      → has_directory (new_directory db).id db.tables ≡ false
      → All (λ c. text_eq (new_directory db).id c.id ≡ false) (children db)
  unfolding get_directories_by_path_prefix
  children_away db fresh = All-order_by_path _ _ (
      All-select _ _ db.tables.directories
        (away-All (env.new_id db.ids) db.tables.directories fresh))

  pub create_body_lem : (db : Sqlite) → Created db (create_body env path encrypted db)
  unfolding create_body insert_directory
  create_body_lem db =
      elim (Bool-cases
        (has_directory d.id db.tables || any (λ e. text_eq e.path d.path) db.tables.directories)) [
          | inl taken ↦ rw (taken, continue) tt
          | inr free ↦
              rw (free, continue)
                (go _ (
                  move_children_lem path d (children db) inserted
                    (children_away db (ground (arith, free)))))
        ]
    where
      d : Directory
      d = new_directory db

      inserted : Sqlite
      inserted = record {
        tables = record db.tables { directories = db.tables.directories ++ d ∷ [] };
        ids = suc db.ids;
        clock = suc db.clock;
      }

      go :
          (res : Result (Unit {0}) × Sqlite)
          → Consolidated (children db) inserted.tables res
          → Created db (continue res.0 (λ _ s. (ok d, s)) res.1)
      go (err e, after) h = tt
      go (ok _, after) h = (
        refl,
        record { files = h.0.files; file_snapshots = h.0.file_snapshots; contents = h.0.contents },
        h.1,
      )
