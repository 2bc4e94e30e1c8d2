-- ===== src/Database/Consolidation/Rows.antt =====
-- What a consolidation keeps of every row of the files.
use bt_go.Prelude.{
  ◌≡◌, inl, inr, Bool, true, false, not, List, [], ◌∷◌, map, Text, text_eq, Result, ok, err, select,
  All, All-map, Bool-cases, continue, continue_cases, ◌>>◌,
}
use bt_go.FilePaths.{rel, join}
use bt_go.Models.{Directory, File}
use bt_go.Database.Queries.{
  clear_snapshot, update_file, get_files_by_directory_id, delete_directory_by_id,
}
use bt_go.Database.Sqlite.{Sqlite, exec}
use bt_go.Database.Consolidation.{move_files, move_child, move_children}
use bt_go.Database.Consolidation.Files.{move_cases}

-- A file that was moved.
abbrev pub moved_to : Text → Text → File → File
moved_to d n f = record f { directory_id = d; name = n }

select_passed :
    (P : File → Type 0) (p : File → Bool) (rows : List File)
    → All P rows
    → All (λ f. P f × (p f ≡ true)) (select p rows)
select_passed P p [] h = tt
select_passed P p (f ∷ fs) h = elim (Bool-cases (p f)) [
  | inl e ↦ rw e ((h.0, e), select_passed P p fs h.1)
  | inr e ↦ rw e (select_passed P p fs h.1)
]

-- A property of rows that a move into the new directory keeps, and that does not read the current
-- snapshot.
module _ (path : Text) (new_dir : Directory) (P : File → Type 0)
    (clears : (gone : Text → Bool) (f : File) → P f → P (clear_snapshot gone f)) where
  abbrev pub Moves : Directory → Type 0
  Moves child =
      (f g : File) (rel_path : Text)
      → rel path child.path ≡ ok rel_path
      → text_eq f.directory_id child.id ≡ true
      → P f
      → text_eq g.id f.id ≡ true
      → P (moved_to new_dir.id (join rel_path f.name) g)

  -- The rows are still so when the steps succeeded.
  abbrev pub Keeps : Result (Unit {0}) × Sqlite → Type 0
  Keeps (err e, after) = Unit
  Keeps (ok _, after) = All P after.tables.files

  update_file-All :
      (id d n : Text) (rows : List File)
      → ((g : File) → text_eq g.id id ≡ true → P (moved_to d n g))
      → All P rows
      → All P (update_file id (moved_to d n) rows)
  update_file-All id d n [] moved h = tt
  update_file-All id d n (f ∷ fs) moved h = elim (Bool-cases (text_eq f.id id)) [
    | inl e ↦ rw e (moved f e, update_file-All id d n fs moved h.1)
    | inr e ↦ rw e (h.0, update_file-All id d n fs moved h.1)
  ]

  move_files-Keeps :
      (child : Directory) (rel_path : Text) (files : List File) (db : Sqlite)
      → Moves child
      → rel path child.path ≡ ok rel_path
      → All (λ f. P f × (text_eq f.directory_id child.id ≡ true)) files
      → All P db.tables.files
      → Keeps (move_files new_dir rel_path files db)
  unfolding move_files
  move_files-Keeps child rel_path [] db moves r listed h = h
  move_files-Keeps child rel_path (file ∷ files) db moves r listed h =
      elim (move_cases new_dir.id (join rel_path file.name) file.id db.tables) [
        | inl (e, k) ↦ rw (k, continue) tt
        | inr (inl (k, absent)) ↦
            rw (k, continue) (move_files-Keeps child rel_path files db moves r listed.1 h)
        | inr (inr k) ↦
            rw (k, continue)
              (move_files-Keeps child rel_path files _ moves r listed.1 (
                update_file-All file.id new_dir.id (join rel_path file.name) db.tables.files
                  (λ g same. moves file g rel_path r listed.0.1 listed.0.0 same) h))
      ]

  -- The rows outside of the directory, without snapshots that are gone.
  left-All :
      (id : Text) (gone : Text → Bool) (rows : List File)
      → All P rows
      → All
          (λ f. P f × (text_eq f.directory_id id ≡ false))
          (map (clear_snapshot gone) (select (λ f. not (text_eq f.directory_id id)) rows))
  left-All id gone [] h = tt
  left-All id gone (f ∷ fs) h = elim (Bool-cases (text_eq f.directory_id id)) [
    | inl e ↦ rw e (left-All id gone fs h.1)
    | inr e ↦ rw e ((clears gone f h.0, e), left-All id gone fs h.1)
  ]

  -- The rows are so, and none is in the directory.
  abbrev pub Left : Text → Result (Unit {0}) × Sqlite → Type 0
  Left id (err e, after) = Unit
  Left id (ok _, after) = All (λ f. P f × (text_eq f.directory_id id ≡ false)) after.tables.files

  after_moves :
      (id : Text) (res : Result (Unit {0}) × Sqlite)
      → Keeps res
      → Left id (continue res.0 (λ _. exec (delete_directory_by_id id)) res.1)
  unfolding delete_directory_by_id
  after_moves id (err e, after) h = tt
  after_moves id (ok _, after) h = left-All id _ after.tables.files h

  pub move_child-Left :
      (child : Directory) (db : Sqlite)
      → Moves child
      → All P db.tables.files
      → Left child.id (move_child path new_dir child db)
  unfolding move_child get_files_by_directory_id
  move_child-Left child db moves h =
      continue_cases (Left child.id)
        (λ rel_path. move_files new_dir rel_path files >> exec (delete_directory_by_id child.id)) db
        (rel path child.path) (λ e k. tt)
        (λ rel_path k. after_moves child.id (move_files new_dir rel_path files db) (
          move_files-Keeps child rel_path files db moves k
            (select_passed P (λ f. text_eq f.directory_id child.id) db.tables.files h) h))
    where
      files : List File
      files = get_files_by_directory_id child.id db.tables

  pub move_children-Keeps :
      (children : List Directory) (db : Sqlite)
      → All Moves children
      → All P db.tables.files
      → Keeps (move_children path new_dir children db)
  unfolding move_children
  move_children-Keeps [] db moves h = h
  move_children-Keeps (child ∷ children) db moves h =
      go (move_child path new_dir child db) (move_child-Left child db moves.0 h)
        (λ db' k. move_children-Keeps children db' moves.1 k)
    where
      go :
          (res : Result (Unit {0}) × Sqlite)
          → Left child.id res
          → ((db' : Sqlite)
              → All P db'.tables.files
              → Keeps (move_children path new_dir children db'))
          → Keeps (continue res.0 (λ _. move_children path new_dir children) res.1)
      go (err e, after) k rest = tt
      go (ok _, after) k rest = rest after (All-map _ P after.tables.files (λ f x. x.0) k)
