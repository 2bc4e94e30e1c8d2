-- ===== src/Database/Consolidation/Placed.antt =====
-- Where CreateDirectory, internal/database/sqlite.go, leaves the files.
use mathlib.Core.List.{Mem, mem-cons_self, mem-cons_of_mem}
use bt_go.Prelude.{
  suc, ◌≡◌, ◌⊎◌, inl, inr, refl, sym, ap, ◌∙◌, Bool, false, ◌||◌, List, [], ◌∷◌, ◌++◌, Text,
  text_eq, text_eq_sound, text_eq_refl, Result, ok, err, Error, any, All, All-map, arith,
  Bool-cases, continue,
}
use bt_go.FilePaths.{rel, join}
use bt_go.Models.{Directory, File}
use bt_go.Database.Tables.{has_directory}
use bt_go.Database.Queries.{insert_directory}
use bt_go.Database.Sqlite.{Sources, Sqlite, settle, transaction}
use bt_go.Database.Consolidation.{move_children, move_child, create_body, create_directory}
use bt_go.Database.Consolidation.Files.{Preserved}
use bt_go.Database.Consolidation.Rows.{Moves, Keeps, Left, move_child-Left, move_children-Keeps}
use bt_go.Database.Consolidation.Outcome.{
  without, new_directory, children, children_away, Created, create_body_lem,
}

All-Mem : {A : Type 0} (xs : List A) → All (λ x. Mem x xs) xs
All-Mem [] = tt
All-Mem (x ∷ xs) = (mem-cons_self, All-map _ _ xs (λ y m. mem-cons_of_mem x m) (All-Mem xs))

module _ (path : Text) (new_dir : Directory) (dirs : List Directory) (before : List File) where
  -- The file was in one of the directories, and has moved from there to the new one, under its
  -- name behind the relative path of its old directory.
  abbrev pub MovedFrom : File → File → Type 0
  MovedFrom f g =
      (g.directory_id ≡ new_dir.id)
      × (c : Directory) × Mem c dirs
      × (f.directory_id ≡ c.id)
      × (r : Text) × (rel path c.path ≡ ok r)
      × (g.name ≡ join r f.name)

  -- A row was there under its id, and has stayed in its place or moved.
  abbrev pub Placed : File → Type 0
  Placed g =
      (f : File) × Mem f before
      × (f.id ≡ g.id)
      × (((g.directory_id ≡ f.directory_id) × (g.name ≡ f.name)) ⊎ MovedFrom f g)

  Placed-Moves :
      (child : Directory)
      → Mem child dirs
      → text_eq new_dir.id child.id ≡ false
      → Moves path new_dir Placed (λ gone f h. h) child
  Placed-Moves child m away f g r e inside (f0, there, id, inl (dir, name)) same = (
    f0,
    there,
    id ∙ sym (text_eq_sound g.id f.id same),
    inr (
      refl,
      child,
      m,
      sym dir ∙ text_eq_sound f.directory_id child.id inside,
      r,
      e,
      ap (join r) name,
    ),
  )
  Placed-Moves child m away f g r e inside (f0, there, id, inr moved) same =
      let at_new : new_dir.id ≡ child.id =
        sym moved.0 ∙ text_eq_sound f.directory_id child.id inside in
      absurd (ground (arith, away, at_new, text_eq_refl child.id))

  All-Placed-Moves :
      (cs : List Directory)
      → All (λ c. Mem c dirs) cs
      → All (λ c. text_eq new_dir.id c.id ≡ false) cs
      → All (Moves path new_dir Placed (λ gone f h. h)) cs
  All-Placed-Moves [] m away = tt
  All-Placed-Moves (c ∷ cs) m away = (Placed-Moves c m.0 away.0, All-Placed-Moves cs m.1 away.1)

  start : (fs : List File) → All (λ f. Mem f before) fs → All Placed fs
  start [] h = tt
  start (f ∷ fs) h = ((f, h.0, refl, inl (refl, refl)), start fs h.1)

-- No row is in the directory.
abbrev pub Empty : List File → Directory → Type 0
Empty rows c = All (λ f. text_eq f.directory_id c.id ≡ false) rows

abbrev AllEmpty : List Directory → Result (Unit {0}) × Sqlite → Type 0
AllEmpty cs (err e, after) = Unit
AllEmpty cs (ok _, after) = All (Empty after.tables.files) cs

All-Moves-outside :
    (path : Text) (new_dir child : Directory) (cs : List Directory)
    → text_eq new_dir.id child.id ≡ false
    → All (Moves path new_dir (λ f. text_eq f.directory_id child.id ≡ false) (λ gone f h. h)) cs
All-Moves-outside path new_dir child [] away = tt
All-Moves-outside path new_dir child (c ∷ cs) away =
    (λ f g r e inside h same. away, All-Moves-outside path new_dir child cs away)

move_children-AllEmpty :
    (path : Text) (new_dir : Directory) (cs : List Directory) (db : Sqlite)
    → All (λ c. text_eq new_dir.id c.id ≡ false) cs
    → AllEmpty cs (move_children path new_dir cs db)
unfolding move_children
move_children-AllEmpty path new_dir [] db away = tt
move_children-AllEmpty path new_dir (child ∷ cs) db away =
    go (move_child path new_dir child db)
      (move_child-Left path new_dir (λ f. Unit {0}) (λ gone f h. tt) child db
        (λ f g r e inside h same. tt) (trivial db.tables.files))
      (λ db'. move_children-AllEmpty path new_dir cs db' away.1)
  where
    trivial : (fs : List File) → All (λ f. Unit {0}) fs
    trivial [] = tt
    trivial (f ∷ fs) = (tt, trivial fs)

    both :
        (res : Result (Unit {0}) × Sqlite)
        → Keeps path new_dir (λ f. text_eq f.directory_id child.id ≡ false) (λ gone f h. h) res
        → AllEmpty cs res
        → AllEmpty (child ∷ cs) res
    both (err e, after) h k = tt
    both (ok _, after) h k = (h, k)

    go :
        (res : Result (Unit {0}) × Sqlite)
        → Left path new_dir (λ f. Unit {0}) (λ gone f h. tt) child.id res
        → ((db' : Sqlite) → AllEmpty cs (move_children path new_dir cs db'))
        → AllEmpty (child ∷ cs) (continue res.0 (λ _. move_children path new_dir cs) res.1)
    go (err e, after) k rest = tt
    go (ok _, after) k rest =
        both (move_children path new_dir cs after)
          (move_children-Keeps path new_dir (λ f. text_eq f.directory_id child.id ≡ false)
            (λ gone f h. h) cs after (All-Moves-outside path new_dir child cs away.0)
            (All-map _ _ after.tables.files (λ f h. h.1) k))
          (rest after)

module _ (env : Sources) (path : Text) (encrypted : Bool) where
  abbrev PlacedAll : Sqlite → Result Directory × Sqlite → Type 0
  PlacedAll db (err e, after) = Unit
  PlacedAll db (ok d, after) =
      All
        (Placed path (new_directory env path encrypted db) (children env path encrypted db)
          db.tables.files)
        after.tables.files
      × All (Empty after.tables.files) (children env path encrypted db)

  create_body-PlacedAll : (db : Sqlite) → PlacedAll db (create_body env path encrypted db)
  unfolding create_body insert_directory
  create_body-PlacedAll db =
      elim (Bool-cases
        (has_directory d.id db.tables || any (λ e. text_eq e.path d.path) db.tables.directories)) [
          | inl taken ↦ rw (taken, continue) tt
          | inr free ↦
              let away = children_away env path encrypted db (ground (arith, free)) in
              rw (free, continue)
                (go (move_children path d dirs inserted)
                  (move_children-Keeps path d (Placed path d dirs files) (λ gone f h. h) dirs
                    inserted (All-Placed-Moves path d dirs files dirs (All-Mem dirs) away)
                    (start path d dirs files files (All-Mem files)))
                  (move_children-AllEmpty path d dirs inserted away))
        ]
    where
      d : Directory
      d = new_directory env path encrypted db

      dirs : List Directory
      dirs = children env path encrypted db

      files : List File
      files = db.tables.files

      inserted : Sqlite
      inserted = record db {
        tables = record db.tables { directories = db.tables.directories ++ d ∷ [] };
        ids = suc db.ids;
        clock = suc db.clock;
      }

      go :
          (res : Result (Unit {0}) × Sqlite)
          → Keeps path d (Placed path d dirs files) (λ gone f h. h) res
          → AllEmpty dirs res
          → PlacedAll db (continue res.0 (λ _ s. (ok d, s)) res.1)
      go (err e, after) h k = tt
      go (ok _, after) h k = (h, k)

  -- Tracking a directory. Either it fails and the tables are as before, or the new directory is
  -- returned and tracked, and exactly the directories that match the pattern for its children are
  -- gone. No file, snapshot or content record is lost: the files are the same ones in the same
  -- order, with the same current snapshots. Each has stayed in its directory under its name, or was
  -- in a directory that is gone and has moved to the new one, under its name behind the old
  -- directory's relative path; and no file is left in a directory that is gone.
  pub create_directory_lem :
      (db : Sqlite)
      → let res = create_directory env path encrypted db in
        let d = new_directory env path encrypted db in
        let gone = children env path encrypted db in
        ((e : Error) × (res.0 ≡ err e) × (res.1.tables ≡ db.tables))
        ⊎ ((res.0 ≡ ok d)
            × Preserved db.tables res.1.tables
            × (res.1.tables.directories ≡ without gone (db.tables.directories ++ d ∷ []))
            × All (Placed path d gone db.tables.files) res.1.tables.files
            × All (Empty res.1.tables.files) gone)
  unfolding create_directory transaction
  create_directory_lem db =
      go (create_body env path encrypted db) (create_body_lem env path encrypted db)
        (create_body-PlacedAll db)
    where
      d : Directory
      d = new_directory env path encrypted db

      dirs : List Directory
      dirs = children env path encrypted db

      go :
          (res : Result Directory × Sqlite)
          → Created env path encrypted db res
          → PlacedAll db res
          → let settled = settle db.tables res in
            ((e : Error) × (settled.0 ≡ err e) × (settled.1.tables ≡ db.tables))
            ⊎ ((settled.0 ≡ ok d)
                × Preserved db.tables settled.1.tables
                × (settled.1.tables.directories ≡ without dirs (db.tables.directories ++ d ∷ []))
                × All (Placed path d dirs db.tables.files) settled.1.tables.files
                × All (Empty settled.1.tables.files) dirs)
      go (err e, after) h k = inl (e, refl, refl)
      go (ok x, after) h k = inr (ap ok h.0, h.1, h.2, k.0, k.1)
