-- ===== src/Database/Consolidation/Files.antt =====
-- Moving the files of a child directory, and deleting it, loses no file.
use bt_go.Prelude.{
  ◌≡◌, ◌⊎◌, inl, inr, refl, ap, ◌∙◌, Bool, true, false, not, ◌&&◌, Option, none, some, List, [],
  ◌∷◌, map, Text, text_eq, text_eq_iff, text_eq_refl, Result, ok, err, Error, unique_violation,
  foreign_key_violation, any, select, All, All-map, arith, Bool-cases, continue, Option-cases,
}
use bt_go.FilePaths.{join}
use bt_go.Models.{Directory, File}
use bt_go.Database.Rows.{any_and, any-not-not, select_all, any-false}
use bt_go.Database.Tables.{Tables, has_directory, has_file}
use bt_go.Database.Queries.{
  names, update_file, clear_snapshot, update_file_directory_and_name, delete_directory_by_id,
}
use bt_go.Database.Sqlite.{Sqlite}
use bt_go.Database.Consolidation.{move_files}

-- What a move leaves of a file: all but its directory and its name in there.
abbrev pub kept_part : File → Text × Option Text × Bool
kept_part f = (f.id, f.current_snapshot_id, f.deleted)

-- The same files with the same current snapshots, and all snapshots and contents.
pub record Preserved (before after : Tables) : Type 0 where
  pub files : map kept_part after.files ≡ map kept_part before.files
  pub file_snapshots : after.file_snapshots ≡ before.file_snapshots
  pub contents : after.contents ≡ before.contents

pub Preserved-trans : (a b c : Tables) → Preserved a b → Preserved b c → Preserved a c
Preserved-trans a b c h k = record {
  files = k.files ∙ h.files;
  file_snapshots = k.file_snapshots ∙ h.file_snapshots;
  contents = k.contents ∙ h.contents;
}

map-update_file :
    (id : Text) (d n : Text) (files : List File)
    → map kept_part (update_file id (λ f. record f { directory_id = d; name = n }) files)
      ≡ map kept_part files
map-update_file id d n [] = refl
map-update_file id d n (f ∷ fs) = elim (Bool-cases (text_eq f.id id)) [
  | inl e ↦
      rw e
        (ap (λ rest. (f.id, f.current_snapshot_id, f.deleted) ∷ rest) (map-update_file id d n fs))
  | inr e ↦ rw e (ap (λ rest. kept_part f ∷ rest) (map-update_file id d n fs))
]

-- An update by id is refused, finds no row, or moves the row.
pub move_cases :
    (d n id : Text) (db : Tables)
    → let res = update_file_directory_and_name d n id db in
      ((e : Error) × (res ≡ (err e, db)))
      ⊎ ((res ≡ (ok tt, db)) × (has_file id db ≡ false))
      ⊎ (res ≡ (
        ok tt,
        record db {
          files = update_file id (λ f. record f { directory_id = d; name = n }) db.files;
        },
      ))
unfolding update_file_directory_and_name
move_cases d n id db = elim (Bool-cases (has_file id db)) [
  | inr e ↦ inr (inl (rw e refl, e))
  | inl e ↦ elim (Bool-cases (any (λ f. names d n f && not (text_eq f.id id)) db.files)) [
    | inl k ↦ inl (unique_violation, rw (e, k) refl)
    | inr k ↦ elim (Bool-cases (has_directory d db)) [
      | inl l ↦ inr (inr (rw (e, k, l) refl))
      | inr l ↦ inl (foreign_key_violation, rw (e, k, l) refl)
    ]
  ]
]

-- The rows of a directory that are still to be moved are among the listed ones.
abbrev pub Listed : Text → List File → List File → Type 0
Listed child files rows =
    All (λ f. text_eq f.directory_id child ≡ true → any (λ g. text_eq g.id f.id) files ≡ true) rows

pub Listed-self :
    (child : Text) (rows : List File)
    → Listed child (select (λ f. text_eq f.directory_id child) rows) rows
Listed-self child [] = tt
Listed-self child (f ∷ fs) = elim (Bool-cases (text_eq f.directory_id child)) [
  | inl e ↦ rw e (
    λ _. ground (arith, text_eq_refl f.id),
    All-map _ _ fs (λ x h k. ground (arith, h k)) (Listed-self child fs),
  )
  | inr e ↦ (
    λ k. absurd (ground (arith, e, k)),
    All-map _ _ fs (λ x h k. rw e (h k)) (Listed-self child fs),
  )
]

Listed-none :
    (child : Text) (rows : List File)
    → Listed child [] rows
    → any (λ f. text_eq f.directory_id child) rows ≡ false
Listed-none child [] h = refl
Listed-none child (f ∷ fs) h = ground (arith, h.0, Listed-none child fs h.1)

-- A listed id that no row has, or whose rows have been moved elsewhere, can be dropped.
Listed-absent :
    (child : Text) (file : File) (files rows : List File)
    → any (λ f. text_eq f.id file.id) rows ≡ false
    → Listed child (file ∷ files) rows
    → Listed child files rows
Listed-absent child file files [] absent h = tt
Listed-absent child file files (f ∷ fs) absent h = (
  λ e. ground (arith, h.0 e, text_eq_iff file.id f.id, text_eq_iff f.id file.id, absent),
  Listed-absent child file files fs (ground (arith, absent)) h.1,
)

Listed-moved :
    (child d n : Text) (file : File) (files rows : List File)
    → text_eq d child ≡ false
    → Listed child (file ∷ files) rows
    → Listed child files (update_file file.id (λ f. record f { directory_id = d; name = n }) rows)
Listed-moved child d n file files [] away h = tt
Listed-moved child d n file files (f ∷ fs) away h = elim (Bool-cases (text_eq f.id file.id)) [
  | inl e ↦
      rw e (λ k. absurd (ground (arith, away, k)), Listed-moved child d n file files fs away h.1)
  | inr e ↦ rw e (
    λ k. ground (arith, h.0 k, text_eq_iff file.id f.id, text_eq_iff f.id file.id, e),
    Listed-moved child d n file files fs away h.1,
  )
]

-- After the files of a list have been moved to a directory.
abbrev pub Moved : Directory → List File → Tables → Result (Unit {0}) × Sqlite → Type 0
Moved new_dir files before (err e, after) = Unit
Moved new_dir files before (ok _, after) =
    Preserved before after.tables
    × (after.tables.directories ≡ before.directories)
    × ((child : Text)
        → text_eq new_dir.id child ≡ false
        → Listed child files before.files
        → any (λ f. text_eq f.directory_id child) after.tables.files ≡ false)

Moved-more :
    (new_dir : Directory) (file : File) (files : List File) (before middle : Tables)
    (res : Result (Unit {0}) × Sqlite)
    → Preserved before middle
    → middle.directories ≡ before.directories
    → ((child : Text)
        → text_eq new_dir.id child ≡ false
        → Listed child (file ∷ files) before.files
        → Listed child files middle.files)
    → Moved new_dir files middle res
    → Moved new_dir (file ∷ files) before res
Moved-more new_dir file files before middle (err e, after) kept dirs less h = tt
Moved-more new_dir file files before middle (ok _, after) kept dirs less h = (
  Preserved-trans before middle after.tables kept h.0,
  h.1 ∙ dirs,
  λ child away listed. h.2 child away (less child away listed),
)

pub move_files_lem :
    (new_dir : Directory) (rel_path : Text) (files : List File) (db : Sqlite)
    → Moved new_dir files db.tables (move_files new_dir rel_path files db)
unfolding move_files
move_files_lem new_dir rel_path [] db = (
  record { files = refl; file_snapshots = refl; contents = refl },
  refl,
  λ child away listed. Listed-none child db.tables.files listed,
)
move_files_lem new_dir rel_path (file ∷ files) db =
    elim (move_cases new_dir.id (join rel_path file.name) file.id db.tables) [
      | inl (e, h) ↦ rw (h, continue) tt
      | inr (inl (h, absent)) ↦
          rw (h, continue)
            (Moved-more new_dir file files db.tables db.tables _
              (record { files = refl; file_snapshots = refl; contents = refl }) refl
              (λ child away listed. Listed-absent child file files db.tables.files absent listed)
              (move_files_lem new_dir rel_path files db))
      | inr (inr h) ↦
          rw (h, continue)
            (Moved-more new_dir file files db.tables moved.tables _
              (record {
                files = map-update_file file.id new_dir.id name db.tables.files;
                file_snapshots = refl;
                contents = refl;
              })
              refl
              (λ child away listed.
                Listed-moved child new_dir.id name file files db.tables.files away listed)
              (move_files_lem new_dir rel_path files moved))
    ]
  where
    name : Text
    name = join rel_path file.name

    moved : Sqlite
    moved = record db {
      tables = record db.tables {
        files =
            update_file file.id (λ f. record f { directory_id = new_dir.id; name = name })
              db.tables.files;
      };
    }

-- Deleting a directory that no file is in.
map-clear_snapshot :
    (gone : Text → Bool) (files : List File)
    → ((s : Text) → gone s ≡ false)
    → map kept_part (map (clear_snapshot gone) files) ≡ map kept_part files
map-clear_snapshot gone [] h = refl
map-clear_snapshot gone (f ∷ fs) h = elim (Option-cases f.current_snapshot_id) [
  | inl e ↦ rw e (ap (λ rest. (f.id, none, f.deleted) ∷ rest) (map-clear_snapshot gone fs h))
  | inr (s, e) ↦
      rw (e, h s) (ap (λ rest. (f.id, some s, f.deleted) ∷ rest) (map-clear_snapshot gone fs h))
]

pub delete_directory_by_id_lem :
    (id : Text) (db : Tables)
    → any (λ f. text_eq f.directory_id id) db.files ≡ false
    → Preserved db (delete_directory_by_id id db)
unfolding delete_directory_by_id
delete_directory_by_id_lem id db none_in = record {
  files =
      map-clear_snapshot gone _ gone_none
      ∙ ap (map kept_part) (select_all _ db.files (any-not-not _ db.files none_in));
  file_snapshots =
      select_all _ db.file_snapshots (
        any-not-not _ db.file_snapshots (any-false _ db.file_snapshots (λ r. lost_none r.file_id)));
  contents = refl;
}
  where
    lost : Text → Bool
    lost file_id = any (λ f. text_eq f.id file_id && text_eq f.directory_id id) db.files

    gone : Text → Bool
    gone s = any (λ r. text_eq r.id s && lost r.file_id) db.file_snapshots

    lost_none : (file_id : Text) → lost file_id ≡ false
    lost_none file_id = any_and (λ f. text_eq f.id file_id) _ db.files none_in

    gone_none : (s : Text) → gone s ≡ false
    gone_none s =
        any_and (λ r. text_eq r.id s) _ db.file_snapshots
          (any-false _ db.file_snapshots (λ r. lost_none r.file_id))
