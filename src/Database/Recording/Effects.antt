-- ===== src/Database/Recording/Effects.antt =====
-- What the steps of a recording do to the tables.
use bt_go.Prelude.{
  ℕ, ◌≡◌, ◌⊎◌, inl, inr, refl, ◌∙◌, true, false, Option, none, some, [], ◌∷◌, ◌++◌, Text, text_eq,
  text_eq_iff, text_eq_refl, Result, ok, err, Error, continue, any, arith, if◌then◌else◌,
  Option-cases,
}
use bt_go.Models.{Time, File, FileSnapshot, Content}
use bt_go.Database.Rows.{or_else, find_first-append, any-append, any_of_some}
use bt_go.Database.Tables.{Tables, has_file, has_snapshot, has_content}
use bt_go.Database.Queries.{
  names, get_file_by_directory_and_name, insert_file, update_file, update_file_current_snapshot,
  get_content_by_id, insert_content,
}
use bt_go.Database.Sqlite.{Sources, Sqlite}
use bt_go.Database.Recording.{add_snapshot, find_or_insert_file, ensure_content, ensure_contents}
use bt_go.Database.Recording.Inserts.{
  found_content, found_file, new_content, new_file, insert_file_cases, insert_content_cases,
  insert_file_snapshot_cases,
}

module _ (env : Sources) where
  -- The step fails and changes no table, or leaves the tables with the file.
  abbrev pub FileStep : Text → Text → Tables → Result File × Sqlite → Type 0
  FileStep d r before (err e, db) = db.tables ≡ before
  FileStep d r before (ok file, db) =
      (found_file d r db.tables ≡ some file)
      × (db.tables.contents ≡ before.contents)
      × (db.tables.file_snapshots ≡ before.file_snapshots)
      × (db.tables.directories ≡ before.directories)

  pub file_step :
      (d r : Text) (db : Sqlite) → FileStep d r db.tables (find_or_insert_file env d r db)
  unfolding find_or_insert_file get_file_by_directory_and_name insert_file
  file_step d r db = elim (Option-cases (found_file d r db.tables)) [
    | inl e ↦
        rw (e, continue)
          (elim (insert_file_cases (new_file (env.new_id db.ids) d r) db.tables) [
            | inl (x, h) ↦ rw h refl
            | inr h ↦ rw h.0 (
              find_first-append (names d r) db.tables.files (new_file (env.new_id db.ids) d r)
                  ∙ ground (arith, e, text_eq_refl d, text_eq_refl r),
              refl,
              refl,
              refl,
            )
          ])
    | inr (file, e) ↦ rw (e, continue) (e, refl, refl, refl)
  ]

  -- A content step changes the contents only, and there only adds a row where there was none.
  abbrev pub ContentStep : Text → Option Text → Tables → Result (Unit {0}) × Sqlite → Type 0
  ContentStep id link before (err e, db) = db.tables ≡ before
  ContentStep id link before (ok _, db) =
      (time : Time) × ((k : Text)
        → found_content k db.tables
          ≡ or_else (found_content k before)
              (if text_eq id k then some (new_content id time link) else none))
      × (db.tables.files ≡ before.files)
      × (db.tables.file_snapshots ≡ before.file_snapshots)
      × (db.tables.directories ≡ before.directories)

  pub content_step :
      (id : Text) (link : Option Text) (db : Sqlite)
      → ContentStep id link db.tables (ensure_content env id link db)
  unfolding ensure_content get_content_by_id insert_content
  content_step id link db = elim (Option-cases (found_content id db.tables)) [
    | inl e ↦
        rw (e, continue)
          (elim (insert_content_cases (new_content id (env.now db.clock) link) db.tables) [
            | inl (x, h) ↦ rw (h, continue) refl
            | inr h ↦
                rw (h.0, continue)
                  (
                    env.now db.clock,
                    λ k.
                        find_first-append _ db.tables.contents
                          (new_content id (env.now db.clock) link),
                    refl,
                    refl,
                    refl,
                  )
          ])
    | inr (c, e) ↦
        rw (e, continue) (env.now 0, λ k. ground (arith, e, text_eq_iff id k), refl, refl, refl)
  ]

  -- Both content steps of an encrypted file, or the one of a plain file.
  abbrev pub ContentsStep : Text → Text → Tables → Result (Unit {0}) × Sqlite → Type 0
  ContentsStep id encrypted before (err e, db) = Unit {0}
  ContentsStep id encrypted before (ok _, db) =
      ((k : Text) (c : Content)
        → found_content k before ≡ some c
        → found_content k db.tables ≡ some c)
      × ((k : Text) (c : Content)
          → found_content k db.tables ≡ some c
          → (found_content k before ≡ some c)
            ⊎ ((text_eq id k ≡ true)
                × (c.encrypted_content_id
                    ≡ (if text_eq encrypted [] then none else some encrypted)))
            ⊎ ((text_eq encrypted k ≡ true)
                × (text_eq encrypted [] ≡ false)
                × (c.encrypted_content_id ≡ none)))
      × (any (λ c. text_eq c.id id) db.tables.contents ≡ true)
      × (db.tables.files ≡ before.files)
      × (db.tables.file_snapshots ≡ before.file_snapshots)
      × (db.tables.directories ≡ before.directories)

  plain_contents :
      (id : Text) (before : Tables) (r : Result (Unit {0}) × Sqlite)
      → ContentStep id none before r
      → ContentsStep id [] before r
  unfolding text_eq
  plain_contents id before (err e, db) h = tt
  plain_contents id before (ok _, db) (time, found, files, snapshots, directories) = (
    λ k c e. ground (arith, found k, e),
    λ k c e. ground (arith, found k, e),
    any_of_some (λ (x : Content). text_eq x.id id) db.tables.contents
        (ground (arith, found id, text_eq_refl id)),
    files,
    snapshots,
    directories,
  )

  linked_contents :
      (id : Text) (c : ℕ) (cs : Text) (before between : Tables) (r : Result (Unit {0}) × Sqlite)
      → (time : Time)
      → ((k : Text)
          → found_content k between
            ≡ or_else
                (found_content k before)
                (if text_eq (c ∷ cs) k then some (new_content (c ∷ cs) time none) else none))
      → (between.files ≡ before.files)
      → (between.file_snapshots ≡ before.file_snapshots)
      → (between.directories ≡ before.directories)
      → ContentStep id (some (c ∷ cs)) between r
      → ContentsStep id (c ∷ cs) before r
  unfolding text_eq
  linked_contents id c cs before between (err e, db) time first fs ss ds h = tt
  linked_contents id c cs before between (ok _, db) time first fs ss ds
        (time', found, files, snapshots, directories) =
      (
        λ k x e. ground (arith, first k, found k, e),
        λ k x e. ground (arith, first k, found k, e),
        any_of_some (λ (x : Content). text_eq x.id id) db.tables.contents
            (ground (arith, found id, text_eq_refl id)),
        files ∙ fs,
        snapshots ∙ ss,
        directories ∙ ds,
      )

  linked_after :
      (id : Text) (c : ℕ) (cs : Text) (before : Tables) (r : Result (Unit {0}) × Sqlite)
      → ContentStep (c ∷ cs) none before r
      → ContentsStep id
          (c ∷ cs)
          before
          (continue r.0 (λ _. ensure_content env id (some (c ∷ cs))) r.1)
  linked_after id c cs before (err e, db) h = tt
  linked_after id c cs before (ok _, db) (time, first, fs, ss, ds) =
      linked_contents id c cs before db.tables _ time first fs ss ds
        (content_step id (some (c ∷ cs)) db)

  pub contents_step :
      (id encrypted : Text) (db : Sqlite)
      → ContentsStep id encrypted db.tables (ensure_contents env id encrypted db)
  unfolding ensure_contents
  contents_step id [] db = plain_contents id db.tables _ (content_step id none db)
  contents_step id (c ∷ cs) db = linked_after id c cs db.tables _ (content_step (c ∷ cs) none db)

-- Step 4, once the file is known.
pub add_snapshot_cases :
    (file : File) (snapshot : FileSnapshot) (db : Sqlite)
    → ((e : Error) × ((add_snapshot file snapshot db).0 ≡ err e))
      ⊎ ((add_snapshot file snapshot db ≡ (
        ok tt,
        record db {
          tables = record db.tables {
            files =
                update_file file.id
                  (λ f. record f { current_snapshot_id = some snapshot.id })
                  db.tables.files;
            file_snapshots = db.tables.file_snapshots ++ record snapshot { file_id = file.id } ∷ [];
          };
        },
      ))
          × (has_snapshot snapshot.id db.tables ≡ false)
          × (has_file file.id db.tables ≡ true)
          × (has_content snapshot.content_id db.tables ≡ true))
unfolding add_snapshot update_file_current_snapshot
add_snapshot_cases file snapshot db =
    elim (insert_file_snapshot_cases (record snapshot { file_id = file.id }) db.tables) [
      | inl (x, h) ↦ inl (x, rw (h, continue) refl)
      | inr h ↦
          inr (rw (h.0, continue) (rw (h.2, any-append, h.1, text_eq_refl) refl), h.1, h.2, h.3)
    ]
