-- ===== src/Database/Recording/Outcome.antt =====
-- What CreateFileSnapshotAndContent promises.
use bt_go.Prelude.{
  ◌≡◌, ◌⊎◌, inl, inr, refl, sym, ap, ◌∙◌, Bool, true, false, none, some, [], Text, text_eq,
  text_eq_iff, text_eq_refl, Result, ok, err, Error, Act, reads, pure, continue, continue_cases,
  ◌>>=◌, arith, if◌then◌else◌, Option-cases,
}
use bt_go.Models.{File, FileSnapshot, Content}
use bt_go.Database.Rows.{find_first-append, find_first-test, find_none, find_first-map}
use bt_go.Database.Tables.{Tables, has_content}
use bt_go.Database.Queries.{names, get_file_snapshot_by_id}
use bt_go.Database.Sqlite.{Sources, Sqlite, settle, transaction}
use bt_go.Database.Recording.{
  same_bool, snapshots_equal, check_current, add_snapshot, ensure_contents, record_body,
  create_file_snapshot_and_content,
}
use bt_go.Database.Recording.Inserts.{found_content, found_file, found_snapshot}
use bt_go.Database.Recording.Effects.{
  file_step, FileStep, contents_step, ContentsStep, add_snapshot_cases,
}

-- The tables say that the file's current version is the one of the snapshot: the file is there,
-- its current snapshot is there and agrees with the given one, and so is the content record.
pub record Recorded (d r : Text) (snapshot : FileSnapshot) (db : Tables) : Type 0 where
  pub file : File
  pub current : FileSnapshot
  pub found : found_file d r db ≡ some file
  pub points : file.current_snapshot_id ≡ some current.id
  pub there : found_snapshot current.id db ≡ some current
  pub agrees : snapshots_equal current snapshot ≡ true
  pub stocked : has_content snapshot.content_id db ≡ true

-- The contents after a recording: those of before, and at most the new record and, for an
-- encrypted file, the record of the ciphertext.
pub record Grown (id encrypted : Text) (before after : Tables) : Type 0 where
  pub kept :
      (k : Text) (c : Content) → found_content k before ≡ some c → found_content k after ≡ some c
  pub added :
      (k : Text) (c : Content)
      → found_content k after ≡ some c
      → (found_content k before ≡ some c)
        ⊎ ((text_eq id k ≡ true)
            × (c.encrypted_content_id ≡ (if text_eq encrypted [] then none else some encrypted)))
        ⊎ ((text_eq encrypted k ≡ true)
            × (text_eq encrypted [] ≡ false)
            × (c.encrypted_content_id ≡ none))
  pub directories : after.directories ≡ before.directories

same_bool_refl : (b : Bool) → same_bool b b ≡ true
same_bool_refl true = refl
same_bool_refl false = refl

snapshots_equal_refl :
    (snapshot : FileSnapshot) (file_id : Text)
    → snapshots_equal (record snapshot { file_id = file_id }) snapshot ≡ true
unfolding snapshots_equal
snapshots_equal_refl snapshot file_id =
    ground (arith, text_eq_refl snapshot.content_id, same_bool_refl snapshot.born_at.valid)

module _ (env : Sources) (d r : Text) (snapshot : FileSnapshot) (encrypted : Text) where
  abbrev body : Act Sqlite (Unit {0})
  body = record_body env d r snapshot encrypted

  abbrev Promise : Tables → Result (Unit {0}) × Sqlite → Type 0
  Promise before (err e, db) = Unit {0}
  Promise before (ok _, db) =
      Recorded d r snapshot db.tables × Grown snapshot.content_id encrypted before db.tables

  Promise-err :
      (before : Tables) (res : Result (Unit {0}) × Sqlite) (e : Error)
      → res.0 ≡ err e
      → Promise before res
  Promise-err before (ok _, db) e h = cc
  Promise-err before (err x, db) e h = tt

  -- Step 4, for a new version.
  added :
      (before : Tables) (file : File) (db : Sqlite)
      → found_file d r db.tables ≡ some file
      → has_content snapshot.content_id db.tables ≡ true
      → Grown snapshot.content_id encrypted before db.tables
      → Promise before (add_snapshot file snapshot db)
  added before file db found stocked grown = elim (add_snapshot_cases file snapshot db) [
    | inl (x, h) ↦ Promise-err before _ x h
    | inr h ↦ rw h.0 (
      record {
        file = record file { current_snapshot_id = some snapshot.id };
        current = record snapshot { file_id = file.id };
        found =
            find_first-map (names d r) _ db.tables.files (λ x. ground arith)
            ∙ rw (found, text_eq_refl) refl;
        points = refl;
        there = rw (find_first-append, find_none _ _ h.1, text_eq_refl) refl;
        agrees = snapshots_equal_refl snapshot file.id;
        stocked = stocked;
      },
      record { kept = grown.kept; added = grown.added; directories = grown.directories },
    )
  ]

  -- Step 3, for a file whose current snapshot agrees.
  unchanged :
      (before : Tables) (file : File) (db : Sqlite)
      → found_file d r db.tables ≡ some file
      → has_content snapshot.content_id db.tables ≡ true
      → Grown snapshot.content_id encrypted before db.tables
      → check_current snapshot file.current_snapshot_id db.tables ≡ ok true
      → Recorded d r snapshot db.tables
  unfolding check_current get_file_snapshot_by_id
  unchanged before file db found stocked grown h = elim (Option-cases file.current_snapshot_id) [
    | inl e ↦ ground (arith, e)
    | inr (id, e) ↦ elim (Option-cases (found_snapshot id db.tables)) [
      | inl gone ↦ ground (arith, e, gone)
      | inr (current, there) ↦
          let same : current.id ≡ id =
            (text_eq_iff _ _).0 (find_first-test _ db.tables.file_snapshots current there) in
          record {
            file = file;
            current = current;
            found = found;
            points = e ∙ ap some (sym same);
            there = ap (λ i. found_snapshot i db.tables) same ∙ there;
            agrees = ground (arith, e, there);
            stocked = stocked;
          }
    ]
  ]

  abbrev last_steps : File → Act Sqlite (Unit {0})
  last_steps file = do
    same ← reads (λ db. check_current snapshot file.current_snapshot_id db.tables)
    if same then pure tt else add_snapshot file snapshot

  checked :
      (before : Tables) (file : File) (db : Sqlite)
      → found_file d r db.tables ≡ some file
      → has_content snapshot.content_id db.tables ≡ true
      → Grown snapshot.content_id encrypted before db.tables
      → Promise before (last_steps file db)
  checked before file db found stocked grown =
      continue_cases (Promise before) _ db
        (check_current snapshot file.current_snapshot_id db.tables) (λ e _. tt) λ same h. go same h
    where
      go :
          (same : Bool)
          → check_current snapshot file.current_snapshot_id db.tables ≡ ok same
          → Promise before ((if same then pure tt else add_snapshot file snapshot) db)
      go true h = (unchanged before file db found stocked grown h, grown)
      go false h = added before file db found stocked grown

  after_contents :
      (before : Tables) (file : File) (db : Sqlite) (res : Result (Unit {0}) × Sqlite)
      → found_file d r db.tables ≡ some file
      → db.tables.contents ≡ before.contents
      → db.tables.directories ≡ before.directories
      → ContentsStep env snapshot.content_id encrypted db.tables res
      → Promise before (continue res.0 (λ _. last_steps file) res.1)
  after_contents before file db (err e, db') found cs ds h = tt
  after_contents before file db (ok _, db') found cs ds (kept, new, stocked, files, ss, dirs) =
      checked before file db' (ground (arith, files, found)) stocked (record {
        kept = λ k c e. kept k c (rw cs e);
        added = λ k c e. rw (← cs) (new k c e);
        directories = dirs ∙ ds;
      })

  after_file :
      (before : Tables) (res : Result File × Sqlite)
      → FileStep env d r before res
      → Promise before (
          continue res.0
            (λ file. ensure_contents env snapshot.content_id encrypted >>= (λ _. last_steps file))
            res.1)
  after_file before (err e, db) h = tt
  after_file before (ok file, db) (found, cs, ss, ds) =
      after_contents before file db _ found cs ds
        (contents_step env snapshot.content_id encrypted db)

  body-Promise : (db : Sqlite) → Promise db.tables (body db)
  unfolding record_body
  body-Promise db = after_file db.tables _ (file_step env d r db)

  pub create_file_snapshot_and_content_lem :
      (db : Sqlite)
      → let res = create_file_snapshot_and_content env d r snapshot encrypted db in
        ((e : Error) × (res.0 ≡ err e) × (res.1.tables ≡ db.tables))
        ⊎ ((res.0 ≡ ok tt)
            × Recorded d r snapshot res.1.tables
            × Grown snapshot.content_id encrypted db.tables res.1.tables)
  unfolding create_file_snapshot_and_content transaction
  create_file_snapshot_and_content_lem db = go (body db) (body-Promise db)
    where
      go :
          (res : Result (Unit {0}) × Sqlite)
          → Promise db.tables res
          → ((e : Error) × ((settle db.tables res).0 ≡ err e)
              × ((settle db.tables res).1.tables ≡ db.tables))
            ⊎ (((settle db.tables res).0 ≡ ok tt)
                × Recorded d r snapshot (settle db.tables res).1.tables
                × Grown snapshot.content_id encrypted db.tables (settle db.tables res).1.tables)
      go (err e, after) h = inl (e, refl, refl)
      go (ok _, after) (rec, grown) = inr (refl, rec, grown)
