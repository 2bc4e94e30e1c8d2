-- ===== src/Database/Recording/Inserts.antt =====
-- The inserts of internal/database/sqlc/queries.sql.go, and what they leave to be found.
use bt_go.Prelude.{
  ◌≡◌, ◌⊎◌, inl, inr, refl, true, false, ◌&&◌, ◌||◌, Option, none, [], ◌∷◌, ◌++◌, Text, text_eq, ok,
  err, Error, unique_violation, foreign_key_violation, find_first, any, arith, Bool-cases,
}
use bt_go.Models.{Time, File, FileSnapshot, Content}
use bt_go.Database.Tables.{Tables, has_directory, has_file, has_snapshot, has_content}
use bt_go.Database.Queries.{
  names, insert_file, insert_file_snapshot, insert_content, optional_snapshot, optional_content,
}

abbrev pub found_content : Text → Tables → Option Content
found_content id db = find_first (λ c. text_eq c.id id) db.contents

abbrev pub found_file : Text → Text → Tables → Option File
found_file directory_id name db = find_first (names directory_id name) db.files

abbrev pub found_snapshot : Text → Tables → Option FileSnapshot
found_snapshot id db = find_first (λ s. text_eq s.id id) db.file_snapshots

abbrev pub new_content : Text → Time → Option Text → Content
new_content id time encrypted_content_id = record {
  id = id;
  created_at = time;
  encrypted_content_id = encrypted_content_id;
}

abbrev pub new_file : Text → Text → Text → File
new_file id directory_id name = record {
  id = id;
  name = name;
  directory_id = directory_id;
  current_snapshot_id = none;
  deleted = false;
}

-- An insertion is refused, or appends the row after its constraints were checked.
pub insert_file_cases :
    (f : File) (db : Tables)
    → ((e : Error) × (insert_file f db ≡ (err e, db)))
      ⊎ ((insert_file f db ≡ (ok f, record db { files = db.files ++ f ∷ [] }))
          × (has_file f.id db ≡ false)
          × (any (names f.directory_id f.name) db.files ≡ false)
          × (has_directory f.directory_id db ≡ true)
          × (optional_snapshot f.current_snapshot_id db ≡ true))
unfolding insert_file
insert_file_cases f db =
    elim (Bool-cases (has_file f.id db || any (names f.directory_id f.name) db.files)) [
      | inl e ↦ inl (unique_violation, rw e refl)
      | inr e ↦
          elim (Bool-cases
            (has_directory f.directory_id db && optional_snapshot f.current_snapshot_id db)) [
              | inl k ↦ inr (
                rw (e, k) refl,
                ground (arith, e),
                ground (arith, e),
                ground (arith, k),
                ground (arith, k),
              )
              | inr k ↦ inl (foreign_key_violation, rw (e, k) refl)
            ]
    ]

pub insert_content_cases :
    (c : Content) (db : Tables)
    → ((e : Error) × (insert_content c db ≡ (err e, db)))
      ⊎ ((insert_content c db ≡ (ok c, record db { contents = db.contents ++ c ∷ [] }))
          × (has_content c.id db ≡ false)
          × (optional_content c c.encrypted_content_id db ≡ true))
unfolding insert_content
insert_content_cases c db = elim (Bool-cases (has_content c.id db)) [
  | inl e ↦ inl (unique_violation, rw e refl)
  | inr e ↦ elim (Bool-cases (optional_content c c.encrypted_content_id db)) [
    | inl k ↦ inr (rw (e, k) refl, e, k)
    | inr k ↦ inl (foreign_key_violation, rw (e, k) refl)
  ]
]

pub insert_file_snapshot_cases :
    (s : FileSnapshot) (db : Tables)
    → ((e : Error) × (insert_file_snapshot s db ≡ (err e, db)))
      ⊎ ((insert_file_snapshot s db
            ≡ (ok s, record db { file_snapshots = db.file_snapshots ++ s ∷ [] }))
          × (has_snapshot s.id db ≡ false)
          × (has_file s.file_id db ≡ true)
          × (has_content s.content_id db ≡ true))
unfolding insert_file_snapshot
insert_file_snapshot_cases s db = elim (Bool-cases (has_snapshot s.id db)) [
  | inl e ↦ inl (unique_violation, rw e refl)
  | inr e ↦ elim (Bool-cases (has_file s.file_id db && has_content s.content_id db)) [
    | inl k ↦ inr (rw (e, k) refl, e, ground (arith, k), ground (arith, k))
    | inr k ↦ inl (foreign_key_violation, rw (e, k) refl)
  ]
]
