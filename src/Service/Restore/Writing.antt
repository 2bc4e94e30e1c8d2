-- ===== src/Service/Restore/Writing.antt =====
-- What a restore does to the files on disk.
use bt_go.Prelude.{
  ◌≡◌, ◌⊎◌, inl, inr, refl, ◌∙◌, Option, none, some, List, [], ◌∷◌, ◌++◌, Text, Bytes, text_eq,
  text_eq_iff, lookup, Result, Error, ok, err, Act, lift, continue, continue_cases,
  not_in_tracked_directory, no_backup_history, ◌>>=◌, arith, Option-cases, Result-cases, Bool-cases,
  All, All-append, All-map,
}
use bt_go.Models.{Directory, File, FileSnapshot}
use bt_go.Database.Sqlite.{
  Sqlite, find_directory_by_path, find_files_by_directory, search_directory_for_path,
  find_file_by_path,
}
use bt_go.FilePaths.{rel}
use bt_go.Vault.{Vault}
use bt_go.Encryption.{DecryptionContext}
use bt_go.Service.Restore.OneFile.{Ended, Wrote, out_file, restore_one_file_lem}
use bt_go.Service.Restore.{
  OutFile, Disk, FileCalls, Restored, build_restore_path, fetch, restore_one_file, resolve_snapshot,
  is_restorable, restore_then, restore_next, restore_each, restore_directory, restore_file,
  restored_file, or_error, restore,
}

-- No file that was there is changed or removed.
abbrev pub Untouched : Disk → Disk → Type 0
Untouched before after =
    (path : Text) (file : OutFile) → lookup path before ≡ some file → lookup path after ≡ some file

Wrote-Untouched :
    (before : Disk) (out_path : Text) (file : OutFile) (after : Disk)
    → Wrote before out_path file after
    → Untouched before after
Wrote-Untouched before out_path file after (free, there, other) p old h =
    elim (Bool-cases (text_eq out_path p)) [
      | inl same ↦ ground (arith, text_eq_iff out_path p, free, h, same)
      | inr differ ↦ other p differ ∙ h
    ]

module _ {V : Type 0} (vault : Vault V) (db : Sqlite) (stored : V)
    (decrypt_ctx : Option DecryptionContext) (calls : FileCalls) where
  -- What trying one file does: nothing that was there changes, and a path that it returns is new.
  abbrev Tried : Disk → Result Text × Disk → Type 0
  Tried before (err e, after) = Untouched before after
  Tried before (ok p, after) =
      Untouched before after
      × (lookup p before ≡ none)
      × (file : OutFile) × (lookup p after ≡ some file)

  -- A path where there was nothing and now is a file.
  abbrev pub New : Disk → Disk → Text → Type 0
  New before after p = (lookup p before ≡ none) × (file : OutFile) × (lookup p after ≡ some file)

  -- No file that was there changed, and the restored paths are new.
  abbrev pub Made : Disk → List Text → Disk → Type 0
  Made before paths after = Untouched before after × All (New before after) paths

  restore_one_file-Tried :
      (directory : Directory) (name : Text) (snapshot : FileSnapshot) (disk : Disk)
      → Tried disk (restore_one_file vault db stored decrypt_ctx calls directory name snapshot disk)
  restore_one_file-Tried directory name snapshot disk =
      go (restore_one_file vault db stored decrypt_ctx calls directory name snapshot disk)
        (restore_one_file_lem vault db stored decrypt_ctx calls directory name snapshot disk)
    where
      out_path : Text
      out_path = build_restore_path directory.path name snapshot.content_id

      go :
          (res : Result Text × Disk)
          → ((e : Error) × (res.0 ≡ err e) × ((p : Text) → lookup p res.1 ≡ lookup p disk))
            ⊎ ((contents : Bytes) × (fetch vault db stored decrypt_ctx snapshot ≡ ok contents)
                × Ended vault db stored decrypt_ctx calls directory name snapshot disk contents res)
          → Tried disk res
      go (err e, after) (inl (x, h, same)) = λ p file there. same p ∙ there
      go (err e, after) (inr (contents, good, inl (x, c, h, w))) =
          Wrote-Untouched disk out_path _ after w
      go (err e, after) (inr (contents, good, inr (inl (x, c, t, h, w)))) =
          Wrote-Untouched disk out_path _ after w
      go (err e, after) (inr (contents, good, inr (inr (c, t, h, w)))) = cc
      go (ok q, after) (inl (x, h, same)) = cc
      go (ok q, after) (inr (contents, good, inl (x, c, h, w))) = cc
      go (ok q, after) (inr (contents, good, inr (inl (x, c, t, h, w)))) = cc
      go (ok q, after) (inr (contents, good, inr (inr (c, t, h, w)))) = (
        Wrote-Untouched disk out_path _ after w,
        ground (arith, h, w.0),
        out_file snapshot contents,
        ground (arith, h, w.1),
      )

  Made-mono :
      (before : Disk) (restored : List Text) (disk after : Disk)
      → Untouched disk after
      → Made before restored disk
      → Made before restored after
  Made-mono before restored disk after kept made = (
    λ p file old. kept p file (made.0 p file old),
    All-map (New before disk) (New before after) restored (λ p h. (h.0, h.1, kept p h.1 h.2))
        made.1,
  )

  restore_next-Tried :
      (directory : Directory) (file : File) (disk : Disk)
      → Tried disk (restore_next vault db stored decrypt_ctx calls directory file disk)
  restore_next-Tried directory file disk =
      continue_cases (Tried disk)
        (λ snapshot.
          restore_one_file vault db stored decrypt_ctx calls directory file.name snapshot)
        disk (resolve_snapshot vault db stored decrypt_ctx file []) (λ e h. λ p f there. there)
        (λ snapshot h. restore_one_file-Tried directory file.name snapshot disk)

  restore_file-Tried :
      (abs_path checksum : Text) (disk : Disk)
      → Tried disk (restore_file vault db stored decrypt_ctx calls abs_path checksum disk)
  unfolding restore_file
  restore_file-Tried abs_path checksum disk =
      elim (Result-cases (search_directory_for_path abs_path db)) [
        | inr (e, h) ↦ rw (h, continue) (λ p f there. there)
        | inl (found, h) ↦ rw (h, continue) (in_directory found)
      ]
    where
      rest : Directory → Text → Option File → Act Disk Text
      rest directory relative_path found_file = do
        file ← lift (or_error vault db stored decrypt_ctx no_backup_history found_file)
        snapshot ← lift (resolve_snapshot vault db stored decrypt_ctx file checksum)
        restore_one_file vault db stored decrypt_ctx calls directory relative_path snapshot

      of_file :
          (directory : Directory) (relative_path : Text) (found_file : Option File)
          → Tried disk (rest directory relative_path found_file disk)
      of_file directory relative_path none = λ p f there. there
      of_file directory relative_path (some file) =
          continue_cases (Tried disk)
            (λ snapshot.
              restore_one_file vault db stored decrypt_ctx calls directory relative_path snapshot)
            disk (resolve_snapshot vault db stored decrypt_ctx file checksum)
            (λ e h. λ p f there. there)
            (λ snapshot h. restore_one_file-Tried directory relative_path snapshot disk)

      named : Directory → Text → Act Disk Text
      named directory relative_path = do
        found_file ← lift (find_file_by_path directory relative_path db)
        rest directory relative_path found_file

      in_directory :
          (found : Option Directory)
          → Tried disk (
              (do
                directory ←
                    lift (or_error vault db stored decrypt_ctx not_in_tracked_directory found)
                relative_path ← lift (rel directory.path abs_path)
                named directory relative_path)
                disk)
      in_directory none = λ p f there. there
      in_directory (some directory) =
          continue_cases (Tried disk) (named directory) disk (rel directory.path abs_path)
            (λ e h. λ p f there. there)
            (λ relative_path h.
              continue_cases (Tried disk) (rest directory relative_path) disk
                (find_file_by_path directory relative_path db) (λ e h'. λ p f there. there)
                (λ found_file h'. of_file directory relative_path found_file))

  restore_then-Made :
      (before : Disk) (restored : List Text) (disk : Disk)
      (rest : List Text → Disk → Restored × Disk) (res : Result Text × Disk)
      → Tried disk res
      → Made before restored disk
      → ((paths : List Text) (d : Disk)
          → Made before paths d
          → Made before (rest paths d).0.paths (rest paths d).1)
      → Made before
          (restore_then vault db stored decrypt_ctx rest restored res).0.paths
          (restore_then vault db stored decrypt_ctx rest restored res).1
  restore_then-Made before restored disk rest (err e, after) tried made go =
      Made-mono before restored disk after tried made
  restore_then-Made before restored disk rest (ok q, after) tried made go =
      let old = Made-mono before restored disk after tried.0 made in
      let free : lookup q before ≡ none = elim (Option-cases (lookup q before)) [
        | inl e ↦ e
        | inr (file, there) ↦ absurd (ground (arith, made.0 q file there, tried))
      ] in
      go (restored ++ q ∷ []) after
        (old.0, All-append (New before after) restored q old.1 (free, tried.2, tried.3))

  restore_each-Made :
      (directory : Directory) (before : Disk) (files : List File) (restored : List Text)
      (disk : Disk)
      → Made before restored disk
      → let res = restore_each vault db stored decrypt_ctx calls directory files restored disk in
        Made before res.0.paths res.1
  unfolding restore_each
  restore_each-Made directory before [] restored disk made = made
  restore_each-Made directory before (file ∷ files) restored disk made =
      elim (Bool-cases (is_restorable vault db stored decrypt_ctx file)) [
        | inl due ↦ rw due (
            restore_then-Made before restored disk
              (restore_each vault db stored decrypt_ctx calls directory files)
              (restore_next vault db stored decrypt_ctx calls directory file disk)
              (restore_next-Tried directory file disk) made
              (λ paths d m. restore_each-Made directory before files paths d m))
        | inr skipped ↦ rw skipped (restore_each-Made directory before files restored disk made)
      ]

  restored_file-Made :
      (disk : Disk) (res : Result Text × Disk)
      → Tried disk res
      → let made = restored_file vault db stored decrypt_ctx res in Made disk made.0.paths made.1
  restored_file-Made disk (err e, after) tried = (tried, tt)
  restored_file-Made disk (ok p, after) tried = (tried.0, ((tried.1, tried.2, tried.3), tt))

  -- Whatever a restore does, and however it ends, no file that was on disk is changed or removed;
  -- and of each path that it returns, also next to an error, nothing was there before and a file is
  -- there afterwards.
  pub restore_lem :
      (abs_path checksum : Text) (disk : Disk)
      → let res = restore vault db stored decrypt_ctx calls abs_path checksum disk in
        Made disk res.0.paths res.1
  unfolding restore restore_directory restore_file
  restore_lem abs_path checksum disk = go (find_directory_by_path abs_path db) refl
    where
      nothing : Made disk [] disk
      nothing = (λ p file h. h, tt)

      whole :
          (directory : Directory)
          → let res = restore_directory vault db stored decrypt_ctx calls directory disk in
            Made disk res.0.paths res.1
      whole directory = elim (Result-cases (find_files_by_directory directory db)) [
        | inl (files, h) ↦
            rw (restore_directory, h) (restore_each-Made directory disk files [] disk nothing)
        | inr (e, h) ↦ rw (restore_directory, h) nothing
      ]

      go :
          (found : Result (Option Directory))
          → find_directory_by_path abs_path db ≡ found
          → let res = restore vault db stored decrypt_ctx calls abs_path checksum disk in
            Made disk res.0.paths res.1
      go (err e) h = rw (restore, h) nothing
      go (ok none) h =
          rw (restore, h) (restored_file-Made disk _ (restore_file-Tried abs_path checksum disk))
      go (ok (some directory)) h = elim (Bool-cases (text_eq checksum [])) [
        | inl empty ↦ rw (restore, h, empty) (whole directory)
        | inr given ↦ rw (restore, h, given) nothing
      ]
