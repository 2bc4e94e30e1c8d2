-- ===== src/Service/Restore/OneFile.antt =====
-- restoreOneFile of internal/bt/restore.go: how it can end, and what it leaves on disk.
use bt_go.Prelude.{
  ◌≡◌, ◌⊎◌, inl, inr, refl, subst, sym, false, Option, none, some, Text, Bytes, text_eq,
  text_eq_refl, text_eq_iff, lookup, insert, lookup-insert, lookup-delete, Result, Error, ok, err,
  output_exists, arith, Option-cases, Result-cases,
}
use bt_go.Models.{Directory, FileSnapshot}
use bt_go.Database.Sqlite.{Sqlite}
use bt_go.Vault.{Vault}
use bt_go.Encryption.{DecryptionContext}
use bt_go.Service.Restore.{
  OutFile, Disk, FileCalls, build_restore_path, fetch, fresh_file, moded_file, restore_metadata,
  write_restored, restore_one_file,
}

-- The output file that a snapshot and its bytes make.
abbrev pub out_file : FileSnapshot → Bytes → OutFile
out_file snapshot contents = record {
  contents = contents;
  permissions = snapshot.permissions;
  accessed_at = snapshot.accessed_at;
  modified_at = snapshot.modified_at;
}

-- The path had nothing and has the file now, and every other path reads as before.
abbrev pub Wrote : Disk → Text → OutFile → Disk → Type 0
Wrote before out_path file after =
    (lookup out_path before ≡ none)
    × (lookup out_path after ≡ some file)
    × ((p : Text) → text_eq out_path p ≡ false → lookup p after ≡ lookup p before)

insert-Wrote :
    (disk : Disk) (out_path : Text) (file : OutFile)
    → lookup out_path disk ≡ none
    → Wrote disk out_path file (insert out_path file disk)
insert-Wrote disk out_path file free = (
  free,
  ground (arith, lookup-insert out_path out_path file disk, text_eq_refl out_path),
  λ p other. ground (arith, lookup-insert out_path p file disk, other),
)

module _ {V : Type 0} (vault : Vault V) (db : Sqlite) (stored : V)
    (decrypt_ctx : Option DecryptionContext) (calls : FileCalls) (directory : Directory)
    (name : Text) (snapshot : FileSnapshot) (disk : Disk) where
  abbrev path : Text
  path = build_restore_path directory.path name snapshot.content_id

  -- The ways in which a restore with these bytes can end.
  abbrev pub Ended : Bytes → Result Text × Disk → Type 0
  Ended contents res =
      ((e : Error) × (calls.chmod path snapshot.permissions ≡ err e)
        × (res.0 ≡ err e)
        × Wrote disk path (fresh_file vault db stored decrypt_ctx calls contents) res.1)
      ⊎ ((e : Error) × (calls.chmod path snapshot.permissions ≡ ok tt)
          × (calls.chtimes path snapshot.accessed_at snapshot.modified_at ≡ err e)
          × (res.0 ≡ err e)
          × Wrote disk path (moded_file vault db stored decrypt_ctx calls snapshot contents) res.1)
      ⊎ ((calls.chmod path snapshot.permissions ≡ ok tt)
          × (calls.chtimes path snapshot.accessed_at snapshot.modified_at ≡ ok tt)
          × (res.0 ≡ ok path)
          × Wrote disk path (out_file snapshot contents) res.1)

  metadata-Ended :
      (contents : Bytes)
      → lookup path disk ≡ none
      → Ended contents
          (restore_metadata vault db stored decrypt_ctx calls path snapshot contents disk)
  unfolding restore_metadata
  metadata-Ended contents free = elim (Result-cases (calls.chmod path snapshot.permissions)) [
    | inr (e, h) ↦
        let q : set contents ≡ (err e, insert path (fresh contents) disk) =
          rw (restore_metadata, h) refl in
        subst (Ended contents) (sym q) (inl (e, h, refl, insert-Wrote disk path _ free))
    | inl (_, h) ↦
        elim (Result-cases (calls.chtimes path snapshot.accessed_at snapshot.modified_at)) [
          | inr (e, k) ↦
              let q : set contents ≡ (err e, insert path (moded contents) disk) =
                rw (restore_metadata, h, k) refl in
              subst (Ended contents) (sym q)
                (inr (inl (e, h, k, refl, insert-Wrote disk path _ free)))
          | inl (_, k) ↦
              let q : set contents ≡ (ok path, insert path (out_file snapshot contents) disk) =
                rw (restore_metadata, h, k) refl in
              subst (Ended contents) (sym q) (inr (inr (h, k, refl, insert-Wrote disk path _ free)))
        ]
  ]
    where
      set : Bytes → Result Text × Disk
      set contents = restore_metadata vault db stored decrypt_ctx calls path snapshot contents disk

      fresh : Bytes → OutFile
      fresh contents = fresh_file vault db stored decrypt_ctx calls contents

      moded : Bytes → OutFile
      moded contents = moded_file vault db stored decrypt_ctx calls snapshot contents

  -- Restoring one file. Either it fails and every path reads as before; or nothing was at the
  -- output path, and a file with the bytes fetched from the vault is there now, every other path
  -- reading as before. Then it returns the path, the file having the snapshot's permissions and
  -- times; or it fails because those could not be set, the file having what it was created with.
  pub restore_one_file_lem :
      let res = restore_one_file vault db stored decrypt_ctx calls directory name snapshot disk in
      ((e : Error) × (res.0 ≡ err e) × ((p : Text) → lookup p res.1 ≡ lookup p disk))
      ⊎ ((contents : Bytes) × (fetch vault db stored decrypt_ctx snapshot ≡ ok contents)
          × Ended contents res)
  unfolding restore_one_file write_restored
  restore_one_file_lem = elim (Option-cases (lookup path disk)) [
    | inr (old, there) ↦
        inl
          (output_exists, rw (restore_one_file, there) refl, λ p. rw (restore_one_file, there) refl)
    | inl free ↦ elim (Result-cases (fetch vault db stored decrypt_ctx snapshot)) [
      | inr (e, bad) ↦ inl (
        e,
        rw (restore_one_file, free, write_restored, bad) refl,
        λ p.
            rw (restore_one_file, free, write_restored, bad)
              (ground (arith, lookup-delete path p disk, text_eq_iff path p)),
      )
      | inl (contents, good) ↦
          let q : restore_one_file vault db stored decrypt_ctx calls directory name snapshot disk
              ≡ restore_metadata vault db stored decrypt_ctx calls path snapshot contents disk =
            rw (restore_one_file, free, write_restored, good) refl in
          inr (contents, good, subst (Ended contents) (sym q) (metadata-Ended contents free))
    ]
  ]
