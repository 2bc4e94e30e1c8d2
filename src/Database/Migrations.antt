-- ===== src/Database/Migrations.antt =====
-- internal/database/migrations/migrations.go: the check that the schema is up to date. The migrate
-- library and its source driver are parameters.
pub mod Latest
use bt_go.Prelude.{
  ℕ, zero, suc, Bool, Option, none, some, List, [], ◌∷◌, Result, ok, err, no_schema_version,
  dirty_schema, schema_behind, schema_ahead, ltb, if◌then◌else◌,
}

-- source.Driver: the first version, and the one that follows a version.
pub record Driver : Type 0 where
  pub first : Result ℕ
  pub next : ℕ → Result ℕ

-- What m.Version answers for a database: nothing for ErrNilVersion.
pub record Version : Type 0 where
  pub version : ℕ
  pub dirty : Bool

abbrev pub compare_versions : ℕ → ℕ → Result (Unit {0})
compare_versions version latest =
    if ltb version latest
    then err schema_behind
    else if ltb latest version
    then err schema_ahead
    else ok tt

module _ (driver : Driver) where
  -- The loop: any error of Next is the end.
  unfoldable pub latest_from : ℕ → ℕ → ℕ
  latest_from zero latest = latest
  latest_from (suc fuel) latest = elim (driver.next latest) [
    | err _ ↦ latest
    | ok next_version ↦ latest_from fuel next_version
  ]

  unfoldable pub get_latest_version : ℕ → Result ℕ
  unfolding latest_from
  get_latest_version fuel = elim driver.first [
    | err e ↦ err e
    | ok version ↦ ok (latest_from fuel version)
  ]

  unfoldable pub check_db_migration_status : ℕ → Result (Option Version) → Result (Unit {0})
  unfolding get_latest_version
  check_db_migration_status fuel (err e) = err e
  check_db_migration_status fuel (ok none) = err no_schema_version
  check_db_migration_status fuel (ok (some v)) =
      if v.dirty then err dirty_schema else (elim (get_latest_version fuel) [
        | err e ↦ err e
        | ok latest ↦ compare_versions v.version latest
      ])
