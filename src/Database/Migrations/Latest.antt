-- ===== src/Database/Migrations/Latest.antt =====
-- getLatestVersion and CheckDBMigrationStatus of internal/database/migrations/migrations.go.
use bt_go.Prelude.{
  ℕ, zero, suc, ◌≤◌, ◌≡◌, ◌↔◌, ◌∙◌, refl, sym, ap, Bool, false, dirty_schema, some, List, [], ◌∷◌,
  Result, Error, ok, err, length, arith, if◌then◌else◌,
}
use bt_go.Database.Migrations.{
  Driver, Version, compare_versions, latest_from, get_latest_version, check_db_migration_status,
}

abbrev pub last : ℕ → List ℕ → ℕ
last v [] = v
last v (w ∷ ws) = last w ws

-- The driver walks through the versions, one after the other, and then reports an error.
abbrev pub Lists : Driver → ℕ → List ℕ → Type 0
Lists driver v [] = (e : Error) × (driver.next v ≡ err e)
Lists driver v (w ∷ ws) = (driver.next v ≡ ok w) × Lists driver w ws

latest_from-last :
    (driver : Driver) (fuel v : ℕ) (ws : List ℕ)
    → length ws ≤ fuel
    → Lists driver v ws
    → latest_from driver fuel v ≡ last v ws
unfolding latest_from
latest_from-last driver zero v [] h l = refl
latest_from-last driver zero v (w ∷ ws) h l = absurd (omega arith)
latest_from-last driver (suc fuel) v [] h (e, x) = rw (latest_from, x) refl
latest_from-last driver (suc fuel) v (w ∷ ws) h (x, l) =
    rw (latest_from, x) (latest_from-last driver fuel w ws (omega arith) l)

-- For a driver that walks through finitely many versions the loop for the newest one ends, with
-- fuel for one round each, and the check passes exactly for a database that is clean and at the
-- last of them.
pub check_db_migration_status_iff :
    (driver : Driver) (fuel first : ℕ) (rest : List ℕ) (v : Version)
    → driver.first ≡ ok first
    → Lists driver first rest
    → length rest ≤ fuel
    → (check_db_migration_status driver fuel (ok (some v)) ≡ ok tt)
      ↔ ((v.dirty ≡ false) × (v.version ≡ last first rest))
unfolding check_db_migration_status get_latest_version
check_db_migration_status_iff driver fuel first rest v f l h = (λ e. go e, λ e. back e)
  where
    newest : get_latest_version driver fuel ≡ ok (last first rest)
    newest = rw (get_latest_version, f) (ap ok (latest_from-last driver fuel first rest h l))

    verdict : Bool → Result (Unit {0})
    verdict dirty = if dirty then err dirty_schema else compare_versions v.version (last first rest)

    is_verdict : check_db_migration_status driver fuel (ok (some v)) ≡ verdict v.dirty
    is_verdict = rw (check_db_migration_status, newest) refl

    go :
        check_db_migration_status driver fuel (ok (some v)) ≡ ok tt
        → (v.dirty ≡ false) × (v.version ≡ last first rest)
    go e = ground (arith, sym is_verdict ∙ e)

    back :
        (v.dirty ≡ false) × (v.version ≡ last first rest)
        → check_db_migration_status driver fuel (ok (some v)) ≡ ok tt
    back e = is_verdict ∙ ground (arith, e.0, e.1)
