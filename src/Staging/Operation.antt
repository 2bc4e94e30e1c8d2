-- ===== src/Staging/Operation.antt =====
-- internal/staging/operation.go
use bt_go.Prelude.{◌≡◌, ◌↔◌, Bool, ◌&&◌, Text, text_eq, Result, ok, err, arith, ◌==◌, if◌then◌else◌}
use bt_go.Prelude.{
  size_changed, mode_changed, mtime_changed, ctime_changed, uid_changed, gid_changed,
}
use bt_go.Models.{FileSnapshot, equal}
use bt_go.Filesystem.{FileInfo, StatData}

pub record StagedOperation : Type 0 where
  pub directory_id : Text
  pub relative_path : Text
  pub snapshot : FileSnapshot

-- The access time is not compared.
unfoldable pub validate_stat_unchanged :
    FileInfo → FileInfo → StatData → StatData → Result (Unit {0})
validate_stat_unchanged info1 info2 stat1 stat2 =
    if info1.size == info2.size
    then if info1.mode == info2.mode
      then if equal info1.mod_time info2.mod_time
        then if equal stat1.ctime stat2.ctime
          then if stat1.uid == stat2.uid
            then if stat1.gid == stat2.gid then ok tt else err gid_changed
            else err uid_changed
          else err ctime_changed
        else err mtime_changed
      else err mode_changed
    else err size_changed

-- A file whose identity within its directory and whose content are these.
abbrev pub matches : Text → Text → Text → StagedOperation → Bool
matches directory_id relative_path checksum op =
    text_eq op.directory_id directory_id
    && text_eq op.relative_path relative_path
    && text_eq op.snapshot.content_id checksum

-- The two stats agree on everything but the access and birth times exactly when validation passes.
pub validate_stat_unchanged_iff :
    (info1 info2 : FileInfo) (stat1 stat2 : StatData)
    → (validate_stat_unchanged info1 info2 stat1 stat2 ≡ ok tt) ↔ (
        (info1.size ≡ info2.size)
        × (info1.mode ≡ info2.mode)
        × (info1.mod_time.instant ≡ info2.mod_time.instant)
        × (stat1.ctime.instant ≡ stat2.ctime.instant)
        × (stat1.uid ≡ stat2.uid)
        × (stat1.gid ≡ stat2.gid))
unfolding validate_stat_unchanged
validate_stat_unchanged_iff info1 info2 stat1 stat2 = (
  λ h. (ground arith, ground arith, ground arith, ground arith, ground arith, ground arith),
  λ h. ground arith,
)
