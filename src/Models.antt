-- ===== src/Models.antt =====
-- The rows of the database: internal/database/sqlc/models.go.
use bt_go.Prelude.{ℕ, ◌+◌, Bool, ◌&&◌, Option, Text, ◌==◌}

-- time.Time: an instant, and the location that it is shown in, as the offset of its clocks, in the
-- unit of the instant and counted from the westernmost.
pub record Time : Type 0 where
  pub instant : ℕ
  pub location : ℕ

-- What the clocks at the location show, which the text that the driver stores begins with.
abbrev pub wall : Time → ℕ
wall t = t.instant + t.location

-- t.Equal(u) compares instants.
abbrev pub equal : Time → Time → Bool
equal t u = t.instant == u.instant

-- `t == u` compares the structs, and so the locations.
abbrev pub same : Time → Time → Bool
same t u = t.instant == u.instant && t.location == u.location

-- sql.NullTime
pub record NullTime : Type 0 where
  pub time : Time
  pub valid : Bool

pub record Content : Type 0 where
  pub id : Text
  pub created_at : Time
  pub encrypted_content_id : Option Text

pub record Directory : Type 0 where
  pub id : Text
  pub path : Text
  pub created_at : Time
  pub encrypted : ℕ

pub record File : Type 0 where
  pub id : Text
  pub name : Text
  pub directory_id : Text
  pub current_snapshot_id : Option Text
  pub deleted : Bool

pub record FileSnapshot : Type 0 where
  pub id : Text
  pub file_id : Text
  pub content_id : Text
  pub created_at : Time
  pub size : ℕ
  pub permissions : ℕ
  pub uid : ℕ
  pub gid : ℕ
  pub accessed_at : Time
  pub modified_at : Time
  pub changed_at : Time
  pub born_at : NullTime

pub record BackupOperation : Type 0 where
  pub id : ℕ
  pub started_at : Time
  pub finished_at : Option Time
  pub operation : Text
  pub parameters : Text
  pub status : Text
