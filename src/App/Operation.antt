-- ===== src/App/Operation.antt =====
-- internal/app/operation.go
use bt_go.Prelude.{ℕ, Bool, not, Text, codes, ◌==◌}

pub record BackupOperation : Type 0 where
  pub id : ℕ
  pub operation : Text
  pub parameters : Text
  pub status : Text

unfoldable pub new_backup_operation : Text → Text → BackupOperation
new_backup_operation operation parameters = record {
  id = 0;
  operation = operation;
  parameters = parameters;
  status = codes "success";
}

abbrev pub persisted : BackupOperation → Bool
persisted op = not (op.id == 0)
