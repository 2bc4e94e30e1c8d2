-- ===== src/Database/Tables.antt =====
-- The tables of internal/database/migrations/files/000001_initial_schema.up.sql to
-- 000003_encryption.up.sql: one list of rows for each, and the last id that AUTOINCREMENT gave.
use bt_go.Prelude.{ℕ, List, [], Bool, Text, any, text_eq}
use bt_go.Models.{Directory, File, FileSnapshot, Content, BackupOperation}

pub record Tables : Type 0 where
  pub directories : List Directory
  pub files : List File
  pub file_snapshots : List FileSnapshot
  pub contents : List Content
  pub backup_operations : List BackupOperation
  pub sequence : ℕ

abbrev pub no_rows : Tables
no_rows = record {
  directories = [];
  files = [];
  file_snapshots = [];
  contents = [];
  backup_operations = [];
  sequence = 0;
}

abbrev pub has_directory : Text → Tables → Bool
has_directory id db = any (λ d. text_eq d.id id) db.directories

abbrev pub has_file : Text → Tables → Bool
has_file id db = any (λ f. text_eq f.id id) db.files

abbrev pub has_snapshot : Text → Tables → Bool
has_snapshot id db = any (λ s. text_eq s.id id) db.file_snapshots

abbrev pub has_content : Text → Tables → Bool
has_content id db = any (λ c. text_eq c.id id) db.contents
