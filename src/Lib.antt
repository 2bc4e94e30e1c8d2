-- ===== src/Lib.antt =====
-- bt, an incremental file backup tool.
--
-- The program tracks directories, stages copies of files, uploads the staged contents to a vault
-- under their checksums, encrypted or not, records in a database which file had which content
-- when, and restores files from the vault.
--
-- How the parts interact. `bt add` tracks a directory through the service (internal/bt/service.go)
-- in the database (internal/database). Staging a file (internal/staging) copies its bytes into a
-- content store and queues an operation that describes the file. A backup takes the queue in
-- order: for each operation the service's callback uploads the content to the vault
-- (internal/vault), through the encryptor if the directory is encrypted, and records file, snapshot
-- and content in one database transaction; then the operation leaves the queue and its content is
-- removed if nothing else in the queue refers to it. A restore (internal/bt/restore.go) goes from
-- a path to a directory, a file, a snapshot and a content record, and from there to the vault.
-- Each command is one run of the application (internal/app/app.go): it checks the local database
-- against the version of its copy in the vault, records the operation before it changes the
-- database, and on Close uploads a new copy under the operation's id.
--
-- The modules:
--   Prelude       Booleans and lists over native numbers, texts, maps, results, and actions: an
--                 action takes a state to a result and the state that the call leaves, so that what
--                 was done before an error stays visible.
--   Models        the rows, internal/database/sqlc/models.go.
--   Filesystem    internal/bt/path.go, internal/bt/filesystem.go.
--   FilePaths     the functions of Go's path/filepath that the program calls, on Unix paths, as
--                 that package documents them.
--   Staging       internal/staging: Operation (operation.go), Store (store.go, with its contract
--                 as laws), Memory (memory.go), Disk (filesystem.go), Area (staging.go).
--   Database      internal/database: Tables (the schema), Queries (sqlc/queries.sql.go), Like
--                 (SQLite's LIKE), Sqlite (sqlite.go), Recording (CreateFileSnapshotAndContent),
--                 Consolidation (CreateDirectory), Search (SearchDirectoryForPath).
--                 Keeping (what leaves the record of operations alone), Migrations
--                 (migrations/migrations.go).
--   Vault         internal/bt/vault.go, Memory (internal/vault/memory.go), Disk
--                 (internal/vault/filesystem.go), S3 (internal/vault/s3.go); Metadata is what the
--                 application relies on, Uploads what a backup relies on when uploads can fail.
--   Encryption    internal/bt/encryptor.go, Header (internal/encryption/test.go), Age
--                 (internal/encryption/age.go).
--   Config        internal/config/config.go, with the four factories (factory.go of internal/vault,
--                 internal/staging, internal/database and internal/encryption).
--   Fs            internal/fs: Glob (filepath.Match), Ignore (ignore.go), Os (filesystem.go).
--   Service       Intake (AddDirectory, StageFiles), Backup (backupFile of
--                 internal/bt/service.go), Queue (BackupAll), Restore (internal/bt/restore.go),
--                 Status (status.go), History (log.go, history.go).
--   App           internal/app: NewBTApp and the commands, Reading (those that record no
--                 operation), Closing (Close and its uploads), Operation (operation.go), Sessions
--                 (the runs of the program on one machine).
--   Commands      cmd/bt/main.go: bt config init and the letters of bt dir status, with
--                 internal/app/defaults.go.
--   Tests         the theorems at concrete inputs.
--
-- Functions keep the source's names: `stage` is stagingArea.Stage, `process_next` is ProcessNext,
-- `backup_file` is BTService.backupFile, `fetch` is the part of restoreOneFile that gets the bytes.
-- A long function is cut at its steps: `store_and_finish` and `finish` are the later steps of Stage,
-- `record_body` and the definitions above it those of CreateFileSnapshotAndContent.
--
-- State is passed explicitly. A reader is the bytes that it will yield, or the error on which it
-- breaks off. An error is its innermost cause: the messages that callers wrap around it, and the
-- logging, are left out. A lock makes the calls of a store exclusive, so a call runs from start to
-- end. Go's int64 sizes and ids are natural numbers: none is computed below 0, and the sizes of
-- contents that fit a disk do not reach 2^63.
--
-- Parameters: SHA-256, of which an injective function with nonempty values stands for the absence
-- of collisions; the ids and times that uuid and the clock give; the encryptor; the JSON codec of the
-- queue file, with its round trip for what it holds without loss as the law, and the decimal format
-- of versions, with its round trip; the calls of the operating system, those that set a restored
-- file's mode and times with their failures, as they answer at one moment; the client of S3, which answers as S3 is
-- documented to while the service is there; the age library, with the round trips of its keys and
-- its encryption as laws; the driver of the migrations; the TOML encoder; the copy of the database
-- that SQLite makes.
--
-- Fuel: the loop of BackupAll takes one unit for a round, and one more than the queue's length is
-- enough; the reversal of a history takes as many as there are entries; the search for the newest
-- migration as many as there are versions after the first. All other loops go through a list.
--
-- Times. A time has an instant and the offset of the location that it is shown in. The driver stores
-- it as text that begins with the local time, which is what ORDER BY created_at compares, and reads
-- it back with the same instant and offset. ExtractStatData gives no birth time, so that the birth
-- time is the null one everywhere.
--
-- Names. The queue in a directory is related to the contract for operations that JSON holds without
-- loss: encoding/json replaces what is not UTF-8 in a file's name. The host ids and the names of
-- metadata items are single path components, so that joining them to a directory cleans nothing.
--
-- Not modelled: errors of the operating system and of SQLite other than a missing file, a missing row,
-- a violated constraint, and a mode or times that cannot be set on a restored file; running the migrations; reading the TOML file; the format of the log;
-- the commands that only open the application, call one operation of it and print the answer.
mod Prelude
pub mod Models
pub mod Filesystem
pub mod FilePaths
pub mod Staging
pub mod Database
pub mod Config
pub mod Commands
pub mod Fs
pub mod Vault
pub mod Encryption
pub mod Service
pub mod App
pub mod Tests
