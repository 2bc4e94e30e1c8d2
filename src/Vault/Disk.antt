-- ===== src/Vault/Disk.antt =====
-- internal/vault/filesystem.go: a vault in a directory.
--
-- A directory is a map from names to bytes; an item of a host's metadata directory is named
-- host/name. writeFile's temporary file is renamed or removed before it returns. A call of the
-- operating system fails only where a file is missing. strconv's formatting of a version is a
-- parameter, with its round trip as the law.
pub mod Laws
pub mod Metadata
use bt_go.Prelude.{
  ℕ, ◌≡◌, Bool, ◌&&◌, Option, none, some, [], ◌∷◌, ◌++◌, Text, Bytes, codes, Assoc, lookup, insert,
  length, Result, ok, err, size_mismatch, not_found, not_a_directory, Act, ◌==◌, if◌then◌else◌,
}
use bt_go.Vault.{Vault}

pub record Decimal : Type 0 where
  pub format_int : ℕ → Bytes
  pub parse_int : Bytes → Result ℕ
  pub round_trip : (n : ℕ) → parse_int (format_int n) ≡ ok n

pub record FileSystemVault : Type 0 where
  pub content_dir : Assoc Bytes
  pub metadata_dir : Assoc Bytes
  -- Whether the root and the two directories below it are there, as directories.
  pub root_is_dir : Bool
  pub content_is_dir : Bool
  pub metadata_is_dir : Bool

-- A directory's new contents, if the whole reader had the expected size.
pub write_file : Text → Result Bytes → ℕ → Assoc Bytes → Result (Assoc Bytes)
write_file name (err e) expected_size files = err e
write_file name (ok contents) expected_size files =
    if length contents == expected_size then ok (insert name contents files) else err size_mismatch

unfoldable pub read_file : Text → Assoc Bytes → Result Bytes
read_file name files = elim (lookup name files) [ none ↦ err not_found | some b ↦ ok b ]

-- Content that is there is kept: the reader is only measured.
pub consume : Result Bytes → ℕ → Result (Unit {0})
consume (err e) size = err e
consume (ok contents) size = if length contents == size then ok tt else err size_mismatch

pub put_content : Text → Result Bytes → ℕ → Act FileSystemVault (Unit {0})
unfolding write_file consume
put_content checksum reader size v = elim (lookup checksum v.content_dir) [
  | some _ ↦ (consume reader size, v)
  | none ↦ elim (write_file checksum reader size v.content_dir) [
    | err e ↦ (err e, v)
    | ok files ↦ (ok tt, record v { content_dir = files })
  ]
]

unfoldable pub get_content : Text → FileSystemVault → Result Bytes
unfolding read_file
get_content checksum v = read_file checksum v.content_dir

-- filepath.Join of a host id and a name that are single path components.
abbrev pub item : Text → Text → Text
item host_id name = host_id ++ (b'/' ∷ name)

abbrev pub version_item : Text → Text → Text
version_item host_id name = host_id ++ (b'/' ∷ (name ++ codes ".version"))

module _ (decimal : Decimal) where
  pub put_metadata : Text → Text → Result Bytes → ℕ → ℕ → Act FileSystemVault (Unit {0})
  unfolding write_file
  put_metadata host_id name reader size version v =
      elim (write_file (item host_id name) reader size v.metadata_dir) [
        | err e ↦ (err e, v)
        | ok files ↦ (
          ok tt,
          record v {
            metadata_dir = insert (version_item host_id name) (decimal.format_int version) files;
          },
        )
      ]

  pub get_metadata_version : Text → Text → FileSystemVault → Result ℕ
  get_metadata_version host_id name v = elim (lookup (version_item host_id name) v.metadata_dir) [
    | none ↦ ok 0
    | some text ↦ decimal.parse_int text
  ]

pub get_metadata : Text → Text → FileSystemVault → Result Bytes
unfolding read_file
get_metadata host_id name v = read_file (item host_id name) v.metadata_dir

pub validate_setup : FileSystemVault → Result (Unit {0})
validate_setup v =
    if v.root_is_dir && (v.content_is_dir && v.metadata_is_dir) then ok tt else err not_a_directory

abbrev pub filesystem_vault : Decimal → Vault FileSystemVault
filesystem_vault decimal = record {
  put_content = put_content;
  get_content = get_content;
  put_metadata = put_metadata decimal;
  get_metadata = get_metadata;
  get_metadata_version = get_metadata_version decimal;
  validate_setup = validate_setup;
}
