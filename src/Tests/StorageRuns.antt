-- ===== src/Tests/StorageRuns.antt =====
-- The vaults and the encryptor.
use bt_go.Prelude.{
  ℕ, ◌≡◌, ◌↔◌, refl, true, ◌++◌, [], ◌∷◌, Bytes, codes, text_eq, lookup, Result, ok, err, not_found,
  length,
}
use bt_go.Vault.{Storage}
use bt_go.Vault.Memory.{new_memory_vault, put_metadata, get_metadata, get_metadata_version}
use bt_go.Vault.Memory.Laws.{put_metadata_lem}
use bt_go.Vault.Disk.{FileSystemVault, Decimal, filesystem_vault, put_content, get_content}
use bt_go.Vault.Disk.Laws.{filesystem_vault-Storage, put_content-keeps}
use bt_go.Encryption.Header.{encrypt, decrypt, decrypt-encrypt}
use bt_go.Tests.Data.{hash, content}

put_metadata_lem_example :
    let r =
      put_metadata (codes "host") (codes "db") (ok content) (length content) 5 new_memory_vault in
    (r.0 ≡ ok tt)
    × (get_metadata (codes "host") (codes "db") r.1 ≡ ok content)
    × (get_metadata_version (codes "host") (codes "db") r.1 ≡ ok 5)
put_metadata_lem_example = put_metadata_lem new_memory_vault (codes "host") (codes "db") content 5

-- In place of the decimal digits.
abbrev first_byte : Bytes → Result ℕ
first_byte [] = err not_found
first_byte (n ∷ rest) = ok n

abbrev pub decimal : Decimal
decimal = record { format_int = λ n. n ∷ []; parse_int = first_byte; round_trip = λ n. refl }

filesystem_vault-Storage_example : Storage (filesystem_vault decimal)
filesystem_vault-Storage_example = filesystem_vault-Storage decimal

abbrev full_vault : FileSystemVault
full_vault = record {
  content_dir = (hash content, content) ∷ [];
  metadata_dir = [];
  root_is_dir = true;
  content_is_dir = true;
  metadata_is_dir = true;
}

put_content-keeps_example :
    get_content (hash content) (put_content (hash content) (ok []) 0 full_vault).1 ≡ ok content
unfolding get_content text_eq lookup
put_content-keeps_example =
    put_content-keeps full_vault (hash content) (hash content) content (ok []) 0 refl

decrypt-encrypt_example :
    (decrypt (encrypt 0 (ok content)) ≡ ok content)
    ↔ (encrypt 0 (ok content) ≡ encrypt 0 (ok content))
unfolding encrypt
decrypt-encrypt_example = decrypt-encrypt 0 content (codes "BTENC" ++ (0 ∷ 0 ∷ 0 ∷ content))
