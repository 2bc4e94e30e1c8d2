-- ===== src/Staging/Disk.antt =====
-- internal/staging/filesystem.go: the store in a directory, with the queue in queue.json.
--
-- A directory is a map from names to bytes. A call of the operating system does what it documents
-- and fails only where a file is missing; the temporary file that StoreContent makes in content/ is
-- renamed or removed before it returns, so no state between calls has one. The JSON codec is a
-- parameter. Its round trip is a law for operations that JSON holds without loss: encoding/json
-- replaces what is not UTF-8 in a string, so that a file's name that is not UTF-8 comes back as
-- another.
pub mod Laws
use bt_go.Prelude.{
  ℕ, suc, ◌≡◌, Bool, true, false, not, ◌&&◌, Option, none, some, List, [], ◌∷◌, ◌++◌, Text, Bytes,
  text_eq, Assoc, lookup, insert, delete, Result, ok, err, not_found, Act, length, any, All,
  if◌then◌else◌,
}
use bt_go.Staging.Operation.{StagedOperation, matches}
use bt_go.Staging.Store.{StagingStore, first}
use bt_go.Staging.Memory.Sizes.{total}

pub record Codec : Type 1 where
  pub marshal : List StagedOperation → Bytes
  pub unmarshal : Bytes → Result (List StagedOperation)
  pub IsLossless : StagedOperation → Type 0
  pub round_trip :
      (queue : List StagedOperation) → All IsLossless queue → unmarshal (marshal queue) ≡ ok queue

pub record FilesystemStore : Type 0 where
  pub content_dir : Assoc Bytes
  pub queue_file : Option Bytes

module _ (sha256_hex : Bytes → Text) where
  pub store_content : Result Bytes → Act FilesystemStore (Text × ℕ)
  store_content (err e) f = (err e, f)
  store_content (ok bytes) f = (
    ok (sha256_hex bytes, length bytes),
    (elim (lookup (sha256_hex bytes) f.content_dir) [
      | some _ ↦ f
      | none ↦ record f { content_dir = insert (sha256_hex bytes) bytes f.content_dir }
    ]),
  )

pub remove_content : Text → FilesystemStore → FilesystemStore
remove_content checksum f = record f { content_dir = delete checksum f.content_dir }

pub open_content : Text → FilesystemStore → Result Bytes
open_content checksum f = elim (lookup checksum f.content_dir) [
  | none ↦ err not_found
  | some c ↦ ok c
]

pub content_size : FilesystemStore → Result ℕ
content_size f = ok (total f.content_dir)

-- The loop of `Pop`: the queue to write back, and how many operations in it have the checksum.
pub pop_loop : Text → Text → Text → Bool → List StagedOperation → List StagedOperation × ℕ
pop_loop d r c removed [] = ([], 0)
pop_loop d r c removed (op ∷ queue) = elim (not removed && matches d r c op) [
  | true ↦ pop_loop d r c true queue
  | false ↦
      let rest = pop_loop d r c removed queue in
      (op ∷ rest.0, (if text_eq op.snapshot.content_id c then suc rest.1 else rest.1))
]

module _ (codec : Codec) where
  pub read_queue : FilesystemStore → Result (List StagedOperation)
  read_queue f = elim f.queue_file [ none ↦ ok [] | some contents ↦ codec.unmarshal contents ]

  pub write_queue : List StagedOperation → FilesystemStore → FilesystemStore
  write_queue queue f = record f { queue_file = some (codec.marshal queue) }

  pub append : StagedOperation → Act FilesystemStore (Unit {0})
  append op f = elim (read_queue f) [
    | err e ↦ (err e, f)
    | ok queue ↦ (ok tt, write_queue (queue ++ op ∷ []) f)
  ]

  pub peek : FilesystemStore → Result (Option StagedOperation)
  peek f = elim (read_queue f) [ err e ↦ err e | ok queue ↦ ok (first queue) ]

  pub pop : Text → Text → Text → Act FilesystemStore ℕ
  pop d r checksum f = elim (read_queue f) [
    | err e ↦ (err e, f)
    | ok queue ↦ (
      ok (pop_loop d r checksum false queue).1,
      write_queue (pop_loop d r checksum false queue).0 f,
    )
  ]

  pub len : FilesystemStore → Result ℕ
  len f = elim (read_queue f) [ err e ↦ err e | ok queue ↦ ok (length queue) ]

  pub contains : Text → Text → FilesystemStore → Result Bool
  contains d r f = elim (read_queue f) [
    | err e ↦ err e
    | ok queue ↦ ok (any (λ op. text_eq op.directory_id d && text_eq op.relative_path r) queue)
  ]

abbrev pub filesystem_store : (Bytes → Text) → Codec → StagingStore FilesystemStore
filesystem_store sha256_hex codec = record {
  store_content = store_content sha256_hex;
  remove_content = remove_content;
  open_content = open_content;
  content_size = content_size;
  append = append codec;
  peek = peek codec;
  pop = pop codec;
  len = len codec;
  contains = contains codec;
}
