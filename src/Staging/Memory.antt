-- ===== src/Staging/Memory.antt =====
-- internal/staging/memory.go: the in-memory store.
pub mod Sizes
pub mod Laws
use Prim.Native.Nat.{◌-◌}
use bt_go.Prelude.{
  ℕ, ◌+◌, ◌≡◌, Bool, ◌&&◌, ◌||◌, Option, none, some, List, [], ◌∷◌, ◌++◌, Text, Bytes, text_eq,
  Assoc, lookup, insert, delete, Result, ok, err, not_found, Act, length, any, if◌then◌else◌, ◌==◌,
}
use bt_go.Staging.Operation.{StagedOperation, matches}
use bt_go.Staging.Store.{StagingStore}

pub record MemoryStore : Type 0 where
  pub content : Assoc Bytes
  pub queue : List StagedOperation
  pub ref_count : Assoc ℕ
  pub current_size : ℕ

unfoldable pub new_memory_store : MemoryStore
new_memory_store = record { content = []; queue = []; ref_count = []; current_size = 0 }

-- m[k] of a map to int: 0 where there is no entry.
abbrev pub at_key : Text → Assoc ℕ → ℕ
at_key k m = elim (lookup k m) [ none ↦ 0 | some n ↦ n ]

-- The queue without the first operation that matches, if one does.
take_op : Text → Text → Text → List StagedOperation → Option (List StagedOperation)
take_op d r c [] = none
take_op d r c (op ∷ queue) =
    let rest = take_op d r c queue in
    if matches d r c op then some queue else (elim rest [ none ↦ none | some q ↦ some (op ∷ q) ])

module _ (sha256_hex : Bytes → Text) where
  -- The whole of `r` is hashed and buffered before the store changes.
  unfoldable pub store_content : Result Bytes → Act MemoryStore (Text × ℕ)
  store_content (err e) m = (err e, m)
  store_content (ok bytes) m = (
    ok (sha256_hex bytes, length bytes),
    (elim (lookup (sha256_hex bytes) m.content) [
      | none ↦ record m {
        content = insert (sha256_hex bytes) bytes m.content;
        current_size = m.current_size + length bytes;
      }
      | some _ ↦ m
    ]),
  )

-- `currentSize` is an int64 in the source and could fall below 0; while it is the sum of the sizes
-- stored the subtraction is exact.
unfoldable pub remove_content : Text → MemoryStore → MemoryStore
remove_content checksum m = elim (lookup checksum m.content) [
  | none ↦ record m { ref_count = delete checksum m.ref_count }
  | some c ↦ record m {
    content = delete checksum m.content;
    current_size = m.current_size - length c;
    ref_count = delete checksum m.ref_count;
  }
]

pub open_content : Text → MemoryStore → Result Bytes
open_content checksum m = elim (lookup checksum m.content) [ none ↦ err not_found | some c ↦ ok c ]

unfoldable pub content_size : MemoryStore → Result ℕ
content_size m = ok m.current_size

unfoldable pub append : StagedOperation → Act MemoryStore (Unit {0})
append op m = (
  ok tt,
  record m {
    queue = m.queue ++ op ∷ [];
    ref_count =
        insert op.snapshot.content_id (at_key op.snapshot.content_id m.ref_count + 1) m.ref_count;
  },
)

pub peek : MemoryStore → Result (Option StagedOperation)
peek m = elim m.queue [ [] ↦ ok none | op ∷ _ ↦ ok (some op) ]

-- The count after `refCount[checksum]--`: where the source has 0 or less it drops the entry.
pub pop : Text → Text → Text → Act MemoryStore ℕ
unfolding take_op
pop d r checksum m = elim (take_op d r checksum m.queue) [
  | none ↦ (ok 0, m)
  | some queue ↦
      let remaining = at_key checksum m.ref_count - 1 in
      if remaining == 0
      then (ok 0, record m { queue = queue; ref_count = delete checksum m.ref_count })
      else (
        ok remaining,
        record m { queue = queue; ref_count = insert checksum remaining m.ref_count },
      )
]

pub len : MemoryStore → Result ℕ
len m = ok (length m.queue)

pub contains : Text → Text → MemoryStore → Result Bool
contains d r m = ok (any (λ op. text_eq op.directory_id d && text_eq op.relative_path r) m.queue)

abbrev pub memory_store : (Bytes → Text) → StagingStore MemoryStore
memory_store sha256_hex = record {
  store_content = store_content sha256_hex;
  remove_content = remove_content;
  open_content = open_content;
  content_size = content_size;
  append = append;
  peek = peek;
  pop = pop;
  len = len;
  contains = contains;
}
