-- ===== src/Staging/Store.antt =====
-- internal/staging/store.go: the interface `stagingStore`, and the contract that the staging area
-- relies on. The Go interface states the contract in comments; `ContractFor` states it as laws about
-- views of a store: its contents, its queue and its size.
use bt_go.Prelude.{
  ℕ, ◌≡◌, ◌∙◌, refl, true, text_eq_refl, text_eq_sound, Bool-cases, inl, inr, false, ◌+◌, arith,
  ◌≤◌, Bool, ◌&&◌, Option, none, some, List, [], ◌∷◌, ◌++◌, Text, Bytes, text_eq, Result, Error, ok,
  err, not_found, Act, length, count, any, if◌then◌else◌,
}
use bt_go.Staging.Operation.{StagedOperation, matches}

pub record StagingStore (S : Type 0) : Type 0 where
  pub store_content : Result Bytes → Act S (Text × ℕ)
  pub remove_content : Text → S → S
  pub open_content : Text → S → Result Bytes
  pub content_size : S → Result ℕ
  pub append : StagedOperation → Act S (Unit {0})
  pub peek : S → Result (Option StagedOperation)
  pub pop : Text → Text → Text → Act S ℕ
  pub len : S → Result ℕ
  pub contains : Text → Text → S → Result Bool

-- How many queued operations refer to a checksum.
abbrev pub refs : Text → List StagedOperation → ℕ
refs checksum = count (λ op. text_eq op.snapshot.content_id checksum)

abbrev pub first : List StagedOperation → Option StagedOperation
first [] = none
first (op ∷ queue) = some op

abbrev pub or_not_found : Option Bytes → Result Bytes
or_not_found none = err not_found
or_not_found (some b) = ok b

-- What is stored already is kept.
abbrev pub keep_or : Bytes → Option Bytes → Option Bytes
keep_or b none = some b
keep_or b (some old) = some old

abbrev pub named : Text → Text → StagedOperation → Bool
named d r op = text_eq op.directory_id d && text_eq op.relative_path r

-- The queue without the first operation that passes the test.
abbrev pub remove_first : (StagedOperation → Bool) → List StagedOperation → List StagedOperation
remove_first p [] = []
remove_first p (op ∷ queue) = let rest = remove_first p queue in if p op then queue else op ∷ rest

-- Three views of a store's state, and the states in which its calls keep the contract.
pub record Views (S : Type 0) : Type 1 where
  pub IsSound : S → Type 0
  pub contents : S → Text → Option Bytes
  pub queue : S → List StagedOperation
  pub size : S → ℕ

-- What a store promises of its calls, in a sound state, when what is appended is as `Fits` says.
pub record ContractFor {S : Type 0} (Fits : StagedOperation → Type 0) (sha256_hex : Bytes → Text)
    (store : StagingStore S) (v : Views S) : Type 0 where
  -- StoreContent
  pub store_broken : (s : S) (e : Error) → store.store_content (err e) s ≡ (err e, s)
  pub store_result :
      (s : S) (b : Bytes) → (store.store_content (ok b) s).0 ≡ ok (sha256_hex b, length b)
  pub store_contents :
      (s : S) (b : Bytes) (c : Text)
      → v.contents (store.store_content (ok b) s).1 c
        ≡ (if text_eq (sha256_hex b) c then keep_or b (v.contents s c) else v.contents s c)
  pub store_queue : (s : S) (b : Bytes) → v.queue (store.store_content (ok b) s).1 ≡ v.queue s
  pub store_known :
      (s : S) (b old : Bytes)
      → v.contents s (sha256_hex b) ≡ some old
      → v.size (store.store_content (ok b) s).1 ≡ v.size s
  pub store_remove :
      (s : S) (b : Bytes)
      → v.contents s (sha256_hex b) ≡ none
      → v.size (store.remove_content (sha256_hex b) (store.store_content (ok b) s).1) ≤ v.size s
  pub store_IsSound : (s : S) (b : Bytes) → v.IsSound s → v.IsSound (store.store_content (ok b) s).1
  -- RemoveContent
  pub remove_contents :
      (s : S) (c k : Text)
      → v.contents (store.remove_content c s) k ≡ (if text_eq c k then none else v.contents s k)
  pub remove_queue : (s : S) (c : Text) → v.queue (store.remove_content c s) ≡ v.queue s
  pub remove_size : (s : S) (c : Text) → v.size (store.remove_content c s) ≤ v.size s
  pub remove_IsSound :
      (s : S) (c : Text)
      → v.IsSound s
      → refs c (v.queue s) ≡ 0
      → v.IsSound (store.remove_content c s)
  -- OpenContent and ContentSize
  pub open_lem : (s : S) (c : Text) → store.open_content c s ≡ or_not_found (v.contents s c)
  pub size_lem : (s : S) → v.IsSound s → store.content_size s ≡ ok (v.size s)
  -- Append
  pub append_result : (s : S) (op : StagedOperation) → v.IsSound s → (store.append op s).0 ≡ ok tt
  pub append_contents :
      (s : S) (op : StagedOperation) (c : Text)
      → v.contents (store.append op s).1 c ≡ v.contents s c
  pub append_queue :
      (s : S) (op : StagedOperation)
      → v.IsSound s
      → Fits op
      → v.queue (store.append op s).1 ≡ v.queue s ++ op ∷ []
  pub append_size : (s : S) (op : StagedOperation) → v.size (store.append op s).1 ≡ v.size s
  pub append_IsSound :
      (s : S) (op : StagedOperation) → v.IsSound s → Fits op → v.IsSound (store.append op s).1
  -- Peek, Len and Contains
  pub peek_lem : (s : S) → v.IsSound s → store.peek s ≡ ok (first (v.queue s))
  pub len_lem : (s : S) → v.IsSound s → store.len s ≡ ok (length (v.queue s))
  pub contains_lem :
      (s : S) (d r : Text) → v.IsSound s → store.contains d r s ≡ ok (any (named d r) (v.queue s))
  -- Pop, of any operation. Where none matches, the count that it returns is left open.
  pub pop_result :
      (s : S) (d r c : Text)
      → v.IsSound s
      → any (matches d r c) (v.queue s) ≡ true
      → (store.pop d r c s).0 ≡ ok (refs c (remove_first (matches d r c) (v.queue s)))
  pub pop_queue :
      (s : S) (d r c : Text)
      → v.IsSound s
      → v.queue (store.pop d r c s).1 ≡ remove_first (matches d r c) (v.queue s)
  pub pop_contents : (s : S) (d r c k : Text) → v.contents (store.pop d r c s).1 k ≡ v.contents s k
  pub pop_size : (s : S) (d r c : Text) → v.size (store.pop d r c s).1 ≡ v.size s
  pub pop_IsSound : (s : S) (d r c : Text) → v.IsSound s → v.IsSound (store.pop d r c s).1

-- The contract of a store that takes every operation.
abbrev pub Contract : {S : Type 0} → (Bytes → Text) → StagingStore S → Views S → Type 0
Contract sha256_hex store v = ContractFor (λ op. Unit {0}) sha256_hex store v

-- An operation is its own match, so that popping the head leaves the rest.
matches_own :
    (op : StagedOperation) (rest : List StagedOperation)
    → (any (matches op.directory_id op.relative_path op.snapshot.content_id) (op ∷ rest) ≡ true)
      × (remove_first (matches op.directory_id op.relative_path op.snapshot.content_id) (op ∷ rest)
          ≡ rest)
matches_own op rest = (
  ground (
    arith,
    text_eq_refl op.directory_id,
    text_eq_refl op.relative_path,
    text_eq_refl op.snapshot.content_id,
  ),
  ground (
    arith,
    text_eq_refl op.directory_id,
    text_eq_refl op.relative_path,
    text_eq_refl op.snapshot.content_id,
  ),
)

pub remove_first-none :
    (p : StagedOperation → Bool) (queue : List StagedOperation)
    → any p queue ≡ false
    → remove_first p queue ≡ queue
remove_first-none p [] h = refl
remove_first-none p (op ∷ queue) h = ground (arith, h, remove_first-none p queue)

-- What an operation that leaves takes from the references.
pub refs-remove_first :
    (d r c k : Text) (queue : List StagedOperation)
    → any (matches d r c) queue ≡ true
    → refs k queue ≡ (
        if text_eq c k
        then refs k (remove_first (matches d r c) queue) + 1
        else refs k (remove_first (matches d r c) queue))
refs-remove_first d r c k [] h = cc
refs-remove_first d r c k (op ∷ queue) h = elim (Bool-cases (matches d r c op)) [
  | inl e ↦
      let same : op.snapshot.content_id ≡ c =
        text_eq_sound op.snapshot.content_id c (ground (arith, e)) in
      rw (e, same) (ground arith)
  | inr e ↦
      let again = refs-remove_first d r c k queue (ground (arith, h, e)) in
      rw e (ground (arith, again))
]

module _ {S : Type 0} (sha256_hex : Bytes → Text) (store : StagingStore S) (v : Views S)
    (law : Contract sha256_hex store v) (s : S) (op : StagedOperation) (rest : List StagedOperation)
    (sound : v.IsSound s) (head : v.queue s ≡ op ∷ rest) where
  pub pop_head_result :
      (store.pop op.directory_id op.relative_path op.snapshot.content_id s).0
      ≡ ok (refs op.snapshot.content_id rest)
  pop_head_result =
      law.pop_result s op.directory_id op.relative_path op.snapshot.content_id sound
        (rw head (matches_own op rest).0)
      ∙ rw (head, (matches_own op rest).1) refl

  pub pop_head_queue :
      v.queue (store.pop op.directory_id op.relative_path op.snapshot.content_id s).1 ≡ rest
  pop_head_queue =
      law.pop_queue s op.directory_id op.relative_path op.snapshot.content_id sound
      ∙ rw head (matches_own op rest).1
