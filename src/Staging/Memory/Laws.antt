-- ===== src/Staging/Memory/Laws.antt =====
-- The in-memory store keeps the contract of a staging store.
use bt_go.Prelude.{
  any, Bool-cases, true, sym, ap, ◌∙◌, ◌+◌, ◌-◌, ◌≡◌, ◌≤◌, refl, inl, inr, none, some, List, [],
  ◌∷◌, ◌++◌, Text, Bytes, text_eq, text_eq_iff, text_eq_refl, lookup, lookup-insert, lookup-delete,
  Distinct, insert-Distinct, delete-Distinct, Option-cases, ok, arith, if◌then◌else◌,
}
use bt_go.Staging.Operation.{StagedOperation, matches}
use bt_go.Staging.Store.{
  Views, Contract, refs, remove_first, remove_first-none, refs-remove_first, keep_or,
}
use bt_go.Staging.Memory.{
  MemoryStore, new_memory_store, at_key, take_op, store_content, remove_content, open_content,
  content_size, append, peek, pop, len, contains, memory_store,
}
use bt_go.Staging.Memory.Sizes.{total, total-insert, total-delete}

-- Each checksum has one entry, `current_size` is the sum of the sizes, and the reference counts are
-- those of the queue.
pub record IsConsistent (m : MemoryStore) : Type 0 where
  pub distinct : Distinct m.content
  pub sized : m.current_size ≡ total m.content
  pub counted : (c : Text) → at_key c m.ref_count ≡ refs c m.queue

abbrev pub memory_views : Views MemoryStore
memory_views = record {
  IsSound = IsConsistent;
  contents = λ m c. lookup c m.content;
  queue = λ m. m.queue;
  size = λ m. m.current_size;
}

pub new_memory_store-IsConsistent : IsConsistent new_memory_store
unfolding new_memory_store lookup
new_memory_store-IsConsistent = record { distinct = tt; sized = refl; counted = λ c. refl }

refs-append :
    (c : Text) (xs : List StagedOperation) (op : StagedOperation)
    → refs c (xs ++ op ∷ [])
      ≡ (if text_eq op.snapshot.content_id c then refs c xs + 1 else refs c xs)
refs-append c [] op = ground arith
refs-append c (x ∷ xs) op = ground (arith, refs-append c xs op)

take_op-remove_first :
    (d r c : Text) (queue : List StagedOperation)
    → take_op d r c queue
      ≡ (if any (matches d r c) queue then some (remove_first (matches d r c) queue) else none)
unfolding take_op
take_op-remove_first d r c [] = refl
take_op-remove_first d r c (op ∷ queue) = ground (arith, take_op-remove_first d r c queue)

module _ (sha256_hex : Bytes → Text) where
  store_contents :
      (m : MemoryStore) (b : Bytes) (c : Text)
      → lookup c (store_content sha256_hex (ok b) m).1.content
        ≡ (if text_eq (sha256_hex b) c then keep_or b (lookup c m.content) else lookup c m.content)
  unfolding store_content
  store_contents m b c =
      ground (arith, lookup-insert (sha256_hex b) c b m.content, text_eq_iff (sha256_hex b) c)

  store_IsConsistent :
      (m : MemoryStore) (b : Bytes)
      → IsConsistent m
      → IsConsistent (store_content sha256_hex (ok b) m).1
  unfolding store_content
  store_IsConsistent m b v = elim (Option-cases (lookup (sha256_hex b) m.content)) [
    | inl e ↦
        rw (e, store_content)
          (record {
            distinct = insert-Distinct (sha256_hex b) b m.content v.distinct;
            sized = omega (arith, total-insert (sha256_hex b) b m.content e, v.sized);
            counted = v.counted;
          })
    | inr (old, e) ↦ rw (e, store_content) v
  ]

  store_known :
      (m : MemoryStore) (b old : Bytes)
      → lookup (sha256_hex b) m.content ≡ some old
      → (store_content sha256_hex (ok b) m).1.current_size ≡ m.current_size
  unfolding store_content
  store_known m b old h = ground arith

  store_remove :
      (m : MemoryStore) (b : Bytes)
      → lookup (sha256_hex b) m.content ≡ none
      → (remove_content (sha256_hex b) (store_content sha256_hex (ok b) m).1).current_size
        ≤ m.current_size
  unfolding store_content remove_content
  store_remove m b h =
      ground (
        arith,
        lookup-insert (sha256_hex b) (sha256_hex b) b m.content,
        text_eq_refl (sha256_hex b),
      )

remove_contents :
    (m : MemoryStore) (c k : Text)
    → lookup k (remove_content c m).content ≡ (if text_eq c k then none else lookup k m.content)
unfolding remove_content
remove_contents m c k = ground (arith, lookup-delete c k m.content, text_eq_iff c k)

remove_IsConsistent :
    (m : MemoryStore) (c : Text)
    → IsConsistent m
    → refs c m.queue ≡ 0
    → IsConsistent (remove_content c m)
unfolding remove_content
remove_IsConsistent m c v h = elim (Option-cases (lookup c m.content)) [
  | inl e ↦
      rw (e, remove_content)
        (record {
          distinct = v.distinct;
          sized = v.sized;
          counted =
              λ k. ground (arith, lookup-delete c k m.ref_count, text_eq_iff c k, v.counted k);
        })
  | inr (b, e) ↦
      rw (e, remove_content)
        (record {
          distinct = delete-Distinct c m.content v.distinct;
          sized = omega (arith, total-delete c b m.content v.distinct e, v.sized);
          counted =
              λ k. ground (arith, lookup-delete c k m.ref_count, text_eq_iff c k, v.counted k);
        })
]

append_IsConsistent :
    (m : MemoryStore) (op : StagedOperation) → IsConsistent m → IsConsistent (append op m).1
unfolding append
append_IsConsistent m op v = record {
  distinct = v.distinct;
  sized = v.sized;
  counted = λ c. ground (
    arith,
    lookup-insert op.snapshot.content_id c (at_key op.snapshot.content_id m.ref_count + 1)
        m.ref_count,
    text_eq_iff op.snapshot.content_id c,
    refs-append c m.queue op,
    v.counted c,
  );
}

module _ (m : MemoryStore) (d r c : Text) where
  pop_queue : (pop d r c m).1.queue ≡ remove_first (matches d r c) m.queue
  unfolding pop
  pop_queue = elim (Bool-cases (any (matches d r c) m.queue)) [
    | inl e ↦ ground (arith, take_op-remove_first d r c m.queue, e)
    | inr e ↦
        ground (
          arith,
          take_op-remove_first d r c m.queue,
          e,
          remove_first-none (matches d r c) m.queue e,
        )
  ]

  pop_result :
      IsConsistent m
      → any (matches d r c) m.queue ≡ true
      → (pop d r c m).0 ≡ ok (refs c (remove_first (matches d r c) m.queue))
  unfolding pop
  pop_result v e = ground (
    arith,
    take_op-remove_first d r c m.queue,
    e,
    v.counted c,
    refs-remove_first d r c c m.queue e,
    text_eq_refl c,
  )

  pop_counted :
      IsConsistent m
      → (k : Text)
      → at_key k (pop d r c m).1.ref_count ≡ refs k (remove_first (matches d r c) m.queue)
  unfolding pop
  pop_counted v k = elim (Bool-cases (any (matches d r c) m.queue)) [
    | inl e ↦ ground (
      arith,
      take_op-remove_first d r c m.queue,
      e,
      v.counted k,
      v.counted c,
      refs-remove_first d r c k m.queue e,
      refs-remove_first d r c c m.queue e,
      text_eq_refl c,
      text_eq_iff c k,
      lookup-delete c k m.ref_count,
      lookup-insert c k (at_key c m.ref_count - 1) m.ref_count,
    )
    | inr e ↦ ground (
      arith,
      take_op-remove_first d r c m.queue,
      e,
      v.counted k,
      remove_first-none (matches d r c) m.queue e,
    )
  ]

pop_content :
    (m : MemoryStore) (d r c : Text)
    → ((pop d r c m).1.content ≡ m.content) × ((pop d r c m).1.current_size ≡ m.current_size)
unfolding pop
pop_content m d r c = (ground arith, ground arith)

pop_IsConsistent : (m : MemoryStore) (d r c : Text) → IsConsistent m → IsConsistent (pop d r c m).1
pop_IsConsistent m d r c v =
    let content = pop_content m d r c in
    record {
      distinct = rw content.0 v.distinct;
      sized = content.1 ∙ v.sized ∙ sym (ap total content.0);
      counted = λ k. pop_counted m d r c v k ∙ sym (ap (refs k) (pop_queue m d r c));
    }

-- The in-memory store keeps the contract of a staging store: content is stored once under its
-- checksum, the queue is first in first out, `pop` removes the first operation that matches and
-- reports the references that are left if there is one, and `current_size` is the sum of the sizes
-- stored.
pub memory_store-Contract :
    (sha256_hex : Bytes → Text) → Contract sha256_hex (memory_store sha256_hex) memory_views
unfolding store_content remove_content open_content content_size append peek len contains
memory_store-Contract sha256_hex = record {
  store_broken = λ m e. refl;
  store_result = λ m b. refl;
  store_contents = store_contents sha256_hex;
  store_queue = λ m b. ground arith;
  store_known = store_known sha256_hex;
  store_remove = store_remove sha256_hex;
  store_IsSound = store_IsConsistent sha256_hex;
  remove_contents = remove_contents;
  remove_queue = λ m c. ground arith;
  remove_size = λ m c. ground arith;
  remove_IsSound = remove_IsConsistent;
  open_lem = λ m c. ground arith;
  size_lem = λ m v. refl;
  append_result = λ m op v. refl;
  append_contents = λ m op c. refl;
  append_queue = λ m op v fits. refl;
  append_size = λ m op. refl;
  append_IsSound = λ m op v fits. append_IsConsistent m op v;
  peek_lem = λ m v. ground arith;
  len_lem = λ m v. refl;
  contains_lem = λ m d r v. refl;
  pop_result = pop_result;
  pop_queue = λ m d r c v. pop_queue m d r c;
  pop_contents = λ m d r c k. ap (lookup k) (pop_content m d r c).0;
  pop_size = λ m d r c. (pop_content m d r c).1;
  pop_IsSound = pop_IsConsistent;
}
