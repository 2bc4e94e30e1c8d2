-- ===== src/Staging/Disk/Laws.antt =====
-- The store in a directory keeps the contract of a staging store.
use bt_go.Prelude.{
  Bool, Bool-cases, inl, inr, All, All-append, ap, ℕ, ◌≡◌, ◌≤◌, refl, true, false, none, List, [],
  ◌∷◌, ◌++◌, Text, Bytes, text_eq, text_eq_iff, text_eq_refl, Assoc, lookup, insert, delete,
  lookup-insert, lookup-delete, Result, ok, err, arith, if◌then◌else◌,
}
use bt_go.Staging.Operation.{StagedOperation, matches}
use bt_go.Staging.Store.{Views, ContractFor, refs, remove_first, keep_or}
use bt_go.Staging.Memory.Sizes.{total, total-delete-le}
use bt_go.Staging.Disk.{
  Codec, FilesystemStore, store_content, remove_content, open_content, content_size, pop_loop,
  read_queue, write_queue, append, peek, pop, len, contains, filesystem_store,
}

delete-insert :
    (k : Text) (b : Bytes) (m : Assoc Bytes) → lookup k m ≡ none → delete k (insert k b m) ≡ m
unfolding lookup insert delete
delete-insert k b [] h = ground (arith, text_eq_refl k)
delete-insert k b ((j, c) ∷ m) h = ground (arith, delete-insert k b m)

abbrev queue_or_empty : Result (List StagedOperation) → List StagedOperation
queue_or_empty (ok queue) = queue
queue_or_empty (err e) = []

-- The queue file is absent or can be parsed, and what is in it can be written back.
abbrev pub IsReadable : Codec → FilesystemStore → Type 0
IsReadable codec f =
    (queue : List StagedOperation) × (read_queue codec f ≡ ok queue) × All codec.IsLossless queue

abbrev pub filesystem_views : Codec → Views FilesystemStore
filesystem_views codec = record {
  IsSound = IsReadable codec;
  contents = λ f c. lookup c f.content_dir;
  queue = λ f. queue_or_empty (read_queue codec f);
  size = λ f. total f.content_dir;
}

-- After the removal the loop copies the rest and counts it.
pop_loop_rest :
    (d r c : Text) (queue : List StagedOperation)
    → pop_loop d r c true queue ≡ (queue, refs c queue)
unfolding pop_loop
pop_loop_rest d r c [] = refl
pop_loop_rest d r c (op ∷ queue) = ground (arith, pop_loop_rest d r c queue)

-- The loop removes the first match, and counts in what is left.
pop_loop_lem :
    (d r c : Text) (queue : List StagedOperation)
    → pop_loop d r c false queue
      ≡ (remove_first (matches d r c) queue, refs c (remove_first (matches d r c) queue))
unfolding pop_loop
pop_loop_lem d r c [] = refl
pop_loop_lem d r c (op ∷ queue) =
    ground (arith, pop_loop_rest d r c queue, pop_loop_lem d r c queue)

remove_first-All :
    (P : StagedOperation → Type 0) (p : StagedOperation → Bool) (queue : List StagedOperation)
    → All P queue
    → All P (remove_first p queue)
remove_first-All P p [] h = tt
remove_first-All P p (op ∷ queue) h = elim (Bool-cases (p op)) [
  | inl e ↦ rw e h.1
  | inr e ↦ rw e (h.0, remove_first-All P p queue h.1)
]

module _ (sha256_hex : Bytes → Text) where
  store_contents :
      (f : FilesystemStore) (b : Bytes) (c : Text)
      → lookup c (store_content sha256_hex (ok b) f).1.content_dir ≡ (
          if text_eq (sha256_hex b) c
          then keep_or b (lookup c f.content_dir)
          else lookup c f.content_dir)
  unfolding store_content
  store_contents f b c =
      ground (arith, lookup-insert (sha256_hex b) c b f.content_dir, text_eq_iff (sha256_hex b) c)

  store_remove :
      (f : FilesystemStore) (b : Bytes)
      → lookup (sha256_hex b) f.content_dir ≡ none
      → total (remove_content (sha256_hex b) (store_content sha256_hex (ok b) f).1).content_dir
        ≤ total f.content_dir
  unfolding store_content remove_content
  store_remove f b h = ground (arith, delete-insert (sha256_hex b) b f.content_dir)

module _ (codec : Codec) where
  read-write :
      (queue : List StagedOperation) (f : FilesystemStore)
      → All codec.IsLossless queue
      → read_queue codec (write_queue codec queue f) ≡ ok queue
  unfolding read_queue write_queue
  read-write queue f lossless = codec.round_trip queue lossless

  append_result :
      (f : FilesystemStore) (op : StagedOperation)
      → IsReadable codec f
      → append codec op f
        ≡ (ok tt, write_queue codec (queue_or_empty (read_queue codec f) ++ op ∷ []) f)
  unfolding append
  append_result f op (queue, e, all) = ground (arith, e)

  append_content :
      (f : FilesystemStore) (op : StagedOperation)
      → (append codec op f).1.content_dir ≡ f.content_dir
  unfolding append write_queue
  append_content f op = ground arith

  pop_content :
      (f : FilesystemStore) (d r c : Text) → (pop codec d r c f).1.content_dir ≡ f.content_dir
  unfolding pop write_queue
  pop_content f d r c = ground arith

  module _ (f : FilesystemStore) (sound : IsReadable codec f) where
    lossless : All codec.IsLossless (queue_or_empty (read_queue codec f))
    lossless = rw sound.1 sound.2

    pop_all :
        (d r c : Text)
        → let rest = remove_first (matches d r c) (queue_or_empty (read_queue codec f)) in
          pop codec d r c f ≡ (ok (refs c rest), write_queue codec rest f)
    unfolding pop
    pop_all d r c = ground (arith, sound.1, pop_loop_lem d r c sound.0)

    pop_lossless :
        (d r c : Text)
        → All codec.IsLossless (remove_first (matches d r c) (queue_or_empty (read_queue codec f)))
    pop_lossless d r c = remove_first-All codec.IsLossless (matches d r c) _ lossless

-- The store in a directory keeps the contract of a staging store: content is stored once under its
-- checksum, the queue file is first in first out for operations that the codec holds without loss,
-- `Pop` removes the first operation that matches and reports the references that are left if there
-- is one, and the content directory's size is the sum of the sizes stored.
pub filesystem_store-ContractFor :
    (sha256_hex : Bytes → Text) (codec : Codec)
    → ContractFor codec.IsLossless sha256_hex
        (filesystem_store sha256_hex codec)
        (filesystem_views codec)
unfolding store_content remove_content open_content content_size peek len contains
filesystem_store-ContractFor sha256_hex codec = record {
  store_broken = λ f e. refl;
  store_result = λ f b. refl;
  store_contents = store_contents sha256_hex;
  store_queue = λ f b. unfold read_queue in ground arith;
  store_known = λ f b old h. ground arith;
  store_remove = store_remove sha256_hex;
  store_IsSound = λ f b (q, e, all). (q, (unfold read_queue in ground (arith, e)), all);
  remove_contents = λ f c k. lookup-delete c k f.content_dir;
  remove_queue = λ f c. unfold read_queue in refl;
  remove_size = λ f c. total-delete-le c f.content_dir;
  remove_IsSound = λ f c (q, e, all) free. (q, (unfold read_queue in ground (arith, e)), all);
  open_lem = λ f c. ground arith;
  size_lem = λ f s. refl;
  append_result =
      λ f op s. ap (λ (x : Result (Unit {0}) × FilesystemStore). x.0) (append_result codec f op s);
  append_contents = λ f op c. ap (lookup c) (append_content codec f op);
  append_queue = λ f op s fits.
      rw (append_result codec f op s)
        (ap queue_or_empty (read-write codec _ f (All-append _ _ op (lossless codec f s) fits)));
  append_size = λ f op. ap total (append_content codec f op);
  append_IsSound = λ f op s fits.
      let all = All-append _ _ op (lossless codec f s) fits in
      (
        queue_or_empty (read_queue codec f) ++ op ∷ [],
        rw (append_result codec f op s) (read-write codec _ f all),
        all,
      );
  peek_lem = λ f (q, e, all). ground (arith, e);
  len_lem = λ f (q, e, all). ground (arith, e);
  contains_lem = λ f d r (q, e, all). ground (arith, e);
  pop_result =
      λ f d r c s e. ap (λ (x : Result ℕ × FilesystemStore). x.0) (pop_all codec f s d r c);
  pop_queue = λ f d r c s.
      rw (pop_all codec f s d r c)
        (ap queue_or_empty (read-write codec _ f (pop_lossless codec f s d r c)));
  pop_contents = λ f d r c k. ap (lookup k) (pop_content codec f d r c);
  pop_size = λ f d r c. ap total (pop_content codec f d r c);
  pop_IsSound = λ f d r c s. (
    remove_first (matches d r c) (queue_or_empty (read_queue codec f)),
    rw (pop_all codec f s d r c) (read-write codec _ f (pop_lossless codec f s d r c)),
    pop_lossless codec f s d r c,
  );
}
