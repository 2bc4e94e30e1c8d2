-- ===== src/Staging/Area/Stocked.antt =====
-- `Stage` and the invariant of the staging area: what is queued can be backed up.
use bt_go.Prelude.{
  ◌≡◌, inl, inr, refl, sym, ap, ◌∙◌, Option, none, some, List, [], ◌∷◌, Text, Bytes, text_eq_iff,
  text_eq_refl, ok, length, All, All-append, All-keep, All-map, arith, Option-cases,
}
use bt_go.Staging.Operation.{StagedOperation}
use bt_go.Staging.Store.{StagingStore, Views, Contract, refs}

-- The content of an operation is there, and has the size that its snapshot says.
abbrev pub Stocked : (Text → Option Bytes) → StagedOperation → Type 0
Stocked contents op =
    (b : Bytes) × (contents op.snapshot.content_id ≡ some b) × (length b ≡ op.snapshot.size)

-- Content is stored under its checksum, and every queued operation has its content.
pub record IsStocked {S : Type 0} (sha256_hex : Bytes → Text) (v : Views S) (s : S) : Type 0 where
  pub hashed : (c : Text) (b : Bytes) → v.contents s c ≡ some b → sha256_hex b ≡ c
  pub queued : All (Stocked (v.contents s)) (v.queue s)

module _ {S : Type 0} (sha256_hex : Bytes → Text)
    (injective : (x y : Bytes) → sha256_hex x ≡ sha256_hex y → x ≡ y) (store : StagingStore S)
    (v : Views S) (law : Contract sha256_hex store v) where
  -- The bytes are stored, whether they are new or known already.
  pub stored_self :
      (s : S) (b : Bytes)
      → IsStocked sha256_hex v s
      → v.contents (store.store_content (ok b) s).1 (sha256_hex b) ≡ some b
  stored_self s b k = elim (Option-cases (v.contents s (sha256_hex b))) [
    | inl e ↦ rw (law.store_contents s b (sha256_hex b), text_eq_refl (sha256_hex b), e)
    | inr (old, e) ↦
        rw (law.store_contents s b (sha256_hex b), text_eq_refl (sha256_hex b), e)
          (ap some (injective old b (k.hashed (sha256_hex b) old e)))
  ]

  store_keeps :
      (s : S) (b : Bytes) (c : Text) (old : Bytes)
      → v.contents s c ≡ some old
      → v.contents (store.store_content (ok b) s).1 c ≡ some old
  store_keeps s b c old e = rw law.store_contents (ground (arith, e))

  pub store-IsStocked :
      (s : S) (b : Bytes)
      → IsStocked sha256_hex v s
      → IsStocked sha256_hex v (store.store_content (ok b) s).1
  store-IsStocked s b k = record {
    hashed = λ c x e.
        ground (arith, law.store_contents s b c, text_eq_iff (sha256_hex b) c, k.hashed c x, e);
    queued = rw law.store_queue (
        All-map _ _ (v.queue s) (λ op (x, e, n). (x, store_keeps s b op.snapshot.content_id x e, n))
          k.queued);
  }

  pub remove-IsStocked :
      (s : S) (c : Text)
      → refs c (v.queue s) ≡ 0
      → IsStocked sha256_hex v s
      → IsStocked sha256_hex v (store.remove_content c s)
  remove-IsStocked s c free k = record {
    hashed = λ j x e. ground (arith, law.remove_contents s c j, k.hashed j x, e);
    queued = rw law.remove_queue (
        All-keep _ _ _ (v.queue s)
          (λ op other (x, e, n). (
            x,
            ground (
              arith,
              law.remove_contents s c op.snapshot.content_id,
              other,
              e,
              text_eq_iff c op.snapshot.content_id,
              text_eq_iff op.snapshot.content_id c,
            ),
            n,
          ))
          free k.queued);
  }

  pub append-IsStocked :
      (s : S) (op : StagedOperation)
      → v.IsSound s
      → Stocked (v.contents s) op
      → IsStocked sha256_hex v s
      → IsStocked sha256_hex v (store.append op s).1
  append-IsStocked s op sound (b, e, n) k = record {
    hashed = λ c x h. k.hashed c x (sym (law.append_contents s op c) ∙ h);
    queued = rw (law.append_queue s op sound tt) (
        All-append _ (v.queue s) op
          (All-map _ _ (v.queue s)
            (λ o (x, h, m). (x, law.append_contents s op o.snapshot.content_id ∙ h, m)) k.queued)
          (b, law.append_contents s op op.snapshot.content_id ∙ e, n));
  }

-- A referenced checksum with no content contradicts that the queue is stocked.
pub missing_refs :
    (contents : Text → Option Bytes) (c : Text) (queue : List StagedOperation)
    → contents c ≡ none
    → All (Stocked contents) queue
    → refs c queue ≡ 0
missing_refs contents c [] gone k = refl
missing_refs contents c (op ∷ queue) gone ((b, e, n), k) =
    ground
      (arith, missing_refs contents c queue gone k, text_eq_iff op.snapshot.content_id c, e, gone)
