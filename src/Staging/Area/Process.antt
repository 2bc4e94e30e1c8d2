-- ===== src/Staging/Area/Process.antt =====
-- The promises of `ProcessNext`, for any store that keeps its contract.
use bt_go.Prelude.{
  ◌≡◌, inl, inr, refl, ap, subst, ◌∙◌, ◌&&◌, none, some, List, [], ◌∷◌, Text, Bytes, text_eq,
  text_eq_iff, Result, Error, ok, err, not_found, All, All-keep, All-map, arith, ◌==◌,
  if◌then◌else◌, Bool-cases, ==_iff,
}
use bt_go.Staging.Operation.{StagedOperation}
use bt_go.Staging.Store.{StagingStore, Views, Contract, refs, pop_head_result, pop_head_queue}
use bt_go.Staging.Area.{BackupFunc, commit, process_next}
use bt_go.Staging.Area.Stocked.{Stocked, IsStocked}

module _ {S W : Type 0} (sha256_hex : Bytes → Text) (store : StagingStore S) (v : Views S)
    (law : Contract sha256_hex store v) (fn : BackupFunc W) (s : S) (w : W)
    (sound : v.IsSound s) where
  abbrev ran : StagedOperation → Bytes → Result (Unit {0}) × W
  ran op b = fn b op.snapshot op.directory_id op.relative_path w

  -- With an empty queue `ProcessNext` succeeds and does nothing.
  pub process_empty : v.queue s ≡ [] → process_next store fn (s, w) ≡ (ok tt, (s, w))
  unfolding process_next
  process_empty e = rw (law.peek_lem s sound, process_next) (rw e refl)

  pub process_missing :
      (op : StagedOperation) (rest : List StagedOperation)
      → v.queue s ≡ op ∷ rest
      → v.contents s op.snapshot.content_id ≡ none
      → process_next store fn (s, w) ≡ (err not_found, (s, w))
  unfolding process_next
  process_missing op rest e h =
      ground (arith, law.peek_lem s sound, law.open_lem s op.snapshot.content_id, e)

  pub process_fails :
      (op : StagedOperation) (rest : List StagedOperation) (b : Bytes) (e : Error)
      → v.queue s ≡ op ∷ rest
      → v.contents s op.snapshot.content_id ≡ some b
      → (ran op b).0 ≡ err e
      → process_next store fn (s, w) ≡ (err e, (s, (ran op b).1))
  unfolding process_next
  process_fails op rest b e q h f =
      ground (arith, law.peek_lem s sound, law.open_lem s op.snapshot.content_id, q)

  module _ (op : StagedOperation) (rest : List StagedOperation) (head : v.queue s ≡ op ∷ rest) where
    abbrev popped : S
    popped = (store.pop op.directory_id op.relative_path op.snapshot.content_id s).1

    abbrev left : S
    left =
        if refs op.snapshot.content_id rest == 0
        then store.remove_content op.snapshot.content_id popped
        else popped

    commit_left : commit store op s ≡ (ok tt, left)
    unfolding commit
    commit_left = ground (arith, pop_head_result sha256_hex store v law s op rest sound head)

    left-IsSound : v.IsSound left
    left-IsSound = elim (Bool-cases (refs op.snapshot.content_id rest == 0)) [
      | inl e ↦ rw e (
          law.remove_IsSound popped op.snapshot.content_id
            (law.pop_IsSound s op.directory_id op.relative_path op.snapshot.content_id sound)
            (ap (refs op.snapshot.content_id)
                (pop_head_queue sha256_hex store v law s op rest sound head)
              ∙ (==_iff (refs op.snapshot.content_id rest) 0).0 e))
      | inr e ↦
          rw e (law.pop_IsSound s op.directory_id op.relative_path op.snapshot.content_id sound)
    ]

    left-queue : v.queue left ≡ rest
    left-queue = elim (Bool-cases (refs op.snapshot.content_id rest == 0)) [
      | inl e ↦
          rw (e, law.remove_queue) (pop_head_queue sha256_hex store v law s op rest sound head)
      | inr e ↦ rw e (pop_head_queue sha256_hex store v law s op rest sound head)
    ]

    left-contents :
        (c : Text)
        → v.contents left c ≡ (
            if refs op.snapshot.content_id rest == 0 && text_eq op.snapshot.content_id c
            then none
            else v.contents s c)
    left-contents c = elim (Bool-cases (refs op.snapshot.content_id rest == 0)) [
      | inl e ↦
          rw (e, law.remove_contents)
            (ground
              (arith, law.pop_contents s op.directory_id op.relative_path op.snapshot.content_id c))
      | inr e ↦ rw e (law.pop_contents s op.directory_id op.relative_path op.snapshot.content_id c)
    ]

    -- In a sound store whose head has its content: when the callback succeeds on the head of the
    -- queue, `ProcessNext` succeeds: the operation leaves the queue, the callback's effects stay,
    -- and the content is removed exactly when no operation left in the queue refers to it.
    pub process_commits :
        (b : Bytes)
        → v.contents s op.snapshot.content_id ≡ some b
        → (ran op b).0 ≡ ok tt
        → (t : S) × (process_next store fn (s, w) ≡ (ok tt, (t, (ran op b).1)))
          × v.IsSound t
          × (v.queue t ≡ rest)
          × ((c : Text)
              → v.contents t c ≡ (
                  if refs op.snapshot.content_id rest == 0 && text_eq op.snapshot.content_id c
                  then none
                  else v.contents s c))
    unfolding process_next
    process_commits b h f = (
      left,
      ground
          (arith, law.peek_lem s sound, law.open_lem s op.snapshot.content_id, head, commit_left),
      left-IsSound,
      left-queue,
      left-contents,
    )

    -- And the operations left in the queue keep their content.
    pub left-IsStocked :
        (t : S)
        → v.queue t ≡ rest
        → ((c : Text)
            → v.contents t c ≡ (
                if refs op.snapshot.content_id rest == 0 && text_eq op.snapshot.content_id c
                then none
                else v.contents s c))
        → IsStocked sha256_hex v s
        → IsStocked sha256_hex v t
    left-IsStocked t q cs k = record {
      hashed = λ c x e. ground (arith, cs c, k.hashed c x);
      queued = rw q (elim (Bool-cases (refs op.snapshot.content_id rest == 0)) [
        | inl free ↦
            All-keep _ _ _ rest
              (λ o other (x, e, n). (
                x,
                ground (
                  arith,
                  cs o.snapshot.content_id,
                  other,
                  e,
                  text_eq_iff op.snapshot.content_id o.snapshot.content_id,
                  text_eq_iff o.snapshot.content_id op.snapshot.content_id,
                ),
                n,
              ))
              ((==_iff (refs op.snapshot.content_id rest) 0).0 free) others
        | inr used ↦
            All-map _ _ rest
              (λ o (x, e, n). (x, ground (arith, cs o.snapshot.content_id, used, e), n)) others
      ]);
    }
      where
        others : All (Stocked (v.contents s)) rest
        others = (subst (All (Stocked (v.contents s))) head k.queued).1
