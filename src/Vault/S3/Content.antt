-- ===== src/Vault/S3/Content.antt =====
-- PutContent and GetContent of internal/vault/s3.go.
use bt_go.Prelude.{
  ℕ, ◌≡◌, ◌∙◌, refl, ap, inl, inr, none, some, Text, Bytes, text_eq, text_eq_iff, length, Result,
  ok, Option-cases, Bool-cases, if◌then◌else◌,
}
use bt_go.Vault.Disk.{Decimal}
use bt_go.Vault.S3.{S3Client, S3Vault, content_key, put_content, get_content, body_of}
use bt_go.Vault.S3.Keys.{content_key_eq}
use bt_go.Vault.S3.Metadata.{Answers, answer}

module _ {C : Type 0} (client : S3Client C) (law : Answers client) (decimal : Decimal) (v : S3Vault)
    (s : C) where
  get_is :
      (k : Text) (t : C)
      → get_content client decimal v k t ≡ body_of (answer (law.object t (content_key v k)))
  unfolding get_content
  get_is k t = ap body_of (law.get_lem t (content_key v k))

  -- Content that is there is neither read nor measured again.
  pub put_known :
      (c : Text) (old : Bytes) (r : Result Bytes) (n : ℕ)
      → law.object s (content_key v c) ≡ some old
      → put_content client decimal v c r n s ≡ (ok tt, s)
  unfolding put_content
  put_known c old r n e = rw (put_content, law.head_lem, e) refl

  put_new :
      (c : Text) (r : Result Bytes) (n : ℕ)
      → law.object s (content_key v c) ≡ none
      → put_content client decimal v c r n s ≡ client.upload (content_key v c) r n s
  unfolding put_content
  put_new c r n e = rw (put_content, law.head_lem, e) refl

-- While the service answers, an upload of content succeeds whenever its reader yields the bytes that
-- were announced. Afterwards that content is read as it was stored first, and all other content as
-- before the call.
pub put_content_lem :
    {C : Type 0} (client : S3Client C) (law : Answers client) (decimal : Decimal) (v : S3Vault)
    (s : C) (c k : Text) (b : Bytes)
    → ((put_content client decimal v c (ok b) (length b) s).0 ≡ ok tt)
      × (get_content client decimal v k (put_content client decimal v c (ok b) (length b) s).1 ≡ (
          if text_eq c k
          then elim (law.object s (content_key v c)) [ none ↦ ok b | some old ↦ ok old ]
          else get_content client decimal v k s))
put_content_lem client law decimal v s c k b =
    elim (Option-cases (law.object s (content_key v c))) [
      | inr (old, e) ↦
          rw (put_known client law decimal v s c old (ok b) (length b) e, e) (refl, known old e)
      | inl e ↦
          rw (put_new client law decimal v s c (ok b) (length b) e, e)
            (law.upload_ok s (content_key v c) b, new)
    ]
  where
    known :
        (old : Bytes)
        → law.object s (content_key v c) ≡ some old
        → get_content client decimal v k s
          ≡ (if text_eq c k then ok old else get_content client decimal v k s)
    known old e = elim (Bool-cases (text_eq c k)) [
      | inr d ↦ rw d refl
      | inl d ↦ rw (d, ← (text_eq_iff c k).0 d, get_is client law decimal v s c s, e) refl
    ]

    new :
        get_content client decimal v k (client.upload (content_key v c) (ok b) (length b) s).1
        ≡ (if text_eq c k then ok b else get_content client decimal v k s)
    new = elim (Bool-cases (text_eq c k)) [
      | inr d ↦
          rw (d, get_is client law decimal v s k _, get_is client law decimal v s k s)
            (ap (λ o. body_of (answer o))
              (law.upload_other s (content_key v c) (content_key v k) (ok b) (length b)
                (content_key_eq v c k ∙ d)))
      | inl d ↦
          rw
            (
              d,
              ← (text_eq_iff c k).0 d,
              get_is client law decimal v s c _,
              law.upload_own s (content_key v c) b,
            )
            refl
    ]
