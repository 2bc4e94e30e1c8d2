-- ===== src/Tests/QueueCodec.antt =====
-- In place of JSON: the fields of each operation in turn, a text behind its length.
use bt_go.Prelude.{
  ℕ, zero, suc, ◌≡◌, refl, ap, ◌∙◌, Bool, true, false, List, [], ◌∷◌, ◌++◌, Text, Bytes, Result, ok,
  length, ◌==◌,
}
use bt_go.Models.{Time, FileSnapshot}
use bt_go.Staging.Operation.{StagedOperation}
use bt_go.Staging.Disk.{Codec}

abbrev put_text : Text → Bytes → Bytes
put_text t rest = length t ∷ (t ++ rest)

abbrev split : ℕ → Bytes → Text × Bytes
split zero rest = ([], rest)
split (suc n) [] = ([], [])
split (suc n) (x ∷ xs) = (x ∷ (split n xs).0, (split n xs).1)

abbrev get_text : Bytes → Text × Bytes
get_text [] = ([], [])
get_text (n ∷ xs) = split n xs

split-length : (t rest : Bytes) → split (length t) (t ++ rest) ≡ (t, rest)
split-length [] rest = refl
split-length (x ∷ xs) rest = ap (λ (p : Text × Bytes). (x ∷ p.0, p.1)) (split-length xs rest)

abbrev nth : ℕ → Bytes → ℕ
nth i [] = 0
nth zero (x ∷ xs) = x
nth (suc i) (x ∷ xs) = nth i xs

abbrev drop : ℕ → Bytes → Bytes
drop zero xs = xs
drop (suc n) [] = []
drop (suc n) (x ∷ xs) = drop n xs

abbrev flag : Bool → ℕ
flag true = 1
flag false = 0

flag-test : (b : Bool) → (flag b == 1) ≡ b
flag-test true = refl
flag-test false = refl

abbrev put_numbers : FileSnapshot → Bytes → Bytes
put_numbers s rest =
    s.created_at.instant
    ∷ s.created_at.location
    ∷ s.size
    ∷ s.permissions
    ∷ s.uid
    ∷ s.gid
    ∷ s.accessed_at.instant
    ∷ s.accessed_at.location
    ∷ s.modified_at.instant
    ∷ s.modified_at.location
    ∷ s.changed_at.instant
    ∷ s.changed_at.location
    ∷ s.born_at.time.instant
    ∷ s.born_at.time.location
    ∷ flag s.born_at.valid
    ∷ rest

abbrev time_at : ℕ → Bytes → Time
time_at i xs = record { instant = nth i xs; location = nth (suc i) xs }

abbrev get_snapshot : Text → Text → Text → Bytes → FileSnapshot
get_snapshot id file_id content_id xs = record {
  id = id;
  file_id = file_id;
  content_id = content_id;
  created_at = time_at 0 xs;
  size = nth 2 xs;
  permissions = nth 3 xs;
  uid = nth 4 xs;
  gid = nth 5 xs;
  accessed_at = time_at 6 xs;
  modified_at = time_at 8 xs;
  changed_at = time_at 10 xs;
  born_at = record { time = time_at 12 xs; valid = nth 14 xs == 1 };
}

get_snapshot-put_numbers :
    (s : FileSnapshot) (rest : Bytes)
    → get_snapshot s.id s.file_id s.content_id (put_numbers s rest) ≡ s
get_snapshot-put_numbers s rest =
    ap (λ v. record s { born_at = record s.born_at { valid = v } }) (flag-test s.born_at.valid)

abbrev put_operation : StagedOperation → Bytes → Bytes
put_operation op rest = put_text op.directory_id (
    put_text op.relative_path (
      put_text op.snapshot.id (
        put_text op.snapshot.file_id
          (put_text op.snapshot.content_id (put_numbers op.snapshot rest)))))

-- The fields that are left to read are taken by `next`.
abbrev texts :
    Bytes
    → (Text → Text → Text → Text → Text → Bytes → StagedOperation × Bytes)
    → StagedOperation × Bytes
texts xs next =
    let a = get_text xs in
    let b = get_text a.1 in
    let c = get_text b.1 in
    let d = get_text c.1 in let e = get_text d.1 in next a.0 b.0 c.0 d.0 e.0 e.1

abbrev get_fields : Text → Text → Text → Text → Text → Bytes → StagedOperation × Bytes
get_fields directory_id relative_path id file_id content_id xs = (
  record {
    directory_id = directory_id;
    relative_path = relative_path;
    snapshot = get_snapshot id file_id content_id xs;
  },
  drop 15 xs,
)

abbrev get_operation : Bytes → StagedOperation × Bytes
get_operation xs = texts xs get_fields

get_operation-put_operation :
    (op : StagedOperation) (rest : Bytes) → get_operation (put_operation op rest) ≡ (op, rest)
get_operation-put_operation op rest =
    rw
      (
        split-length op.directory_id (
            put_text op.relative_path (
              put_text op.snapshot.id (
                put_text op.snapshot.file_id
                  (put_text op.snapshot.content_id (put_numbers op.snapshot rest))))),
        split-length op.relative_path (
            put_text op.snapshot.id (
              put_text op.snapshot.file_id
                (put_text op.snapshot.content_id (put_numbers op.snapshot rest)))),
        split-length op.snapshot.id (
            put_text op.snapshot.file_id
              (put_text op.snapshot.content_id (put_numbers op.snapshot rest))),
        split-length op.snapshot.file_id
            (put_text op.snapshot.content_id (put_numbers op.snapshot rest)),
        split-length op.snapshot.content_id (put_numbers op.snapshot rest),
      )
      (ap (λ (s : FileSnapshot). (record op { snapshot = s }, rest))
        (get_snapshot-put_numbers op.snapshot rest))

abbrev put_all : List StagedOperation → Bytes
put_all [] = []
put_all (op ∷ ops) = put_operation op (put_all ops)

abbrev get_all : ℕ → Bytes → List StagedOperation
get_all zero xs = []
get_all (suc n) xs = (get_operation xs).0 ∷ get_all n (get_operation xs).1

pub get_all-put_all : (ops : List StagedOperation) → get_all (length ops) (put_all ops) ≡ ops
get_all-put_all [] = refl
get_all-put_all (op ∷ ops) =
    ap (λ (p : StagedOperation × Bytes). p.0 ∷ get_all (length ops) p.1)
      (get_operation-put_operation op (put_all ops))
    ∙ ap (λ rest. op ∷ rest) (get_all-put_all ops)

abbrev unmarshal_all : Bytes → Result (List StagedOperation)
unmarshal_all [] = ok []
unmarshal_all (n ∷ xs) = ok (get_all n xs)

abbrev pub queue_codec : Codec
queue_codec = record {
  marshal = λ ops. length ops ∷ put_all ops;
  unmarshal = unmarshal_all;
  IsLossless = λ op. Unit {0};
  round_trip = λ ops lossless. ap ok (get_all-put_all ops);
}
