-- ===== src/Service/History/Newest.antt =====
-- GetFileHistory of internal/bt/log.go, and the order of its entries.
use bt_go.Prelude.{
  ℕ, zero, suc, ◌+◌, ◌≤◌, ◌≡◌, ◌∙◌, refl, sym, ap, Bool, ◌&&◌, inl, inr, List, [], ◌∷◌, ◌++◌, map,
  text_eq, length, count, select, All, All-append, All-map, ltb, ok, Bool-cases, arith,
}
use bt_go.Models.{wall, File, FileSnapshot}
use bt_go.Database.Queries.{insert_by_time, order_by_time, get_file_snapshots_by_file_id}
use bt_go.Database.Sqlite.{Sqlite, find_file_snapshots_for_file}
use bt_go.Service.History.{FileHistoryEntry, entry, last_and_rest, swap_ends, history_of}

-- The reference of the reversal.
abbrev pub backwards : {A : Type 0} → List A → List A
backwards [] = []
backwards (x ∷ xs) = backwards xs ++ x ∷ []

module _ {A : Type 0} where
  ends : (y : A) (ys : List A) → (last_and_rest y ys).0 ++ (last_and_rest y ys).1 ∷ [] ≡ y ∷ ys
  ends y [] = refl
  ends y (z ∷ zs) = ap (λ t. y ∷ t) (ends z zs)

  length-front : (y : A) (ys : List A) → length (last_and_rest y ys).0 ≡ length ys
  length-front y [] = refl
  length-front y (z ∷ zs) = ap suc (length-front z zs)

  backwards-append : (xs : List A) (y : A) → backwards (xs ++ y ∷ []) ≡ y ∷ backwards xs
  backwards-append [] y = refl
  backwards-append (x ∷ xs) y = ap (λ t. t ++ x ∷ []) (backwards-append xs y)

  -- With fuel for half of the elements, and so with their number, the loop reverses the slice.
  swap_ends-backwards : (n : ℕ) (xs : List A) → length xs ≤ n → swap_ends n xs ≡ backwards xs
  unfolding swap_ends
  swap_ends-backwards zero [] h = refl
  swap_ends-backwards zero (x ∷ xs) h = absurd (omega arith)
  swap_ends-backwards (suc n) [] h = refl
  swap_ends-backwards (suc n) (x ∷ []) h = refl
  swap_ends-backwards (suc n) (x ∷ y ∷ ys) h =
      ap (λ t. (last_and_rest y ys).1 ∷ (t ++ x ∷ []))
        (swap_ends-backwards n (last_and_rest y ys).0 (omega (arith, length-front y ys)))
      ∙ ap (λ t. t ++ x ∷ [])
          (sym (backwards-append (last_and_rest y ys).0 (last_and_rest y ys).1)
            ∙ ap backwards (ends y ys))

  count-append : (p : A → Bool) (xs ys : List A) → count p (xs ++ ys) ≡ count p xs + count p ys
  count-append p [] ys = omega arith
  count-append p (x ∷ xs) ys = ground (arith, count-append p xs ys)

  count-backwards : (p : A → Bool) (xs : List A) → count p (backwards xs) ≡ count p xs
  count-backwards p [] = refl
  count-backwards p (x ∷ xs) =
      count-append p (backwards xs) (x ∷ []) ∙ ground (arith, count-backwards p xs)

  All-backwards : (P : A → Type 0) (xs : List A) → All P xs → All P (backwards xs)
  All-backwards P [] h = tt
  All-backwards P (x ∷ xs) h = All-append P (backwards xs) x (All-backwards P xs h.1) h.0

-- The clocks showed no less at an entry than at those after it.
abbrev pub Newest : List FileHistoryEntry → Type 0
Newest [] = Unit
Newest (x ∷ xs) = All (λ y. wall y.backed_up_at ≤ wall x.backed_up_at) xs × Newest xs

abbrev Oldest : List FileSnapshot → Type 0
Oldest [] = Unit
Oldest (x ∷ xs) = All (λ y. wall x.created_at ≤ wall y.created_at) xs × Oldest xs

insert_by_time-All :
    (P : FileSnapshot → Type 0) (s : FileSnapshot) (rs : List FileSnapshot)
    → P s
    → All P rs
    → All P (insert_by_time s rs)
unfolding insert_by_time
insert_by_time-All P s [] p h = (p, tt)
insert_by_time-All P s (r ∷ rs) p h =
    elim (Bool-cases (ltb (wall r.created_at) (wall s.created_at))) [
      | inl e ↦ rw (insert_by_time, e) (h.0, insert_by_time-All P s rs p h.1)
      | inr e ↦ rw (insert_by_time, e) (p, h)
    ]

insert_by_time-Oldest :
    (s : FileSnapshot) (rs : List FileSnapshot) → Oldest rs → Oldest (insert_by_time s rs)
unfolding insert_by_time
insert_by_time-Oldest s [] h = (tt, tt)
insert_by_time-Oldest s (r ∷ rs) h =
    elim (Bool-cases (ltb (wall r.created_at) (wall s.created_at))) [
      | inl e ↦
          rw (insert_by_time, e)
            (
              insert_by_time-All (λ y. wall r.created_at ≤ wall y.created_at) s rs (ground arith)
                  h.0,
              insert_by_time-Oldest s rs h.1,
            )
      | inr e ↦
          rw (insert_by_time, e) ((ground arith, All-map _ _ rs (λ y less. ground arith) h.0), h)
    ]

order_by_time-Oldest : (ss : List FileSnapshot) → Oldest (order_by_time ss)
unfolding order_by_time
order_by_time-Oldest [] = tt
order_by_time-Oldest (s ∷ ss) = insert_by_time-Oldest s (order_by_time ss) (order_by_time-Oldest ss)

count-insert_by_time :
    (p : FileSnapshot → Bool) (s : FileSnapshot) (rs : List FileSnapshot)
    → count p (insert_by_time s rs) ≡ count p (s ∷ rs)
unfolding insert_by_time
count-insert_by_time p s [] = refl
count-insert_by_time p s (r ∷ rs) = ground (arith, count-insert_by_time p s rs)

count-order_by_time :
    (p : FileSnapshot → Bool) (ss : List FileSnapshot) → count p (order_by_time ss) ≡ count p ss
unfolding order_by_time
count-order_by_time p [] = refl
count-order_by_time p (s ∷ ss) =
    count-insert_by_time p s (order_by_time ss) ∙ ground (arith, count-order_by_time p ss)

count-select :
    (p q : FileSnapshot → Bool) (ss : List FileSnapshot)
    → count p (select q ss) ≡ count (λ s. q s && p s) ss
count-select p q [] = refl
count-select p q (s ∷ ss) = ground (arith, count-select p q ss)

count-map :
    (p : FileHistoryEntry → Bool) (file : File) (ss : List FileSnapshot)
    → count p (map (entry file) ss) ≡ count (λ s. p (entry file s)) ss
count-map p file [] = refl
count-map p file (s ∷ ss) = ground (arith, count-map p file ss)

Newest-append :
    (xs : List FileHistoryEntry) (y : FileHistoryEntry)
    → All (λ x. wall y.backed_up_at ≤ wall x.backed_up_at) xs
    → Newest xs
    → Newest (xs ++ y ∷ [])
Newest-append [] y h n = (tt, tt)
Newest-append (x ∷ xs) y h n = (
  All-append (λ z. wall z.backed_up_at ≤ wall x.backed_up_at) xs y n.0 h.0,
  Newest-append xs y h.1 n.1,
)

map-All :
    (P : FileHistoryEntry → Type 0) (file : File) (ss : List FileSnapshot)
    → All (λ s. P (entry file s)) ss
    → All P (map (entry file) ss)
map-All P file [] h = tt
map-All P file (s ∷ ss) h = (h.0, map-All P file ss h.1)

backwards-Newest :
    (file : File) (ss : List FileSnapshot) → Oldest ss → Newest (backwards (map (entry file) ss))
backwards-Newest file [] h = tt
backwards-Newest file (s ∷ ss) h =
    Newest-append (backwards (map (entry file) ss)) (entry file s)
      (All-backwards _ _ (map-All _ file ss h.0)) (backwards-Newest file ss h.1)

length-map : (file : File) (ss : List FileSnapshot) → length (map (entry file) ss) ≡ length ss
length-map file [] = refl
length-map file (s ∷ ss) = ap suc (length-map file ss)

-- The history of a file in the database never fails: its entries stand newest first by what the
-- clocks showed where they were backed up, and they are those of the file's snapshots, each as
-- often as it is there, whichever test they are counted by.
pub history_of_lem :
    (db : Sqlite) (file : File) (p : FileHistoryEntry → Bool)
    → (entries : List FileHistoryEntry) × (history_of db file ≡ ok entries)
      × Newest entries
      × (count p entries
          ≡ count (λ s. text_eq s.file_id file.id && p (entry file s)) db.tables.file_snapshots)
unfolding history_of find_file_snapshots_for_file get_file_snapshots_by_file_id
history_of_lem db file p = (
  backwards (map (entry file) snapshots),
  ap ok (
      swap_ends-backwards (length snapshots) (map (entry file) snapshots)
        (rw (length-map file snapshots) (omega arith))),
  backwards-Newest file snapshots (order_by_time-Oldest own),
  count-backwards p (map (entry file) snapshots)
      ∙ (count-map p file snapshots
          ∙ (count-order_by_time (λ s. p (entry file s)) own
              ∙ count-select (λ s. p (entry file s)) (λ s. text_eq s.file_id file.id)
                  db.tables.file_snapshots)),
)
  where
    own : List FileSnapshot
    own = select (λ s. text_eq s.file_id file.id) db.tables.file_snapshots

    snapshots : List FileSnapshot
    snapshots = order_by_time own
