-- ===== src/Staging/Memory/Sizes.antt =====
-- The bytes that a map holds.
use bt_go.Prelude.{
  ℕ, ◌+◌, ◌≡◌, ◌≤◌, none, some, [], ◌∷◌, Text, Bytes, text_eq_iff, Assoc, lookup, insert, delete,
  Distinct, delete_absent, length, arith,
}

abbrev pub total : Assoc Bytes → ℕ
total [] = 0
total ((k, b) ∷ m) = length b + total m

pub total-insert :
    (k : Text) (b : Bytes) (m : Assoc Bytes)
    → lookup k m ≡ none
    → total (insert k b m) ≡ total m + length b
unfolding insert lookup
total-insert k b [] h = omega arith
total-insert k b ((j, c) ∷ m) h = ground (arith, total-insert k b m)

pub total-delete :
    (k : Text) (b : Bytes) (m : Assoc Bytes)
    → Distinct m
    → lookup k m ≡ some b
    → total (delete k m) + length b ≡ total m
unfolding delete lookup
total-delete k b [] d h = cc
total-delete k b ((j, c) ∷ m) d h =
    ground (arith, total-delete k b m d.1, delete_absent k m, text_eq_iff j k)

pub total-delete-le : (k : Text) (m : Assoc Bytes) → total (delete k m) ≤ total m
unfolding delete
total-delete-le k [] = omega arith
total-delete-le k ((j, c) ∷ m) = ground (arith, total-delete-le k m)

pub lookup-le-total :
    (k : Text) (b : Bytes) (m : Assoc Bytes) → lookup k m ≡ some b → length b ≤ total m
unfolding lookup
lookup-le-total k b [] h = cc
lookup-le-total k b ((j, c) ∷ m) h = ground (arith, lookup-le-total k b m)
