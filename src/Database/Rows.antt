-- ===== src/Database/Rows.antt =====
-- Lists of rows: searches after an insertion or an update.
use bt_go.Prelude.{
  not, ◌&&◌, select, All, Bool-cases, inl, inr, ◌≡◌, refl, Bool, true, false, ◌||◌, Option, none,
  some, List, [], ◌∷◌, ◌++◌, map, find_first, any, arith, if◌then◌else◌,
}

module _ {ℓ} {A : Type ℓ} where
  abbrev pub or_else : Option A → Option A → Option A
  or_else none b = b
  or_else (some a) b = some a

  pub find_first-append :
      (p : A → Bool) (xs : List A) (y : A)
      → find_first p (xs ++ y ∷ []) ≡ or_else (find_first p xs) (if p y then some y else none)
  find_first-append p [] y = refl
  find_first-append p (x ∷ xs) y = ground (arith, find_first-append p xs y)

  pub any-append : (p : A → Bool) (xs : List A) (y : A) → any p (xs ++ y ∷ []) ≡ any p xs || p y
  any-append p [] y = ground arith
  any-append p (x ∷ xs) y = ground (arith, any-append p xs y)

  -- What a search finds passes the test.
  pub find_first-test : (p : A → Bool) (xs : List A) (x : A) → find_first p xs ≡ some x → p x ≡ true
  find_first-test p [] x h = cc
  find_first-test p (y ∷ ys) x h = ground (arith, find_first-test p ys x)

  pub any_of_find :
      (p : A → Bool) (xs : List A) (x : A) → find_first p xs ≡ some x → any p xs ≡ true
  any_of_find p [] x h = cc
  any_of_find p (y ∷ ys) x h = ground (arith, any_of_find p ys x)

  pub find_none : (p : A → Bool) (xs : List A) → any p xs ≡ false → find_first p xs ≡ none
  find_none p [] h = refl
  find_none p (y ∷ ys) h = ground (arith, find_none p ys)

  pub any-none : (p : A → Bool) (xs : List A) → find_first p xs ≡ none → any p xs ≡ false
  any-none p [] h = refl
  any-none p (y ∷ ys) h = ground (arith, any-none p ys)

  abbrev pub map_found : (A → A) → Option A → Option A
  map_found f none = none
  map_found f (some a) = some (f a)

  -- An update that does not touch what the test reads.
  pub find_first-map :
      (p : A → Bool) (f : A → A) (xs : List A)
      → ((x : A) → p (f x) ≡ p x)
      → find_first p (map f xs) ≡ map_found f (find_first p xs)
  find_first-map p f [] same = refl
  find_first-map p f (x ∷ xs) same = ground (arith, same x, find_first-map p f xs same)

  pub any-map :
      (p : A → Bool) (f : A → A) (xs : List A)
      → ((x : A) → p (f x) ≡ p x)
      → any p (map f xs) ≡ any p xs
  any-map p f [] same = refl
  any-map p f (x ∷ xs) same = ground (arith, same x, any-map p f xs same)

  pub any_of_some : (p : A → Bool) (xs : List A) → (find_first p xs ≡ none → ⊥) → any p xs ≡ true
  any_of_some p [] h = absurd (h refl)
  any_of_some p (x ∷ xs) h = ground (arith, any_of_some p xs)

  -- A selection that drops nothing, and one after another.
  pub select_all : (p : A → Bool) (xs : List A) → any (λ x. not (p x)) xs ≡ false → select p xs ≡ xs
  select_all p [] h = refl
  select_all p (x ∷ xs) h = ground (arith, select_all p xs)

  pub select-select :
      (p q : A → Bool) (xs : List A) → select p (select q xs) ≡ select (λ x. q x && p x) xs
  select-select p q [] = refl
  select-select p q (x ∷ xs) = ground (arith, select-select p q xs)

  pub All-select : (P : A → Type 0) (p : A → Bool) (xs : List A) → All P xs → All P (select p xs)
  All-select P p [] h = tt
  All-select P p (x ∷ xs) h = elim (Bool-cases (p x)) [
    | inl kept ↦ rw kept (h.0, All-select P p xs h.1)
    | inr dropped ↦ rw dropped (All-select P p xs h.1)
  ]

  pub any-false : (p : A → Bool) (xs : List A) → ((x : A) → p x ≡ false) → any p xs ≡ false
  any-false p [] h = refl
  any-false p (x ∷ xs) h = ground (arith, h x, any-false p xs h)

  pub any_and : (p q : A → Bool) (xs : List A) → any q xs ≡ false → any (λ x. p x && q x) xs ≡ false
  any_and p q [] h = refl
  any_and p q (x ∷ xs) h = ground (arith, any_and p q xs)

  pub any-not-not :
      (p : A → Bool) (xs : List A) → any p xs ≡ false → any (λ x. not (not (p x))) xs ≡ false
  any-not-not p [] h = refl
  any-not-not p (x ∷ xs) h = ground (arith, any-not-not p xs)
