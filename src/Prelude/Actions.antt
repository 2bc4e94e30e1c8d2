-- ===== src/Prelude/Actions.antt =====
-- Code that changes a state and may fail. What was written before the failure stays written, so
-- the state comes back beside the error too.
use mathlib.Core.Path.{◌≡◌, refl}
use bt_go.Prelude.Results.{Result, ok, err, Error}

abbrev pub Act {ℓ} : Type ℓ → Type ℓ → Type ℓ
Act S A = S → Result A × S

module _ {ℓ} {S A : Type ℓ} where
  abbrev pub pure : A → Act S A
  pure a s = (ok a, s)

  abbrev pub fail : Error → Act S A
  fail e s = (err e, s)

  -- A value or an error computed aside.
  abbrev pub lift : Result A → Act S A
  lift r s = (r, s)

  -- A call that reads the state and may fail.
  abbrev pub reads : (S → Result A) → Act S A
  reads f s = (f s, s)

  -- `if err != nil { cleanup; return err }` around the rest of a function.
  abbrev pub tidy : (S → S) → Result A × S → Result A × S
  tidy clean (ok a, s) = (ok a, s)
  tidy clean (err e, s) = (err e, clean s)

module _ {ℓ} {S A B : Type ℓ} where
  abbrev pub continue : Result A → (A → Act S B) → Act S B
  continue (ok a) f s = f a s
  continue (err e) f s = (err e, s)

  infixl 5 ◌>>=◌ ◌>>◌
  abbrev pub ◌>>=◌ : Act S A → (A → Act S B) → Act S B
  ◌>>=◌ m f s = continue (m s).0 f (m s).1

  abbrev pub ◌>>◌ : Act S A → Act S B → Act S B
  m >> k = m >>= λ _. k

module _ {ℓ κ} {S A B : Type ℓ} (P : Result B × S → Type κ) (f : A → Act S B) (s : S) where
  -- A step that computes a value or fails, and the rest: each way out.
  pub continue_cases :
      (r : Result A)
      → ((e : Error) → r ≡ err e → P (err e, s))
      → ((a : A) → r ≡ ok a → P (f a s))
      → P (continue r f s)
  continue_cases (ok a) failed done = done a refl
  continue_cases (err e) failed done = failed e refl
