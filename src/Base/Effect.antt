-- ===== src/Base/Effect.antt =====
-- Code that mutates a state and may fail. `panic` is a failed `unwrap`, slice or index.
-- What was written before a failure stays written, so the state comes back beside the error too.
use mathlib.Core.Bool.{Bool, true, false}

pub data Result {ℓ κ} (E : Type ℓ) (A : Type κ) : Type (ℓ ⊔ κ) where
  ok : A → Result E A
  err : E → Result E A
  panic : Result E A

abbrev pub Exec {ℓ} : Type ℓ → Type ℓ → Type ℓ → Type ℓ
Exec E S A = S → Result E A × S

module _ {ℓ} {E S A : Type ℓ} where
  abbrev pub pure : A → Exec E S A
  pure a s = (ok a, s)

  abbrev pub raise : E → Exec E S A
  raise e s = (err e, s)

  abbrev pub lift : Result E A → Exec E S A
  lift r s = (r, s)

  abbrev pub gets : (S → A) → Exec E S A
  gets f s = (ok (f s), s)

module _ {ℓ} {E S A B : Type ℓ} where
  abbrev pub continue : Result E A → (A → Exec E S B) → S → Result E B × S
  continue (ok a) f s = f a s
  continue (err e) f s = (err e, s)
  continue panic f s = (panic, s)

  infixl 5 ◌>>=◌ ◌>>◌
  abbrev pub ◌>>=◌ : Exec E S A → (A → Exec E S B) → Exec E S B
  ◌>>=◌ m f s = let (r, s') = m s in continue r f s'

  abbrev pub ◌>>◌ : Exec E S A → Exec E S B → Exec E S B
  m >> n = m >>= λ _. n

module _ {E S : Type 0} where
  abbrev pub modify : (S → S) → Exec E S (Unit {0})
  modify f s = (ok tt, f s)

  abbrev pub skip : Exec E S (Unit {0})
  skip s = (ok tt, s)

module _ {ℓ} {E F A : Type ℓ} where
  -- `Result::map_err`.
  abbrev pub map_err : (E → F) → Result E A → Result F A
  map_err f (ok a) = ok a
  map_err f (err e) = err (f e)
  map_err f panic = panic

-- `Result::unwrap_or`; a panic is no value.
abbrev pub ok_or {ℓ} : {E A : Type ℓ} → A → Result E A → A
ok_or d (ok a) = a
ok_or d (err e) = d
ok_or d panic = d

-- `Result::unwrap_or` where a panic stays one.
abbrev pub unwrap_or {ℓ} : {E F A : Type ℓ} → A → Result E A → Result F A
unwrap_or d (ok a) = ok a
unwrap_or d (err e) = ok d
unwrap_or d panic = panic

abbrev pub IsOk {ℓ} : {E A : Type ℓ} → Result E A → Type 0
IsOk (ok a) = Unit
IsOk (err e) = ⊥
IsOk panic = ⊥

abbrev pub NoPanic {ℓ} : {E A : Type ℓ} → Result E A → Type 0
NoPanic (ok a) = Unit
NoPanic (err e) = Unit
NoPanic panic = ⊥

abbrev pub IsFailure {ℓ} : {E A : Type ℓ} → Result E A → Type 0
IsFailure (ok a) = ⊥
IsFailure (err e) = Unit
IsFailure panic = Unit

abbrev pub is_ok {ℓ} : {E A : Type ℓ} → Result E A → Bool
is_ok (ok a) = true
is_ok (err e) = false
is_ok panic = false
