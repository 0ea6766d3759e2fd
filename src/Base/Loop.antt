-- ===== src/Base/Loop.antt =====
-- Loops without a bound of their own: rounds that go on or leave with a result, run on fuel.
use Prim.Native.Nat.{ℕ, zero, suc, ◌<◌}
use mathlib.Core.Path.{◌≡◌, refl, sym, ap, ◌∙◌}
use mathlib.Core.Logic.{◌⊎◌, inl, inr}
use mathlib.Core.Option.{Option, none, some}
use native.Mathlib.Omega.{arith}

pub data Round {ℓ κ} (S : Type ℓ) (A : Type κ) : Type (ℓ ⊔ κ) where
  again : S → Round S A
  leave : A → S → Round S A

module _ {S A : Type 0} where
  abbrev pub next : Round S A → (S → Option (A × S)) → Option (A × S)
  next (again s) rest = rest s
  next (leave a s) rest = some (a, s)

  pub Round-cases :
      (r : Round S A) → ((s : S) × (r ≡ again s)) ⊎ ((a : A) × (s : S) × (r ≡ leave a s))
  Round-cases (again s) = inl (s, refl)
  Round-cases (leave a s) = inr (a, s, refl)

module _ {S A : Type 0} (round : S → Round S A) where
  -- Up to so many rounds; `none` where all of them go on.
  unfoldable pub repeat : ℕ → S → Option (A × S)
  repeat zero s = none
  repeat (suc n) s = next (round s) (repeat n)

  -- That many rounds lead from one state to the other, and all of them go on.
  unfoldable pub Rounds : ℕ → S → S → Type 0
  Rounds zero s t = s ≡ t
  Rounds (suc n) s t = (u : S) × (round s ≡ again u) × Rounds n u t

  pub repeat-Rounds :
      (n fuel : ℕ) (s t u : S) (a : A)
      → n < fuel
      → Rounds n s t
      → round t ≡ leave a u
      → repeat fuel s ≡ some (a, u)
  unfolding repeat Rounds
  repeat-Rounds n zero s t u a h r e = absurd (omega arith)
  repeat-Rounds zero (suc fuel) s t u a h r e = rw r (ap (λ x. next x (repeat fuel)) e)
  repeat-Rounds (suc n) (suc fuel) s t u a h (v, go, r) e =
      ap (λ x. next x (repeat fuel)) go ∙ repeat-Rounds n fuel v t u a (omega arith) r e

  pub Rounds-repeat :
      (fuel : ℕ) (s u : S) (a : A)
      → repeat fuel s ≡ some (a, u)
      → (n : ℕ) × (t : S) × (n < fuel) × Rounds n s t × (round t ≡ leave a u)
  unfolding repeat Rounds
  Rounds-repeat zero s u a h = absurd (ground arith)
  Rounds-repeat (suc fuel) s u a h = elim (Round-cases (round s)) [
    | inl (v, go) ↦
        let (n, t, m, r, e) =
          Rounds-repeat fuel v u a (sym (ap (λ x. next x (repeat fuel)) go) ∙ h) in
        (suc n, t, omega arith, (v, go, r), e)
    | inr (b, v, e) ↦ (0, s, omega arith, refl, ground arith)
  ]

module _ {S A B : Type 0} (round : S → Round S A) (f : S → B)
    (keeps : (s t : S) → round s ≡ again t → f t ≡ f s) where
  pub Rounds-kept : (n : ℕ) (s t : S) → Rounds round n s t → f t ≡ f s
  unfolding Rounds
  Rounds-kept zero s t e = ap f (sym e)
  Rounds-kept (suc n) s t (u, go, r) = Rounds-kept n u t r ∙ keeps s u go
