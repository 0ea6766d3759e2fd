-- ===== src/Examples/Order.antt =====
-- The order of the steps in the main tasks of src/examples/.
use esp_idf_matter.Base.{
  List, [], ◌∷◌, ◌++◌, Exec, Result, ok, err, panic, continue, IsFailure, ◌≡◌, ◌⊎◌, inl, inr, refl,
  sym, ap, ◌∙◌,
}
use esp_idf_matter.Examples.{Step, run_steps}
use mathlib.Core.List.{append-nil, append_assoc}

abbrev Logged : Type 0 → Type 0
Logged W = W × List Step

-- What was done of the steps: all of them, or those up to a failure.
abbrev Did : {E : Type 0} → List Step → List Step → List Step → Result E (Unit {0}) → Type 0
Did steps log log' r =
    (done : List Step) × (rest : List Step) × (done ++ rest ≡ steps)
    × (log' ≡ log ++ done)
    × (((rest ≡ []) × (r ≡ ok tt)) ⊎ IsFailure r)

module _ {E W : Type 0} (perform : Step → Exec E W (Unit {0})) where
  abbrev noted : Step → Exec E (Logged W) (Unit {0})
  noted step (w, log) = let (r, w') = perform step w in (r, (w', log ++ step ∷ []))

  abbrev DidAll : List Step → List Step → W → Type 0
  DidAll steps log w = let (r, s) = run_steps noted steps (w, log) in Did steps log s.1 r

  after_step :
      (step : Step) (rest log : List Step) (r : Result E (Unit {0})) (w : W)
      → DidAll rest (log ++ step ∷ []) w
      → let (x, s) = continue r (λ u. run_steps noted rest) (w, log ++ step ∷ []) in
        Did (step ∷ rest) log s.1 x
  after_step step rest log (ok x) w (done, left, e, l, k) =
      (step ∷ done, left, ap (◌∷◌ step) e, l ∙ append_assoc log (step ∷ []) done, k)
  after_step step rest log (err e) w h = (step ∷ [], rest, refl, refl, inr tt)
  after_step step rest log panic w h = (step ∷ [], rest, refl, refl, inr tt)

  -- The steps come in their order, none twice and none left out, up to the first one that fails; and
  -- where none fails, all of them come.
  run_steps_in_order : (steps log : List Step) (w : W) → DidAll steps log w
  unfolding run_steps
  run_steps_in_order [] log w = ([], [], refl, sym (append-nil log), inl (refl, refl))
  run_steps_in_order (step ∷ rest) log w =
      let (r, w') = perform step w in
      after_step step rest log r w' (run_steps_in_order rest (log ++ step ∷ []) w')
