-- ===== src/Netctl/Visit.antt =====
-- Visitors that may fail: `f(&x)?` in a loop, and the tables of the Thread diagnostics, which go on
-- after the first error without calling the visitor.
use esp_idf_matter.Base.{
  List, [], ◌∷◌, ◌≡◌, refl, Exec, Result, ok, err, panic, ◌>>◌, pure, continue,
}

module _ {E V A : Type 0} (f : A → Exec E V (Unit {0})) where
  -- `for x in xs { f(x)?; } Ok(())`.
  unfoldable pub for_each : List A → Exec E V (Unit {0})
  for_each [] = pure tt
  for_each (x ∷ xs) = f x >> for_each xs

  -- `if result.is_ok() { result = f(x); }` for every element, from a result so far.
  unfoldable pub visit_while_ok : Result E (Unit {0}) → List A → Exec E V (Unit {0})
  visit_while_ok r [] v = (r, v)
  visit_while_ok (ok t) (x ∷ xs) v = let (r, v') = f x v in visit_while_ok r xs v'
  visit_while_ok (err e) (x ∷ xs) v = visit_while_ok (err e) xs v
  visit_while_ok panic (x ∷ xs) v = (panic, v)

  failed_visit : (e : E) (xs : List A) (v : V) → visit_while_ok (err e) xs v ≡ (err e, v)
  unfolding visit_while_ok
  failed_visit e [] v = refl
  failed_visit e (x ∷ xs) v = failed_visit e xs v

  panicked_visit : (xs : List A) (v : V) → visit_while_ok panic xs v ≡ (panic, v)
  unfolding visit_while_ok
  panicked_visit [] v = refl
  panicked_visit (x ∷ xs) v = refl

  after_visit :
      (r : Result E (Unit {0})) (xs : List A) (v : V)
      → ((v' : V) → visit_while_ok (ok tt) xs v' ≡ for_each xs v')
      → visit_while_ok r xs v ≡ continue r (λ t. for_each xs) v
  after_visit (ok t) xs v same = same v
  after_visit (err e) xs v same = failed_visit e xs v
  after_visit panic xs v same = panicked_visit xs v

  -- Both visit the elements in order up to the first error, and end with it.
  pub visit_while_ok-for_each : (xs : List A) (v : V) → visit_while_ok (ok tt) xs v ≡ for_each xs v
  unfolding visit_while_ok for_each
  visit_while_ok-for_each [] v = refl
  visit_while_ok-for_each (x ∷ xs) v =
      after_visit (f x v).0 xs (f x v).1 (visit_while_ok-for_each xs)
