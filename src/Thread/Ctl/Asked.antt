-- ===== src/Thread/Ctl/Asked.antt =====
-- The networks that the caller of `scan` of thread.rs asked for.
use esp_idf_matter.Base.{
  ℕ, zero, suc, ◌≡◌, refl, ap, sym, ◌∙◌, Bool, true, false, Option, none, some, List, [], ◌∷◌, take,
  map, All, bytes_eq, if◌then◌else◌, Exec, Result, ok, err, panic, continue, ◌>>◌,
}
use esp_idf_matter.Error.{ErrorCode}
use esp_idf_matter.Netctl.Visit.{for_each}
use esp_idf_matter.Thread.Ctl.Scan.{ActiveScanResult, OwnedScanResult, own, is_wanted, report}
use esp_idf_matter.Thread.Ctl.Kept.{IsResult, found, to_be_bytes-from_be_bytes}

-- Whether the caller asked for the network.
abbrev pub is_asked : Option (List ℕ) → ActiveScanResult → Bool
is_asked none info = true
is_asked (some network) info = bytes_eq info.extended_pan_id network

unfoldable pub asked : Option (List ℕ) → List ActiveScanResult → List ActiveScanResult
asked network [] = []
asked network (info ∷ infos) =
    if is_asked network info then info ∷ asked network infos else asked network infos

continue_same :
    {E V : Type 0} (r : Result E (Unit {0})) (left right : Exec E V (Unit {0})) (v : V)
    → ((v' : V) → left v' ≡ right v')
    → continue r (λ t. left) v ≡ continue r (λ t. right) v
continue_same (ok t) left right v same = same v
continue_same (err e) left right v same = refl
continue_same panic left right v same = refl

module _ {V : Type 0} (f : OwnedScanResult → Exec ErrorCode V (Unit {0})) where
  is_wanted-is_asked :
      (network : Option (List ℕ)) (info : ActiveScanResult)
      → IsResult (some info)
      → is_wanted network (own info) ≡ is_asked network info
  unfolding is_wanted own
  is_wanted-is_asked none info good = refl
  is_wanted-is_asked (some network) info good =
      ap (λ bytes. bytes_eq bytes network)
        (to_be_bytes-from_be_bytes info.extended_pan_id good.0 good.2)

  reported :
      (b : Bool) (x : OwnedScanResult) (left right : Exec ErrorCode V (Unit {0})) (v : V)
      → ((v' : V) → left v' ≡ right v')
      → (if b then f x >> left else left) v ≡ (if b then f x >> right else right) v
  reported true x left right v same = continue_same (f x v).0 left right (f x v).1 same
  reported false x left right v same = same v

  for_each_if :
      (b : Bool) (info : ActiveScanResult) (infos : List ActiveScanResult) (v : V)
      → for_each f (map own (if b then info ∷ infos else infos)) v
        ≡ (if b then f (own info) >> for_each f (map own infos) else for_each f (map own infos)) v
  unfolding for_each
  for_each_if true info infos v = refl
  for_each_if false info infos v = refl

  pub report-asked :
      (network : Option (List ℕ)) (infos : List ActiveScanResult) (v : V)
      → All (λ info. IsResult (some info)) infos
      → report f network (map own infos) v ≡ for_each f (map own (asked network infos)) v
  unfolding report asked
  report-asked network [] v good = unfold for_each in refl
  report-asked network (info ∷ infos) v good = rw (is_wanted-is_asked network info good.0) (
      reported (is_asked network info) (own info) (report f network (map own infos))
        (for_each f (map own (asked network infos))) v (λ v'. report-asked network infos v' good.1)
      ∙ sym (for_each_if (is_asked network info) info (asked network infos) v))

pub found-IsResult :
    (calls : List (Option ActiveScanResult))
    → All IsResult calls
    → All (λ info. IsResult (some info)) (found calls)
unfolding found
found-IsResult [] good = tt
found-IsResult (none ∷ calls) good = found-IsResult calls good.1
found-IsResult (some info ∷ calls) good = (good.0, found-IsResult calls good.1)

pub take-IsResult :
    (n : ℕ) (infos : List ActiveScanResult)
    → All (λ info. IsResult (some info)) infos
    → All (λ info. IsResult (some info)) (take n infos)
take-IsResult zero infos good = tt
take-IsResult (suc n) [] good = tt
take-IsResult (suc n) (info ∷ infos) good = (good.0, take-IsResult n infos good.1)
