-- ===== src/Thread/Srp/Client.antt =====
-- The SRP client of thread.rs as the theorems see it.
use esp_idf_matter.Base.{
  ℕ, Bool, ◌≡◌, refl, List, [], ◌∷◌, ◌++◌, ◌==◌, if◌then◌else◌, Result, err, arith,
}
use esp_idf_matter.Error.{ErrorCode}
use esp_idf_matter.Thread.Srp.{LocalService, SrpService, Srp, to_srp_service, contains}

-- What the client holds: its services with their slots, and the slots it told the server to forget.
pub record Client : Type 0 where
  pub active : List (SrpService × ℕ)
  pub withdrawn : List ℕ

-- Without the entry of a slot.
abbrev pub without : ℕ → List (SrpService × ℕ) → List (SrpService × ℕ)
without slot [] = []
without slot ((s, k) ∷ rest) = if k == slot then rest else (s, k) ∷ without slot rest

abbrev pub removed : ℕ → Bool → Client → Client
removed slot immediate c = record {
  active = without slot c.active;
  withdrawn = if immediate then c.withdrawn else c.withdrawn ++ slot ∷ [];
}

module _ {S : Type 0} where
  abbrev pub names : List (S × ℕ) → List S
  names [] = []
  names ((service, slot) ∷ rest) = service ∷ names rest

  pub names-snoc :
      (registered : List (S × ℕ)) (service : S) (slot : ℕ)
      → names (registered ++ (service, slot) ∷ []) ≡ names registered ++ service ∷ []
  names-snoc [] service slot = refl
  names-snoc (e ∷ rest) service slot = ground (arith, names-snoc rest service slot)

module _ {S W : Type 0} (p : Srp S W) (describe : S → LocalService) where
  -- The entries of the client for registered services.
  abbrev pub entries : List (S × ℕ) → List (SrpService × ℕ)
  entries [] = []
  entries ((service, slot) ∷ rest) = (to_srp_service (describe service), slot) ∷ entries rest

  -- The slots of the registered services that are wanted no more.
  abbrev pub unwanted : List S → List (S × ℕ) → List ℕ
  unwanted services [] = []
  unwanted services ((service, slot) ∷ rest) =
      if contains p services service then unwanted services rest else slot ∷ unwanted services rest

  pub entries-snoc :
      (registered : List (S × ℕ)) (service : S) (slot : ℕ)
      → entries (registered ++ (service, slot) ∷ [])
        ≡ entries registered ++ (to_srp_service (describe service), slot) ∷ []
  entries-snoc [] service slot = refl
  entries-snoc (e ∷ rest) service slot = ground (arith, entries-snoc rest service slot)

abbrev pub Failed : {A : Type 0} → Result ErrorCode A → Type 0
Failed r = (e : ErrorCode) × (r ≡ err e)
