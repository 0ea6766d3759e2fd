-- ===== src/Thread/Srp/Update.antt =====
-- When `update_services` of thread.rs has nothing to do, and what it leaves in the SRP client.
use esp_idf_matter.Base.{
  ℕ, ◌≤◌, Bool, true, ◌≡◌, refl, ◌⊎◌, inl, inr, List, [], ◌∷◌, ◌++◌, length, Bool-cases, All, ◌↔◌,
  ok, err, arith,
}
use esp_idf_matter.Error.{EspError}
use esp_idf_matter.Thread.Srp.{
  LocalService, SrpService, Srp, SrpState, is_unchanged, remove_registered, update_services,
  is_registered, all_registered,
}
use esp_idf_matter.Thread.Srp.Replace.{remove_registered_lem, register_all_lem}
use esp_idf_matter.Thread.Srp.Client.{Client, removed, names, entries, unwanted, Failed}

module _ {S : Type 0} where
  abbrev pub IsOneOf : S → List S → Type 0
  IsOneOf s [] = ⊥
  IsOneOf s (t ∷ rest) = (t ≡ s) ⊎ IsOneOf s rest

-- As many services are registered as are wanted, and every wanted one is.
abbrev pub IsRegistered : {S : Type 0} → List S → List S → Type 0
IsRegistered services registered =
    (length services ≡ length registered) × All (λ s. IsOneOf s registered) services

module _ {S W : Type 0} (p : Srp S W)
    (equal : (s t : S) → (p.service_eq s t ≡ true) ↔ (s ≡ t)) where
  is_registered-IsOneOf :
      (registered : List (S × ℕ)) (service : S)
      → (is_registered p registered service ≡ true) ↔ IsOneOf service (names registered)
  unfolding is_registered
  is_registered-IsOneOf [] service = ground arith
  is_registered-IsOneOf ((s, slot) ∷ rest) service =
      ground (arith, equal s service, is_registered-IsOneOf rest service)

  all_registered-IsOneOf :
      (registered : List (S × ℕ)) (services : List S)
      → (all_registered p registered services ≡ true)
        ↔ All (λ s. IsOneOf s (names registered)) services
  unfolding all_registered
  all_registered-IsOneOf registered [] = ground arith
  all_registered-IsOneOf registered (s ∷ rest) =
      ground (arith, is_registered-IsOneOf registered s, all_registered-IsOneOf registered rest)

  length-names : (registered : List (S × ℕ)) → length (names registered) ≡ length registered
  length-names [] = refl
  length-names ((s, slot) ∷ rest) = ground (arith, length-names rest)

  is_unchanged-IsRegistered :
      (registered : List (S × ℕ)) (services : List S)
      → (is_unchanged p registered services ≡ true) ↔ IsRegistered services (names registered)
  unfolding is_unchanged
  is_unchanged-IsRegistered registered services =
      ground (arith, length-names registered, all_registered-IsOneOf registered services)

module _ {S W : Type 0} (p : Srp S W) (describe : S → LocalService) (view : W → Client)
    (Refuses : Type 0) (equal : (s t : S) → (p.service_eq s t ≡ true) ↔ (s ≡ t))
    (describes : (s : S) (buf : List ℕ)
      → ((p.local_service s buf).0 ≡ ok (describe s))
        ⊎ (Refuses × Failed (p.local_service s buf).0))
    (adds : (s : SrpService) (w : W)
      → ((slot : ℕ) × ((p.srp_add_service s w).0 ≡ ok slot)
          × (view (p.srp_add_service s w).1
              ≡ record (view w) { active = (view w).active ++ (s, slot) ∷ [] }))
        ⊎ (Refuses × (e : EspError) × ((p.srp_add_service s w).0 ≡ err e)))
    (removes : (slot : ℕ) (immediate : Bool) (w : W)
      → (((p.srp_remove_service slot immediate w).0 ≡ ok tt)
          × (view (p.srp_remove_service slot immediate w).1 ≡ removed slot immediate (view w)))
        ⊎ (Refuses × (e : EspError) × ((p.srp_remove_service slot immediate w).0 ≡ err e))) where
  -- No call panicking, and room for the registered services and the wanted ones: if as many services
  -- are registered as are wanted, and every wanted one is registered, then `update_services` succeeds
  -- and changes nothing. Otherwise it succeeds, and then the registered services are the wanted ones
  -- in their order, the client holds exactly their entries, and of the services that were registered
  -- exactly the unwanted ones were withdrawn from the server; or a service or the client refuses
  -- what it is asked for, and the error is passed on.
  pub update_services_lem :
      (services : List S) (s : SrpState S W)
      → (view s.world).active ≡ entries p describe s.services
      → length s.services ≤ p.max_matter_services
      → length services ≤ p.max_matter_services
      → let (r, s') = update_services p services s in
        (IsRegistered services (names s.services) × (r ≡ ok tt) × (s' ≡ s))
        ⊎ ((¬ IsRegistered services (names s.services))
            × (r ≡ ok tt)
            × (names s'.services ≡ services)
            × ((view s'.world).active ≡ entries p describe s'.services)
            × ((view s'.world).withdrawn
                ≡ (view s.world).withdrawn ++ unwanted p describe services s.services))
        ⊎ ((¬ IsRegistered services (names s.services)) × Refuses × Failed r)
  unfolding update_services
  update_services_lem services s h fits fits' =
      let found = is_unchanged-IsRegistered p equal s.services services in
      elim (Bool-cases (is_unchanged p s.services services)) [
        | inl same ↦ inl (found.0 same, ground arith, ground arith)
        | inr new ↦
            let other : ¬ IsRegistered services (names s.services) =
              λ is_same. ground (arith, found.1 is_same) in
            elim (remove_registered_lem p describe view Refuses describes adds removes services
              s.services (record s { services = [] }) h) [
                | inr (why, (e, k)) ↦ inr (inr (other, why, (e, ground arith)))
                | inl (k, t, v) ↦
                    elim (register_all_lem p describe view Refuses describes adds removes services
                      (remove_registered p services s.services (record s { services = [] })).1
                      (ground arith) (ground arith)) [
                        | inr (why, (e, k')) ↦ inr (inr (other, why, (e, ground arith)))
                        | inl (k', n, a, u) ↦
                            inr
                              (inl (other, ground arith, ground arith, ground arith, ground arith))
                      ]
              ]
      ]
