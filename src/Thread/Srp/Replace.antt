-- ===== src/Thread/Srp/Replace.antt =====
-- What the removals and the registrations of `update_services` of thread.rs leave in the SRP client.
use esp_idf_matter.Base.{
  ℕ, ◌≤◌, ◌<◌, length-append, ◌+◌, Bool, ◌≡◌, refl, ◌⊎◌, inl, inr, List, [], ◌∷◌, ◌++◌, length,
  resize, Bool-cases, ok, err, arith,
}
use mathlib.Core.List.{append-nil, append_assoc}
use esp_idf_matter.Error.{EspError, ErrorCode, to_net_error}
use esp_idf_matter.Thread.Srp.{
  LocalService, SrpService, Srp, SrpState, to_srp_service, ot_mdns_buf_sz, contains, register,
  deregister, remove_registered, push_service, register_all,
}
use esp_idf_matter.Thread.Srp.Client.{
  Client, removed, names, names-snoc, entries, entries-snoc, unwanted, Failed,
}

module _ {S W : Type 0} (p : Srp S W) (describe : S → LocalService) (view : W → Client)
    (Refuses : Type 0)
    (describes : (s : S) (buf : List ℕ)
      → ((p.local_service s buf).0 ≡ ok (describe s))
        ⊎ (Refuses × Failed (p.local_service s buf).0))
    (adds : (s : SrpService) (w : W)
      → ((slot : ℕ) × ((p.srp_add_service s w).0 ≡ ok slot)
          × (view (p.srp_add_service s w).1
              ≡ record (view w) { active = (view w).active ++ (s, slot) ∷ [] }))
        ⊎ (Refuses × (e : EspError) × ((p.srp_add_service s w).0 ≡ err e)))
    (removes : (slot : ℕ) (immediate : Bool) (w : W)
      → (((p.srp_remove_service slot immediate w).0 ≡ ok tt)
          × (view (p.srp_remove_service slot immediate w).1 ≡ removed slot immediate (view w)))
        ⊎ (Refuses × (e : EspError) × ((p.srp_remove_service slot immediate w).0 ≡ err e))) where
  remove_fails :
      (services : List S) (service : S) (slot : ℕ) (rest : List (S × ℕ)) (s : SrpState S W)
      (e : EspError)
      → (p.srp_remove_service slot (contains p services service) s.world).0 ≡ err e
      → Failed (remove_registered p services ((service, slot) ∷ rest) s).0
  unfolding remove_registered deregister
  remove_fails services service slot rest s e h = (to_net_error e, ground arith)

  remove_passes :
      (services : List S) (service : S) (slot : ℕ) (rest : List (S × ℕ)) (s : SrpState S W)
      → (p.srp_remove_service slot (contains p services service) s.world).0 ≡ ok tt
      → remove_registered p services ((service, slot) ∷ rest) s
        ≡ remove_registered p services rest (record s {
          world = (p.srp_remove_service slot (contains p services service) s.world).1;
        })
  unfolding remove_registered deregister
  remove_passes services service slot rest s h = ground arith

  remove_none :
      (services : List S) (s : SrpState S W) → remove_registered p services [] s ≡ (ok tt, s)
  unfolding remove_registered
  remove_none services s = refl

  pub remove_registered_lem :
      (services : List S) (registered : List (S × ℕ)) (s : SrpState S W)
      → (view s.world).active ≡ entries p describe registered
      → let (r, s') = remove_registered p services registered s in
        ((r ≡ ok tt)
          × (s'.services ≡ s.services)
          × (view s'.world ≡ record {
            active = [];
            withdrawn = (view s.world).withdrawn ++ unwanted p describe services registered;
          }))
        ⊎ (Refuses × Failed r)
  remove_registered_lem services [] s h = inl (
    ground (arith, remove_none services s),
    ground (arith, remove_none services s),
    ground (arith, remove_none services s, append-nil (view s.world).withdrawn),
  )
  remove_registered_lem services ((service, slot) ∷ rest) s h =
      elim (removes slot (contains p services service) s.world) [
        | inr (why, e, er) ↦ inr (why, remove_fails services service slot rest s e er)
        | inl (er, ev) ↦
            elim (remove_registered_lem services rest
              (record s {
                world = (p.srp_remove_service slot (contains p services service) s.world).1;
              })
              (ground arith)) [
                | inr (why, (e, h')) ↦
                    inr (why, (e, ground (arith, remove_passes services service slot rest s er)))
                | inl (h', k, v) ↦ inl (
                  ground (arith, remove_passes services service slot rest s er),
                  ground (arith, remove_passes services service slot rest s er),
                  elim (Bool-cases (contains p services service)) [
                    | inl kept ↦ ground (arith, remove_passes services service slot rest s er)
                    | inr gone ↦ ground (
                      arith,
                      remove_passes services service slot rest s er,
                      append_assoc (view s.world).withdrawn (slot ∷ [])
                          (unwanted p describe services rest),
                    )
                  ],
                )
              ]
      ]

  register_lem :
      (service : S) (s : SrpState S W)
      → let (r, s') = register p service s in
        ((slot : ℕ) × (r ≡ ok slot)
          × (s'.services ≡ s.services)
          × (view s'.world ≡ record (view s.world) {
            active = (view s.world).active ++ (to_srp_service (describe service), slot) ∷ [];
          }))
        ⊎ (Refuses × Failed r)
  unfolding register
  register_lem service s =
      let buf = resize ot_mdns_buf_sz s.mdns_buf in
      elim (describes service buf) [
        | inr (why, (e, h)) ↦ inr (why, (e, ground arith))
        | inl h ↦ elim (adds (to_srp_service (describe service)) s.world) [
          | inr (why, e, k) ↦ inr (why, (to_net_error e, ground arith))
          | inl (slot, k, v) ↦ inl (slot, ground arith, ground arith, ground arith)
        ]
      ]

  register_all_none : (s : SrpState S W) → register_all p [] s ≡ (ok tt, s)
  unfolding register_all
  register_all_none s = refl

  register_all_fails :
      (service : S) (rest : List S) (s : SrpState S W) (e : ErrorCode)
      → (register p service s).0 ≡ err e
      → (register_all p (service ∷ rest) s).0 ≡ err e
  unfolding register_all
  register_all_fails service rest s e h = ground arith

  -- The state once a service has been registered and noted.
  abbrev noted : S → ℕ → SrpState S W → SrpState S W
  noted service slot s =
      let t = (register p service s).1 in record t { services = t.services ++ (service, slot) ∷ [] }

  register_all_passes :
      (service : S) (rest : List S) (s : SrpState S W) (slot : ℕ)
      → (register p service s).0 ≡ ok slot
      → length (register p service s).1.services < p.max_matter_services
      → register_all p (service ∷ rest) s ≡ register_all p rest (noted service slot s)
  unfolding register_all push_service
  register_all_passes service rest s slot h k = ground arith

  -- Registering services behind those that are registered.
  pub register_all_lem :
      (services : List S) (s : SrpState S W)
      → (view s.world).active ≡ entries p describe s.services
      → length s.services + length services ≤ p.max_matter_services
      → let (r, s') = register_all p services s in
        ((r ≡ ok tt)
          × (names s'.services ≡ names s.services ++ services)
          × ((view s'.world).active ≡ entries p describe s'.services)
          × ((view s'.world).withdrawn ≡ (view s.world).withdrawn))
        ⊎ (Refuses × Failed r)
  register_all_lem [] s h fits = inl (
    ground (arith, register_all_none s),
    ground (arith, register_all_none s, append-nil (names s.services)),
    ground (arith, register_all_none s),
    ground (arith, register_all_none s),
  )
  register_all_lem (service ∷ rest) s h fits = elim (register_lem service s) [
    | inr (why, (e, k)) ↦ inr (why, (e, register_all_fails service rest s e k))
    | inl (slot, k, same, v) ↦
        let eq = register_all_passes service rest s slot k (ground arith) in
        elim (register_all_lem rest (noted service slot s)
          (ground (arith, entries-snoc p describe s.services service slot))
          (ground (arith, length-append s.services ((service, slot) ∷ [])))) [
            | inr (why, (e, k')) ↦ inr (why, (e, ground (arith, eq)))
            | inl (k', n, a, u) ↦ inl (
              ground (arith, eq),
              ground (
                arith,
                eq,
                names-snoc s.services service slot,
                append_assoc (names s.services) (service ∷ []) rest,
              ),
              ground (arith, eq),
              ground (arith, eq),
            )
          ]
  ]
