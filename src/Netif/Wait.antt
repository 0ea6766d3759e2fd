-- ===== src/Netif/Wait.antt =====
-- When `EspMatterNetif::wait_changed` of netif.rs ends.
use esp_idf_matter.Base.{
  ℕ, zero, suc, List, Bool, true, false, ◌≡◌, ◌≢◌, refl, ◌∙◌, ◌<◌, ◌⊎◌, continue, inl, inr, Option,
  none, some, Result, ok, err, panic, arith,
}
use esp_idf_matter.Error.{EspError}
use esp_idf_matter.Netif.Info.{InterfaceTypeEnum, NetifInfo, NetifInfoOwned, load_from_info}
use esp_idf_matter.Netif.Conf.{EspNetif, Loaded, load, store_info, get_netif_conf}
use esp_idf_matter.Netif.Notif.{Access, idle, refresh, conclude, wait_changed}
use esp_idf_matter.Netif.Cache.{load_from_info-change, load_from_info-same}

-- A query that does not end the wait: no change, or an error.
abbrev pub Quiet : Result EspError Bool → Type 0
Quiet r = (r ≡ ok false) ⊎ ((e : EspError) × (r ≡ err e))

never_fails :
    (l2_connected : Bool) (info : NetifInfo) (hw_addr : Option (List ℕ)) (s : NetifInfoOwned)
    (e : EspError)
    → (load_from_info l2_connected info hw_addr s).0 ≡ err e
    → ⊥
unfolding load_from_info
never_fails l2_connected info hw_addr s e h = ground arith

module _ {W : Type 0} (netif : EspNetif W) (l2_connected : Bool) (hw_addr : Option (List ℕ)) where
  store-change :
      (r : Result EspError NetifInfo) (t : Loaded W)
      → (continue r (store_info netif l2_connected hw_addr) t).0 ≡ ok true
      → (continue r (store_info netif l2_connected hw_addr) t).1.netif_state ≢ t.netif_state
  unfolding store_info
  store-change (ok info) t h = load_from_info-change l2_connected info hw_addr t.netif_state h
  store-change (err e) t h = absurd (ground arith)
  store-change panic t h = absurd (ground arith)

  store-Quiet :
      (r : Result EspError NetifInfo) (t : Loaded W)
      → Quiet (continue r (store_info netif l2_connected hw_addr) t).0
      → (continue r (store_info netif l2_connected hw_addr) t).1.netif_state ≡ t.netif_state
  unfolding store_info
  store-Quiet (ok info) t (inl h) = load_from_info-same l2_connected info hw_addr t.netif_state h
  store-Quiet (ok info) t (inr (e, h)) =
      absurd (never_fails l2_connected info hw_addr t.netif_state e h)
  store-Quiet (err e) t h = refl
  store-Quiet panic t h = refl

module _ {W : Type 0} (netif : EspNetif W) (netif_type : InterfaceTypeEnum)
    (hw_addr : Option (List ℕ)) where
  access-change :
      (r : Result EspError Bool) (t : Loaded W)
      → (continue r (λ l2. load netif l2 netif_type hw_addr) t).0 ≡ ok true
      → (continue r (λ l2. load netif l2 netif_type hw_addr) t).1.netif_state ≢ t.netif_state
  unfolding load
  access-change (ok l2) t h =
      let (r, w) = get_netif_conf netif netif_type t.world in
      store-change netif l2 hw_addr r (record t { world = w }) h
  access-change (err e) t h = absurd (ground arith)
  access-change panic t h = absurd (ground arith)

  access-Quiet :
      (r : Result EspError Bool) (t : Loaded W)
      → Quiet (continue r (λ l2. load netif l2 netif_type hw_addr) t).0
      → (continue r (λ l2. load netif l2 netif_type hw_addr) t).1.netif_state ≡ t.netif_state
  unfolding load
  access-Quiet (ok l2) t h =
      let (r, w) = get_netif_conf netif netif_type t.world in
      store-Quiet netif l2 hw_addr r (record t { world = w }) h
  access-Quiet (err e) t h = refl
  access-Quiet panic t h = refl

module _ {W : Type 0} (a : Access W) (netif_type : InterfaceTypeEnum) where
  -- The state after so many rounds that end with the pause.
  abbrev pub after : ℕ → Loaded W → Loaded W
  after zero s = s
  after (suc n) s = after n (idle a netif_type (refresh a netif_type s).1)

  abbrev pub QuietFor : ℕ → Loaded W → Type 0
  QuietFor zero s = Unit
  QuietFor (suc n) s =
      Quiet (refresh a netif_type s).0 × QuietFor n (idle a netif_type (refresh a netif_type s).1)

  refresh-change :
      (s : Loaded W)
      → (refresh a netif_type s).0 ≡ ok true
      → (refresh a netif_type s).1.netif_state ≢ s.netif_state
  unfolding refresh
  refresh-change s h =
      let (r, w) = a.access s.world in
      access-change a.netif netif_type (a.hw_addr s.world) r (record s { world = w }) h

  refresh-Quiet :
      (s : Loaded W)
      → Quiet (refresh a netif_type s).0
      → (refresh a netif_type s).1.netif_state ≡ s.netif_state
  unfolding refresh
  refresh-Quiet s h =
      let (r, w) = a.access s.world in
      access-Quiet a.netif netif_type (a.hw_addr s.world) r (record s { world = w }) h

  after-same : (n : ℕ) (s : Loaded W) → QuietFor n s → (after n s).netif_state ≡ s.netif_state
  after-same zero s q = refl
  after-same (suc n) s (h, q) =
      ground
        (arith, after-same n (idle a netif_type (refresh a netif_type s).1) q, refresh-Quiet s h)

  wait_zero : (s : Loaded W) → wait_changed a netif_type zero s ≡ none
  unfolding wait_changed
  wait_zero s = refl

  wait_one :
      (n : ℕ) (s : Loaded W)
      → Quiet (refresh a netif_type s).0
      → wait_changed a netif_type (suc n) s
        ≡ wait_changed a netif_type n (idle a netif_type (refresh a netif_type s).1)
  unfolding wait_changed conclude
  wait_one n s (inl h) = ground arith
  wait_one n s (inr (e, h)) = ground arith

  wait_end :
      (n : ℕ) (s : Loaded W)
      → (refresh a netif_type s).0 ≡ ok true
      → wait_changed a netif_type (suc n) s ≡ some (ok tt, (refresh a netif_type s).1)
  unfolding wait_changed conclude
  wait_end n s h = ground arith

  -- Rounds in which the query fails or sees no change do not end the wait, and the first round that
  -- sees one does, whenever the rounds allowed reach it: the wait comes back with success, in the
  -- state after that round, and the cache is then another one than at the start.
  pub wait_changed_lem :
      (n rounds : ℕ) (s : Loaded W)
      → QuietFor n s
      → (refresh a netif_type (after n s)).0 ≡ ok true
      → n < rounds
      → (wait_changed a netif_type n s ≡ none)
        × (wait_changed a netif_type rounds s ≡ some (ok tt, (refresh a netif_type (after n s)).1))
        × ((refresh a netif_type (after n s)).1.netif_state ≢ s.netif_state)
  wait_changed_lem zero zero s q h lt = absurd (omega arith)
  wait_changed_lem (suc n) zero s q h lt = absurd (omega arith)
  wait_changed_lem zero (suc rounds) s q h lt =
      (wait_zero s, wait_end rounds s h, refresh-change s h)
  wait_changed_lem (suc n) (suc rounds) s (k, q) h lt =
      let next = idle a netif_type (refresh a netif_type s).1 in
      let (x, y, z) = wait_changed_lem n rounds next q h (omega arith) in
      (wait_one n s k ∙ x, wait_one rounds s k ∙ y, ground (arith, refresh-Quiet s k))
