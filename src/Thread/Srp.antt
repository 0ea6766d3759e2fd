-- ===== src/Thread/Srp.antt =====
-- thread.rs, `EspMatterThreadSrp`: the services of the node in the SRP client of OpenThread. The
-- client, the services of `rs-matter` and their equality are parameters.
pub mod Client
pub mod Replace
pub mod Update
pub mod Host
pub mod Dns
pub mod Serve
pub mod Run
use esp_idf_matter.Base.{
  ℕ, zero, suc, Bool, true, false, not, ◌&&◌, List, [], ◌∷◌, ◌++◌, length, resize, ltb, leb, ◌==◌,
  if◌then◌else◌, Exec, Result, ok, err, panic, pure, raise, lift, gets, modify, skip, map_err,
  ◌>>=◌, ◌>>◌,
}
use esp_idf_matter.Error.{EspError, ErrorCode, to_net_error}

abbrev pub ot_mdns_buf_sz : ℕ
ot_mdns_buf_sz = 256

-- What `MatterLocalService::service` makes of a service, `Service` of `rs-matter`.
pub record LocalService : Type 0 where
  pub name : List ℕ
  pub service_protocol : List ℕ
  pub port : ℕ
  pub service_subtypes : List (List ℕ)
  pub txt_kvs : List (List ℕ × List ℕ)

pub record SrpService : Type 0 where
  pub name : List ℕ
  pub instance_name : List ℕ
  pub port : ℕ
  pub subtype_labels : List (List ℕ)
  pub txt_entries : List (List ℕ × List ℕ)
  pub priority : ℕ
  pub weight : ℕ
  pub lease_secs : ℕ
  pub key_lease_secs : ℕ

-- The surroundings, with `S` for `MatterLocalService` and `W` for the world.
pub record Srp (S : Type 0) (W : Type 0) : Type 0 where
  pub max_matter_services : ℕ
  pub service_eq : S → S → Bool
  -- `MatterLocalService::service`, over the buffer for its strings.
  pub local_service : S → List ℕ → Result ErrorCode LocalService × List ℕ
  pub srp_add_service : SrpService → Exec EspError W ℕ
  pub srp_remove_service : ℕ → Bool → Exec EspError W (Unit {0})
  -- The services that `Matter::mdns_services` visits.
  pub mdns_services : W → List S
  pub wait_mdns : W → W

pub record SrpState (S : Type 0) (W : Type 0) : Type 0 where
  pub services : List (S × ℕ)
  pub mdns_buf : List ℕ
  pub world : W

unfoldable pub to_srp_service : LocalService → SrpService
to_srp_service service = record {
  name = service.service_protocol;
  instance_name = service.name;
  port = service.port;
  subtype_labels = service.service_subtypes;
  txt_entries = service.txt_kvs;
  priority = 0;
  weight = 0;
  lease_secs = 0;
  key_lease_secs = 0;
}

module _ {S W A : Type 0} where
  -- A call of the client, its error one of the network layer.
  abbrev pub client : Exec EspError W A → Exec ErrorCode (SrpState S W) A
  client m s = let (r, w) = m s.world in (map_err to_net_error r, record s { world = w })

module _ {S W : Type 0} (p : Srp S W) where
  unfoldable pub contains : List S → S → Bool
  contains [] service = false
  contains (s ∷ rest) service = if p.service_eq s service then true else contains rest service

  -- Whether a service is registered.
  unfoldable pub is_registered : List (S × ℕ) → S → Bool
  is_registered [] service = false
  is_registered ((s, slot) ∷ rest) service =
      if p.service_eq s service then true else is_registered rest service

  unfoldable pub all_registered : List (S × ℕ) → List S → Bool
  all_registered registered [] = true
  all_registered registered (s ∷ rest) =
      is_registered registered s && all_registered registered rest

  unfoldable pub is_unchanged : List (S × ℕ) → List S → Bool
  is_unchanged registered services =
      (length services == length registered) && all_registered registered services

  unfoldable pub register : S → Exec ErrorCode (SrpState S W) ℕ
  unfolding to_srp_service
  register service s =
      let buf = resize ot_mdns_buf_sz s.mdns_buf in
      let (r, buf') = p.local_service service buf in
      (do l ← lift r; client (p.srp_add_service (to_srp_service l))) (record s { mdns_buf = buf' })

  unfoldable pub deregister : ℕ → Exec ErrorCode (SrpState S W) (Unit {0})
  deregister slot = client (p.srp_remove_service slot false)

  -- The removals. A service that stays is dropped locally only.
  unfoldable pub remove_registered :
      List S → List (S × ℕ) → Exec ErrorCode (SrpState S W) (Unit {0})
  unfolding deregister
  remove_registered services [] = skip
  remove_registered services ((service, slot) ∷ rest) =
      (if contains services service
        then client (p.srp_remove_service slot true)
        else deregister slot)
      >> remove_registered services rest

  -- `self.services.push`.
  unfoldable pub push_service : S → ℕ → Exec ErrorCode (SrpState S W) (Unit {0})
  push_service service slot s =
      if ltb (length s.services) p.max_matter_services
      then (ok tt, record s { services = s.services ++ (service, slot) ∷ [] })
      else (err ErrorCode.constraint_error, s)

  unfoldable pub register_all : List S → Exec ErrorCode (SrpState S W) (Unit {0})
  unfolding register push_service
  register_all [] = skip
  register_all (service ∷ rest) = do
    slot ← register service
    push_service service slot
    register_all rest

  -- The copy of the registered services has room for as many as `self.services`.
  unfoldable pub update_services : List S → Exec ErrorCode (SrpState S W) (Unit {0})
  unfolding is_unchanged remove_registered register_all
  update_services services s =
      if is_unchanged s.services services
      then (ok tt, s)
      else if leb (length s.services) p.max_matter_services
      then (remove_registered services s.services >> register_all services)
          (record s { services = [] })
      else (panic, s)

  -- The services of the node, collected anew.
  unfoldable pub collect_services : List S → Result ErrorCode (List S)
  collect_services services =
      if leb (length services) p.max_matter_services
      then ok services
      else err ErrorCode.constraint_error

  -- One round of `run_register`, up to the wait.
  unfoldable pub register_round : Exec ErrorCode (SrpState S W) (Unit {0})
  unfolding collect_services update_services
  register_round s =
      (do
        services ← lift (collect_services (p.mdns_services s.world))
        update_services services
        modify (λ t. record t { world = p.wait_mdns t.world }))
        s
