-- ===== src/Tests/Thread.antt =====
-- The Thread parts: the services in the SRP client, the packed fields, and the ICD's keep-alives.
use esp_idf_matter.Base.{
  ℕ, ◌+◌, ◌*◌, ◌/◌, ◌%◌, ◌^◌, ◌≤◌, ◌<◌, true, false, some, List, length, [], ◌∷◌, ◌++◌, ◌≡◌, is_ok,
  ◌↔◌, ◌⊎◌, inl, refl, ◌==◌, ok, arith,
}
use esp_idf_matter.Thread.Srp.{LocalService, Srp, SrpState, to_srp_service, update_services}
use esp_idf_matter.Thread.Srp.Update.{IsRegistered, update_services_lem}
use esp_idf_matter.Thread.Srp.Client.{Client, removed, entries, names, unwanted, Failed}
use esp_idf_matter.Thread.Srp.Host.{Host, start_host}
use esp_idf_matter.Thread.Srp.Host.Named.{read_hex, is_taken, start_host_lem}
use esp_idf_matter.Thread.Dataset.{
  Timestamp, dataset_timestamp, SecurityPolicy, security_policy_flags,
}
use esp_idf_matter.Thread.Dataset.Packing.{packed_fields}
use esp_idf_matter.Wireless.Icd.{
  child_timeout_s, child_supervision_check_timeout_s, u32_max, u16_max, IcdNetParams, EspThread,
}
use esp_idf_matter.Wireless.Icd.Bounds.{timeouts_lem}
use esp_idf_matter.Wireless.Icd.Follow.{Settings}

-- A service is its number; the client's slots count up.
abbrev describe : ℕ → LocalService
describe n = record {
  name = n ∷ [];
  service_protocol = 1 ∷ [];
  port = 5540;
  service_subtypes = [];
  txt_kvs = [];
}

abbrev srp : Srp ℕ Client
srp = record {
  max_matter_services = 6;
  service_eq = λ a b. a == b;
  local_service = λ n buf. (ok (describe n), buf);
  srp_add_service = λ s c. (ok 4, record c { active = c.active ++ (s, 4) ∷ [] });
  srp_remove_service = λ slot immediate c. (ok tt, removed slot immediate c);
  mdns_services = λ c. [];
  wait_mdns = λ c. c;
}

abbrev registered : SrpState ℕ Client
registered = record {
  services = (10, 1) ∷ (20, 2) ∷ [];
  mdns_buf = [];
  world = record {
    active = (to_srp_service (describe 10), 1) ∷ (to_srp_service (describe 20), 2) ∷ [];
    withdrawn = [];
  };
}

update_services_lem_example :
    let (r, s') = update_services srp (20 ∷ 30 ∷ []) registered in
    (IsRegistered (20 ∷ 30 ∷ []) (names registered.services) × (r ≡ ok tt) × (s' ≡ registered))
    ⊎ ((¬ IsRegistered (20 ∷ 30 ∷ []) (names registered.services))
        × (r ≡ ok tt)
        × (names s'.services ≡ 20 ∷ 30 ∷ [])
        × (s'.world.active ≡ entries srp describe s'.services)
        × (s'.world.withdrawn ≡ [] ++ unwanted srp describe (20 ∷ 30 ∷ []) registered.services))
    ⊎ ((¬ IsRegistered (20 ∷ 30 ∷ []) (names registered.services)) × ⊥ × Failed r)
update_services_lem_example =
    update_services_lem srp describe (λ c. c) ⊥
      (λ a b. (λ same. ground arith, λ same. ground arith)) (λ n buf. inl refl)
      (λ s c. inl (4, refl, refl)) (λ slot immediate c. inl (refl, refl)) (20 ∷ 30 ∷ []) registered
      refl (omega arith) (omega arith)

abbrev a_timestamp : Timestamp
a_timestamp = record { seconds = 1700000000; ticks = 77; authoritative = true }

abbrev a_policy : SecurityPolicy
a_policy = record {
  obtain_network_key_enabled = true;
  native_commissioning_enabled = false;
  routers_enabled = true;
  external_commissioning_enabled = false;
  commercial_commissioning_enabled = false;
  autonomous_enrollment_enabled = false;
  network_key_provisioning_enabled = false;
  toble_link_enabled = false;
  non_ccm_routers_enabled = true;
  version_threshold_for_routing = 3;
}

packed_fields_example :
    (dataset_timestamp a_timestamp / 2 ^ 16 ≡ 1700000000)
    × (dataset_timestamp a_timestamp / 2 % 2 ^ 15 ≡ 77)
    × (dataset_timestamp a_timestamp % 2 ≡ 1)
    × (security_policy_flags a_policy % 2 ^ 9 ≡ 261)
    × (security_policy_flags a_policy / 2 ^ 9 ≡ 3)
packed_fields_example = packed_fields a_timestamp a_policy (omega arith) (omega arith) (omega arith)

timeouts_lem_example :
    (child_timeout_s 900000 ≤ u32_max)
    × (240 ≤ child_timeout_s 900000)
    × (900000 + 30 * 1000 ≤ child_timeout_s 900000 * 1000)
    × ((child_timeout_s 900000 * 1000 < 2 * 900000) ↔ (120000 < 900000))
    × (190 ≤ child_supervision_check_timeout_s 900000)
    × (child_supervision_check_timeout_s 900000 ≤ u16_max)
    × ((child_supervision_check_timeout_s 900000 ≡ u16_max)
        ⊎ (129 * 1000 + 2 * 900000 ≤ child_supervision_check_timeout_s 900000 * 1000))
timeouts_lem_example = timeouts_lem 900000 (omega arith)

-- An OpenThread whose setters always succeed.
abbrev open_thread : EspThread Settings
open_thread = record {
  set_link_mode = λ a b c s. (ok tt, s);
  set_poll_period = λ v s. (ok tt, record s { poll_period = v });
  set_child_supervision_check_timeout = λ v s. (ok tt, record s { check_timeout = v });
  set_child_timeout = λ v s. (ok tt, record s { child_timeout = v; programmed = s.programmed + 1 });
}

abbrev slow : IcdNetParams
slow = record {
  power_mode = 0;
  operating_mode = 0;
  poll_interval_ms = 5000;
  max_poll_interval_ms = 5000;
}

abbrev fast : IcdNetParams
fast = record {
  power_mode = 1;
  operating_mode = 0;
  poll_interval_ms = 500;
  max_poll_interval_ms = 5000;
}

abbrev unset : Settings
unset = record { poll_period = 0; check_timeout = 0; child_timeout = 0; programmed = 0 }

-- A client that keeps its host name apart.
abbrev named_host : Host (Client × List ℕ)
named_host = record {
  read_mac = λ c. (ok (0 ∷ 0 ∷ 0 ∷ 0 ∷ 0 ∷ 0 ∷ 0 ∷ 1 ∷ []), c);
  srp_remove_all = λ immediate (c, name). (ok tt, (record c { active = [] }, name));
  srp_set_conf = λ name (c, old). (ok tt, (c, name));
}

abbrev eui64 : List ℕ
eui64 = 0x1a ∷ 2 ∷ 3 ∷ 4 ∷ 5 ∷ 6 ∷ 7 ∷ 0xff ∷ []

abbrev hosted : SrpState ℕ (Client × List ℕ)
hosted = record { services = registered.services; mdns_buf = []; world = (registered.world, []) }

start_host_lem_example :
    (name : List ℕ) × (length name ≡ 16)
    × (read_hex name ≡ some eui64)
    × (let (r, s') = start_host named_host (some eui64) hosted in
        ((is_taken named_host name hosted.world ≡ true)
          × (r ≡ ok tt)
          × (s'.services ≡ [])
          × (s'.world.0.active ≡ [])
          × (s'.world.1 ≡ name))
        ⊎ ((is_taken named_host name hosted.world ≡ false) × (is_ok r ≡ false)))
start_host_lem_example =
    start_host_lem named_host (λ w. w.0) (λ w. w.1) (λ w e. refl) (λ name w e. (refl, refl)) eui64
      hosted (omega arith) (ground arith)
