-- ===== src/Tests/Netif.antt =====
-- The network interface of netif.rs over a world that is the state of the interface.
use esp_idf_matter.Base.{
  ℕ, Bool, true, false, none, some, List, [], ◌∷◌, ◌≡◌, ◌≢◌, ◌↔◌, ◌⊎◌, inr, refl, take, Result, ok,
  err, arith,
}
use esp_idf_matter.Error.{EspError}
use esp_idf_matter.Netif.Addr.{esp_ip6_to_addr, push_preferred, push_others}
use esp_idf_matter.Netif.Info.{
  InterfaceTypeEnum, NetifInfo, NetifInfoOwned_new, is_changed, load_from_info,
}
use esp_idf_matter.Netif.Conf.{EspNetif, Loaded, collect_ipv6, get_netif_conf, load}
use esp_idf_matter.Netif.Notif.{Access, wait_any_conf_change, refresh, wait_changed}
use esp_idf_matter.Netif.Cache.{snapshot, load_from_info_lem}
use esp_idf_matter.Netif.Collect.{Collected, collect_ipv6-Collected}
use esp_idf_matter.Netif.Wait.{after, wait_changed_lem}

abbrev link_local : List ℕ
link_local = 0x80fe ∷ 0 ∷ 0 ∷ 1 ∷ []

abbrev global : List ℕ
global = 0x80fd ∷ 0 ∷ 0 ∷ 1 ∷ []

-- The world tells whether the interface is up.
abbrev netif : EspNetif Bool
netif = record {
  lwip_ipv6_num_addresses = 3;
  get_ip_info = λ w. (ok 0x0a000001, w);
  get_all_preferred_ip6 = λ raw w. (1, (global ∷ take 2 raw, w));
  get_all_ip6 = λ raw w. (2, (link_local ∷ global ∷ take 1 raw, w));
  get_mac = λ w. (ok (1 ∷ 2 ∷ 3 ∷ 4 ∷ 5 ∷ 6 ∷ []), w);
  get_name = λ w. 119 ∷ 49 ∷ [];
  is_netif_up = λ w. (ok w, w);
  is_up = λ w. (ok w, w);
  get_index = λ w. 1;
}

collect_ipv6-Collected_example :
    Collected
      (esp_ip6_to_addr global ∷ [])
      (esp_ip6_to_addr link_local ∷ esp_ip6_to_addr global ∷ [])
      (collect_ipv6 netif true).0
unfolding esp_ip6_to_addr
collect_ipv6-Collected_example =
    collect_ipv6-Collected netif 1 2 (global ∷ (0 ∷ 0 ∷ 0 ∷ 0 ∷ []) ∷ (0 ∷ 0 ∷ 0 ∷ 0 ∷ []) ∷ [])
      (link_local ∷ global ∷ global ∷ []) true true true refl refl (omega arith) (omega arith)
      (omega arith) (refl, tt) (λ a h. ground arith)

abbrev a_info : NetifInfo
a_info = record {
  name = 119 ∷ 49 ∷ [];
  operational = true;
  offprem_svc_reachable_ipv4 = none;
  offprem_svc_reachable_ipv6 = none;
  hw_addr = 1 ∷ 2 ∷ 3 ∷ 4 ∷ 5 ∷ 6 ∷ 0 ∷ 0 ∷ [];
  ipv4_addrs = 0x0a000001 ∷ [];
  ipv6_addrs = [];
  netif_type = InterfaceTypeEnum.wifi;
  netif_index = 1;
}

load_from_info_lem_example :
    let (r, s') = load_from_info true a_info none NetifInfoOwned_new in
    (s' ≡ snapshot true a_info none)
    × ((r ≡ ok true) ⊎ (r ≡ ok false))
    × ((r ≡ ok false) ↔ (NetifInfoOwned_new ≡ snapshot true a_info none))
load_from_info_lem_example =
    load_from_info_lem true a_info none NetifInfoOwned_new (omega arith) (omega arith)

-- An interface that comes up at the second query.
abbrev rising : Access Bool
rising = record {
  netif = netif;
  hw_addr = λ w. none;
  access = λ w. (if_up w, w);
  subscribe_ip_events = λ w. (ok tt, w);
  wait_event_or_timer = λ secs w. true;
}
  where
    if_up : Bool → Result EspError Bool
    if_up true = ok true
    if_up false = err 1

abbrev down : Loaded Bool
down = record { netif_state = NetifInfoOwned_new; world = false }

wait_changed_lem_example :
    (wait_changed rising InterfaceTypeEnum.wifi 1 down ≡ none)
    × (wait_changed rising InterfaceTypeEnum.wifi 2 down
        ≡ some (
          ok tt,
          (refresh rising InterfaceTypeEnum.wifi (after rising InterfaceTypeEnum.wifi 1 down)).1,
        ))
    × ((refresh rising InterfaceTypeEnum.wifi
          (after rising InterfaceTypeEnum.wifi 1 down)).1.netif_state
        ≢ NetifInfoOwned_new)
unfolding refresh wait_any_conf_change load get_netif_conf push_preferred push_others
    esp_ip6_to_addr load_from_info is_changed NetifInfoOwned_new
wait_changed_lem_example =
    wait_changed_lem rising InterfaceTypeEnum.wifi 1 2 down (inr (1, refl), tt) refl (omega arith)
