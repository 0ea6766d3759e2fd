-- ===== src/Netif/Conf.antt =====
-- netif.rs, `get_netif_conf`, over the calls of `EspNetif` and ESP-IDF.
use esp_idf_matter.Base.{
  ℕ, Bool, Option, none, List, [], ◌∷◌, ◌++◌, map, length, take, replicate, leb, if◌then◌else◌,
  Exec, Result, ok, panic, pure, lift, ◌>>=◌,
}
use esp_idf_matter.Error.{EspError}
use esp_idf_matter.Netif.Addr.{Ipv6Addr, esp_ip6_to_addr, push_preferred, push_others}
use esp_idf_matter.Netif.Info.{
  InterfaceTypeEnum, is_thread, NetifInfo, NetifInfoOwned, load_from_info,
}

-- An `EspNetif`. The two functions on addresses fill an array of raw addresses and give the number
-- of addresses.
pub record EspNetif (W : Type 0) : Type 0 where
  pub lwip_ipv6_num_addresses : ℕ
  pub get_ip_info : Exec EspError W ℕ
  pub get_all_preferred_ip6 : List (List ℕ) → W → ℕ × (List (List ℕ) × W)
  pub get_all_ip6 : List (List ℕ) → W → ℕ × (List (List ℕ) × W)
  pub get_mac : Exec EspError W (List ℕ)
  pub get_name : W → List ℕ
  pub is_netif_up : Exec EspError W Bool
  pub is_up : Exec EspError W Bool
  pub get_index : W → ℕ

module _ {W : Type 0} (netif : EspNetif W) where
  -- `&raw[..count]`.
  unfoldable pub first_of_raw : ℕ → List (List ℕ) → Result EspError (List Ipv6Addr)
  first_of_raw count raw =
      if leb count (length raw) then ok (map esp_ip6_to_addr (take count raw)) else panic

  unfoldable pub collect_ipv6 : Exec EspError W (List Ipv6Addr)
  unfolding first_of_raw
  collect_ipv6 w =
      let capacity = netif.lwip_ipv6_num_addresses in
      let (count, (raw, w')) =
        netif.get_all_preferred_ip6 (replicate capacity (0 ∷ 0 ∷ 0 ∷ 0 ∷ [])) w in
      let (count', (raw', w'')) = netif.get_all_ip6 raw w' in
      (do
        preferred ← lift (first_of_raw count raw)
        pushed ← lift (push_preferred capacity [] preferred)
        all ← lift (first_of_raw count' raw')
        lift (push_others capacity pushed all))
        w''

  -- The MAC of six bytes at the front of eight zeros.
  abbrev pub pad_mac : List ℕ → List ℕ
  pad_mac mac = mac ++ 0 ∷ 0 ∷ []

  unfoldable pub get_netif_conf : InterfaceTypeEnum → Exec EspError W NetifInfo
  unfolding collect_ipv6
  get_netif_conf netif_type = do
    ipv4 ← netif.get_ip_info
    ipv6_addrs ← collect_ipv6
    mac ← netif.get_mac
    operational ← if is_thread netif_type then netif.is_netif_up else netif.is_up
    (λ w.
        pure
          (record {
            name = netif.get_name w;
            operational = operational;
            offprem_svc_reachable_ipv4 = none;
            offprem_svc_reachable_ipv6 = none;
            hw_addr = pad_mac mac;
            ipv4_addrs = ipv4 ∷ [];
            ipv6_addrs = ipv6_addrs;
            netif_type = netif_type;
            netif_index = netif.get_index w;
          })
          w)

-- A cache and the world.
pub record Loaded (W : Type 0) : Type 0 where
  pub netif_state : NetifInfoOwned
  pub world : W

module _ {W : Type 0} (netif : EspNetif W) where
  unfoldable pub store_info : Bool → Option (List ℕ) → NetifInfo → Exec EspError (Loaded W) Bool
  store_info l2_connected hw_addr info s =
      let (r, owned) = load_from_info l2_connected info hw_addr s.netif_state in
      (r, record s { netif_state = owned })

  -- `load`.
  unfoldable pub load : Bool → InterfaceTypeEnum → Option (List ℕ) → Exec EspError (Loaded W) Bool
  unfolding store_info
  load l2_connected netif_type hw_addr = do
    info ←
        (λ s. let (r, w) = get_netif_conf netif netif_type s.world in (r, record s { world = w }))
    store_info l2_connected hw_addr info
