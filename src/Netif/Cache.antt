-- ===== src/Netif/Cache.antt =====
-- What a query leaves in the cache of netif.rs.
use mathlib.Core.Option.{get_or}
use esp_idf_matter.Base.{
  ℕ, ◌≤◌, Bool, true, false, ◌&&◌, Option, List, ◌≡◌, ◌≢◌, refl, ◌↔◌, length, bytes_eq_refl,
  bytes_eq→eq, Bool-cases, inl, inr, ok, ◌⊎◌, arith,
}
use esp_idf_matter.Netif.Addr.{Ipv6Addr}
use esp_idf_matter.Netif.Info.{
  InterfaceTypeEnum, type_eq, NetifInfo, NetifInfoOwned, info_ipv4_addr, info_ipv6_addr, is_changed,
  load_from_info,
}

-- The cache that describes an interface as a query found it.
abbrev pub snapshot : Bool → NetifInfo → Option (List ℕ) → NetifInfoOwned
snapshot l2_connected info hw_addr = record {
  name = info.name;
  operational = info.operational && l2_connected;
  hw_addr = get_or hw_addr info.hw_addr;
  ipv4_addr = info_ipv4_addr info;
  ipv6_addr = info_ipv6_addr info;
  netif_type = info.netif_type;
  netif_index = info.netif_index;
}

type_eq_refl : (t : InterfaceTypeEnum) → type_eq t t ≡ true
type_eq_refl InterfaceTypeEnum.wifi = refl
type_eq_refl InterfaceTypeEnum.ethernet = refl
type_eq_refl InterfaceTypeEnum.thread = refl
type_eq_refl (InterfaceTypeEnum.other n) = ground arith

type_eq→eq : (t u : InterfaceTypeEnum) → type_eq t u ≡ true → t ≡ u
type_eq→eq t u h = ground arith

-- The comparison finds no difference exactly when the cache is the one described.
is_changed-eq :
    (s : NetifInfoOwned) (info : NetifInfo) (op : Bool) (hw : List ℕ) (v4 : ℕ) (v6 : Ipv6Addr)
    → is_changed s info op hw v4 v6 ≡ false
    → s ≡ record {
      name = info.name;
      operational = op;
      hw_addr = hw;
      ipv4_addr = v4;
      ipv6_addr = v6;
      netif_type = info.netif_type;
      netif_index = info.netif_index;
    }
unfolding is_changed
is_changed-eq s info op hw v4 v6 h =
    ground
      (arith, bytes_eq→eq s.name info.name, bytes_eq→eq s.hw_addr hw, bytes_eq→eq s.ipv6_addr v6)

is_changed_refl :
    (info : NetifInfo) (op : Bool) (hw : List ℕ) (v4 : ℕ) (v6 : Ipv6Addr)
    → is_changed
        (record {
          name = info.name;
          operational = op;
          hw_addr = hw;
          ipv4_addr = v4;
          ipv6_addr = v6;
          netif_type = info.netif_type;
          netif_index = info.netif_index;
        })
        info
        op
        hw
        v4
        v6
      ≡ false
unfolding is_changed
is_changed_refl info op hw v4 v6 = ground (
  arith,
  bytes_eq_refl info.name,
  bytes_eq_refl hw,
  bytes_eq_refl v6,
  type_eq_refl info.netif_type,
)

-- A query with a name of at most 6 bytes and a hardware address of 8 does not panic, makes the
-- cache describe exactly what it found, whatever the cache held, and reports a change exactly when
-- the cache was another one.
pub load_from_info_lem :
    (l2_connected : Bool) (info : NetifInfo) (hw_addr : Option (List ℕ)) (s : NetifInfoOwned)
    → length info.name ≤ 6
    → length (get_or hw_addr info.hw_addr) ≡ 8
    → let (r, s') = load_from_info l2_connected info hw_addr s in
      (s' ≡ snapshot l2_connected info hw_addr)
      × ((r ≡ ok true) ⊎ (r ≡ ok false))
      × ((r ≡ ok false) ↔ (s ≡ snapshot l2_connected info hw_addr))
unfolding load_from_info
load_from_info_lem l2_connected info hw_addr s hn hh =
    let op = info.operational && l2_connected in
    let hw = get_or hw_addr info.hw_addr in
    elim (Bool-cases (is_changed s info op hw (info_ipv4_addr info) (info_ipv6_addr info))) [
      | inl differs ↦
          ground (arith, is_changed_refl info op hw (info_ipv4_addr info) (info_ipv6_addr info))
      | inr same ↦
          ground
            (arith, is_changed-eq s info op hw (info_ipv4_addr info) (info_ipv6_addr info) same)
    ]

-- Whatever the lengths: a query that reports a change leaves another cache, and one that reports
-- none leaves the cache alone.
pub load_from_info-change :
    (l2_connected : Bool) (info : NetifInfo) (hw_addr : Option (List ℕ)) (s : NetifInfoOwned)
    → (load_from_info l2_connected info hw_addr s).0 ≡ ok true
    → (load_from_info l2_connected info hw_addr s).1 ≢ s
unfolding load_from_info
load_from_info-change l2_connected info hw_addr s h e =
    let op = info.operational && l2_connected in
    let hw = get_or hw_addr info.hw_addr in
    ground (arith, is_changed_refl info op hw (info_ipv4_addr info) (info_ipv6_addr info))

pub load_from_info-same :
    (l2_connected : Bool) (info : NetifInfo) (hw_addr : Option (List ℕ)) (s : NetifInfoOwned)
    → (load_from_info l2_connected info hw_addr s).0 ≡ ok false
    → (load_from_info l2_connected info hw_addr s).1 ≡ s
unfolding load_from_info
load_from_info-same l2_connected info hw_addr s h = ground arith
