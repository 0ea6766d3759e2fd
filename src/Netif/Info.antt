-- ===== src/Netif/Info.antt =====
-- netif.rs: `NetifInfoOwned`, the cache of one interface, and the choice of its addresses.
use mathlib.Core.Option.{get_or}
use esp_idf_matter.Base.{
  ℕ, Bool, true, false, not, ◌&&◌, ◌||◌, Option, none, List, [], ◌∷◌, length, leb, ◌==◌, head?,
  bytes_eq, if◌then◌else◌, Exec, ok, panic,
}
use esp_idf_matter.Error.{EspError}
use esp_idf_matter.Netif.Addr.{
  Ipv6Addr, ipv4_unspecified, ipv6_unspecified, is_unicast_link_local, find, or_else,
}

-- `InterfaceTypeEnum` of `rs-matter`.
pub data InterfaceTypeEnum : Type 0 where
  wifi ethernet thread : InterfaceTypeEnum
  other : ℕ → InterfaceTypeEnum

abbrev pub is_thread : InterfaceTypeEnum → Bool
is_thread InterfaceTypeEnum.thread = true
is_thread _ = false

abbrev pub type_code : InterfaceTypeEnum → ℕ × ℕ
type_code InterfaceTypeEnum.wifi = (0, 0)
type_code InterfaceTypeEnum.ethernet = (1, 0)
type_code InterfaceTypeEnum.thread = (2, 0)
type_code (InterfaceTypeEnum.other n) = (3, n)

abbrev pub type_eq : InterfaceTypeEnum → InterfaceTypeEnum → Bool
type_eq t u = ((type_code t).0 == (type_code u).0) && ((type_code t).1 == (type_code u).1)

-- `NetifInfo` of `rs-matter`.
pub record NetifInfo : Type 0 where
  pub name : List ℕ
  pub operational : Bool
  pub offprem_svc_reachable_ipv4 : Option Bool
  pub offprem_svc_reachable_ipv6 : Option Bool
  pub hw_addr : List ℕ
  pub ipv4_addrs : List ℕ
  pub ipv6_addrs : List Ipv6Addr
  pub netif_type : InterfaceTypeEnum
  pub netif_index : ℕ

pub record NetifInfoOwned : Type 0 where
  pub name : List ℕ
  pub operational : Bool
  pub hw_addr : List ℕ
  pub ipv4_addr : ℕ
  pub ipv6_addr : Ipv6Addr
  pub netif_type : InterfaceTypeEnum
  pub netif_index : ℕ

unfoldable pub NetifInfoOwned_new : NetifInfoOwned
NetifInfoOwned_new = record {
  name = [];
  operational = false;
  hw_addr = 0 ∷ 0 ∷ 0 ∷ 0 ∷ 0 ∷ 0 ∷ 0 ∷ 0 ∷ [];
  ipv4_addr = ipv4_unspecified;
  ipv6_addr = ipv6_unspecified;
  netif_type = InterfaceTypeEnum.wifi;
  netif_index = 0;
}

unfoldable pub is_operational_v6 : NetifInfoOwned → Bool
is_operational_v6 s = s.operational && not (bytes_eq s.ipv6_addr ipv6_unspecified)

unfoldable pub is_operational : NetifInfoOwned → Bool
unfolding is_operational_v6
is_operational s = is_operational_v6 s && not (s.ipv4_addr == ipv4_unspecified)

-- The view that `as_ref` hands to its callback.
unfoldable pub as_ref : NetifInfoOwned → NetifInfo
as_ref s = record {
  name = s.name;
  operational = s.operational;
  offprem_svc_reachable_ipv4 = none;
  offprem_svc_reachable_ipv6 = none;
  hw_addr = s.hw_addr;
  ipv4_addrs = if s.ipv4_addr == ipv4_unspecified then [] else s.ipv4_addr ∷ [];
  ipv6_addrs = if bytes_eq s.ipv6_addr ipv6_unspecified then [] else s.ipv6_addr ∷ [];
  netif_type = s.netif_type;
  netif_index = s.netif_index;
}

unfoldable pub info_ipv4_addr : NetifInfo → ℕ
info_ipv4_addr info = get_or (head? info.ipv4_addrs) ipv4_unspecified

-- Thread: the first address that is not link-local, else the first one. Otherwise: the first
-- link-local one.
unfoldable pub info_ipv6_addr : NetifInfo → Ipv6Addr
info_ipv6_addr info =
    get_or
      (if is_thread info.netif_type
        then or_else (find (λ a. not (is_unicast_link_local a)) info.ipv6_addrs)
            (head? info.ipv6_addrs)
        else find is_unicast_link_local info.ipv6_addrs)
      ipv6_unspecified

unfoldable pub info_is_operational_v6 : Bool → NetifInfo → Bool
info_is_operational_v6 l2_connected info =
    l2_connected && info.operational && not (bytes_eq (info_ipv6_addr info) ipv6_unspecified)

unfoldable pub info_is_operational : Bool → NetifInfo → Bool
unfolding info_is_operational_v6
info_is_operational l2_connected info =
    info_is_operational_v6 l2_connected info && not (info_ipv4_addr info == ipv4_unspecified)

-- The comparison that `load_from_info` makes, on the values computed there.
unfoldable pub is_changed : NetifInfoOwned → NetifInfo → Bool → List ℕ → ℕ → Ipv6Addr → Bool
is_changed s info operational hw_addr ipv4_addr ipv6_addr =
    not (bytes_eq s.name info.name)
    || not (if operational then s.operational else not s.operational)
    || not (bytes_eq s.hw_addr hw_addr)
    || not (s.ipv4_addr == ipv4_addr)
    || not (bytes_eq s.ipv6_addr ipv6_addr)
    || not (type_eq s.netif_type info.netif_type)
    || not (s.netif_index == info.netif_index)

-- The assignments; the conversions to `String<6>` and `[u8; 8]` panic where the length is wrong.
unfoldable pub assign : NetifInfo → Bool → List ℕ → ℕ → Ipv6Addr → Exec EspError NetifInfoOwned Bool
assign info operational hw_addr ipv4_addr ipv6_addr s =
    if not (leb (length info.name) 6)
    then (panic, s)
    else if not (length hw_addr == 8)
    then (panic, record s { name = info.name; operational = operational })
    else (
      ok true,
      record {
        name = info.name;
        operational = operational;
        hw_addr = hw_addr;
        ipv4_addr = ipv4_addr;
        ipv6_addr = ipv6_addr;
        netif_type = info.netif_type;
        netif_index = info.netif_index;
      },
    )

unfoldable pub load_from_info :
    Bool → NetifInfo → Option (List ℕ) → Exec EspError NetifInfoOwned Bool
unfolding assign
load_from_info l2_connected info hw_addr s =
    let hw = get_or hw_addr info.hw_addr in
    let ipv4_addr = info_ipv4_addr info in
    let ipv6_addr = info_ipv6_addr info in
    let operational = info.operational && l2_connected in
    if is_changed s info operational hw ipv4_addr ipv6_addr
    then assign info operational hw ipv4_addr ipv6_addr s
    else (ok false, s)
