-- ===== src/Netif/Operational.antt =====
-- When netif.rs takes an interface for operational.
use mathlib.Core.Option.{get_or}
use esp_idf_matter.Base.{
  ℕ, ◌≤◌, Bool, true, false, not, ◌||◌, Option, List, [], ◌∷◌, ◌≡◌, refl, length, bytes_eq, arith,
}
use esp_idf_matter.Netif.Addr.{Ipv6Addr, ipv6_unspecified, is_unicast_link_local, find}
use esp_idf_matter.Netif.Info.{
  is_thread, NetifInfo, NetifInfoOwned, is_operational, is_operational_v6, info_ipv6_addr,
  info_is_operational, info_is_operational_v6, load_from_info,
}
use esp_idf_matter.Netif.Cache.{load_from_info_lem}

-- After a query with a name of at most 6 bytes and a hardware address of 8, the cache is operational,
-- for IPv6 and altogether, exactly when the interface that the query found is, the L2 connection
-- counted in; whatever the cache held.
pub load_from_info-is_operational :
    (l2_connected : Bool) (info : NetifInfo) (hw_addr : Option (List ℕ)) (s : NetifInfoOwned)
    → length info.name ≤ 6
    → length (get_or hw_addr info.hw_addr) ≡ 8
    → let s' = (load_from_info l2_connected info hw_addr s).1 in
      (is_operational_v6 s' ≡ info_is_operational_v6 l2_connected info)
      × (is_operational s' ≡ info_is_operational l2_connected info)
unfolding is_operational_v6 is_operational info_is_operational_v6 info_is_operational
load_from_info-is_operational l2_connected info hw_addr s hn hh =
    let (e, r, i) = load_from_info_lem l2_connected info hw_addr s hn hh in
    (ground arith, ground arith)

abbrev pub any_link_local : List Ipv6Addr → Bool
any_link_local [] = false
any_link_local (a ∷ rest) = is_unicast_link_local a || any_link_local rest

link_local-specified :
    (a : Ipv6Addr) → is_unicast_link_local a ≡ true → bytes_eq a ipv6_unspecified ≡ false
unfolding is_unicast_link_local
link_local-specified [] h = refl
link_local-specified (x ∷ []) h = ground arith
link_local-specified (x ∷ y ∷ rest) h = ground arith

found_link_local :
    (addrs : List Ipv6Addr)
    → bytes_eq (get_or (find is_unicast_link_local addrs) ipv6_unspecified) ipv6_unspecified
      ≡ not (any_link_local addrs)
found_link_local [] = refl
found_link_local (a ∷ rest) = ground (arith, found_link_local rest, link_local-specified a)

-- An interface other than Thread that is up and connected counts as operational for IPv6 exactly
-- when one of its addresses is link-local.
pub info_is_operational_v6_lem :
    (info : NetifInfo)
    → is_thread info.netif_type ≡ false
    → info.operational ≡ true
    → info_is_operational_v6 true info ≡ any_link_local info.ipv6_addrs
unfolding info_is_operational_v6 info_ipv6_addr
info_is_operational_v6_lem info h k = ground (arith, found_link_local info.ipv6_addrs)
