-- ===== src/Netif/Udp/Groups.antt =====
-- The multicast groups of a socket of src/netif/udp.rs, as lwIP keeps them.
use esp_idf_matter.Base.{
  ℕ, Bool, true, false, not, ◌&&◌, ◌||◌, ◌==◌, bytes_eq, List, ok, IsFailure, is_ok, ◌≡◌, ◌⊎◌,
  arith,
}
use esp_idf_matter.Netif.Addr.{Ipv6Addr, to_le_bytes}
use esp_idf_matter.Netif.Udp.{
  IpAddr, v4, v6, IpMreq, Sockets, EspMatterNetSocket, octets, from_ne_bytes, mreq,
  set_ipv4_membership, join, leave_group,
}

-- A group on an interface: the octets of both for IPv4, the address and the index for IPv6.
pub data Group : Type 0 where
  on_ipv4 : (group interface : List ℕ) → Group
  on_ipv6 : (group : Ipv6Addr) (interface : ℕ) → Group

abbrev pub group_eq : Group → Group → Bool
group_eq (on_ipv4 g i) (on_ipv4 h j) = bytes_eq g h && bytes_eq i j
group_eq (on_ipv6 g i) (on_ipv6 h j) = bytes_eq g h && (i == j)
group_eq _ _ = false

-- lwIP reads the octets of an address in their order from the memory of an `s_addr`.
abbrev pub lwip_group : IpMreq → Group
lwip_group m = on_ipv4 (to_le_bytes m.imr_multiaddr) (to_le_bytes m.imr_interface)

-- The group that the caller means.
abbrev pub group_of : {F : Type 0} → EspMatterNetSocket F → IpAddr → Group
group_of s (v4 addr) = on_ipv4 (octets addr) (octets s.ipv4_interface)
group_of s (v6 addr) = on_ipv6 addr s.ipv6_interface

octets_back : (a : ℕ) → to_le_bytes (from_ne_bytes (octets a)) ≡ octets a
unfolding to_le_bytes from_ne_bytes octets
octets_back a = ground arith

lwip_group-mreq :
    {F : Type 0} (s : EspMatterNetSocket F) (addr : ℕ)
    → lwip_group (mreq s addr) ≡ group_of s (v4 addr)
unfolding mreq
lwip_group-mreq s addr = cc (octets_back addr, octets_back s.ipv4_interface)

module _ {E F W : Type 0} (os : Sockets E F W) (s : EspMatterNetSocket F) where
  -- Whether lwIP, or the standard library, does what it is asked to.
  abbrev pub joins : IpAddr → W → Bool
  joins (v4 addr) w = not (os.lwip_setsockopt s.socket os.ip_add_membership (mreq s addr) w).0
  joins (v6 addr) w = is_ok (os.join_multicast_v6 s.socket addr s.ipv6_interface w).0

  abbrev pub leaves : IpAddr → W → Bool
  leaves (v4 addr) w = not (os.lwip_setsockopt s.socket os.ip_drop_membership (mreq s addr) w).0
  leaves (v6 addr) w = is_ok (os.leave_multicast_v6 s.socket addr s.ipv6_interface w).0

module _ {E F W : Type 0} (os : Sockets E F W) (s : EspMatterNetSocket F)
    (is_member : W → Group → Bool)
    (adds_v4 : (m : IpMreq) (w : W) (g : Group)
      → (os.lwip_setsockopt s.socket os.ip_add_membership m w).0 ≡ false
      → is_member (os.lwip_setsockopt s.socket os.ip_add_membership m w).1 g
        ≡ (group_eq (lwip_group m) g || is_member w g))
    (drops_v4 : (m : IpMreq) (w : W) (g : Group)
      → (os.lwip_setsockopt s.socket os.ip_drop_membership m w).0 ≡ false
      → is_member (os.lwip_setsockopt s.socket os.ip_drop_membership m w).1 g
        ≡ (not (group_eq (lwip_group m) g) && is_member w g))
    (joins_v6 : (a : Ipv6Addr) (i : ℕ) (w : W) (g : Group)
      → (os.join_multicast_v6 s.socket a i w).0 ≡ ok tt
      → is_member (os.join_multicast_v6 s.socket a i w).1 g
        ≡ (group_eq (on_ipv6 a i) g || is_member w g))
    (leaves_v6 : (a : Ipv6Addr) (i : ℕ) (w : W) (g : Group)
      → (os.leave_multicast_v6 s.socket a i w).0 ≡ ok tt
      → is_member (os.leave_multicast_v6 s.socket a i w).1 g
        ≡ (not (group_eq (on_ipv6 a i) g) && is_member w g)) where
  join_lem :
      (addr : IpAddr) (w : W) (g : Group)
      → let (r, w') = join os s addr w in
        ((joins os s addr w ≡ true)
          × (r ≡ ok tt)
          × (is_member w' g ≡ (group_eq (group_of s addr) g || is_member w g)))
        ⊎ ((joins os s addr w ≡ false) × IsFailure r)
  unfolding join set_ipv4_membership
  join_lem (v4 addr) w g = ground (arith, adds_v4 (mreq s addr) w g, lwip_group-mreq s addr)
  join_lem (v6 addr) w g = ground (arith, joins_v6 addr s.ipv6_interface w g)

  leave_lem :
      (addr : IpAddr) (w : W) (g : Group)
      → let (r, w') = leave_group os s addr w in
        ((leaves os s addr w ≡ true)
          × (r ≡ ok tt)
          × (is_member w' g ≡ (not (group_eq (group_of s addr) g) && is_member w g)))
        ⊎ ((leaves os s addr w ≡ false) × IsFailure r)
  unfolding leave_group set_ipv4_membership
  leave_lem (v4 addr) w g = ground (arith, drops_v4 (mreq s addr) w g, lwip_group-mreq s addr)
  leave_lem (v6 addr) w g = ground (arith, leaves_v6 addr s.ipv6_interface w g)

  -- Where lwIP and the standard library add and drop the memberships that they are asked to: if the
  -- call of `join` there is not refused, the socket is a member of the group, on the interface of
  -- the socket for its family; after such a `leave` it is not; the other memberships are as they
  -- were. If the call is refused, the operation fails.
  pub membership_lem :
      (addr : IpAddr) (w : W) (g : Group)
      → let (r, w') = join os s addr w in
        let (t, w'') = leave_group os s addr w in
        (((joins os s addr w ≡ true)
            × (r ≡ ok tt)
            × (is_member w' g ≡ (group_eq (group_of s addr) g || is_member w g)))
          ⊎ ((joins os s addr w ≡ false) × IsFailure r))
        × (((leaves os s addr w ≡ true)
              × (t ≡ ok tt)
              × (is_member w'' g ≡ (not (group_eq (group_of s addr) g) && is_member w g)))
            ⊎ ((leaves os s addr w ≡ false) × IsFailure t))
  membership_lem addr w g = (join_lem addr w g, leave_lem addr w g)
