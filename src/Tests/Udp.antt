-- ===== src/Tests/Udp.antt =====
-- A UDP socket of udp.rs over a world that is the set of the groups it is a member of.
use esp_idf_matter.Base.{
  ℕ, Bool, true, false, not, ◌&&◌, ◌||◌, [], ok, ◌≡◌, ◌⊎◌, refl, IsFailure, ◌==◌, if◌then◌else◌,
}
use esp_idf_matter.Error.{ErrorCode}
use esp_idf_matter.Netif.Udp.{v4, Sockets, EspMatterNetSocket, join, leave_group}
use esp_idf_matter.Netif.Udp.Groups.{
  Group, on_ipv6, group_eq, lwip_group, group_of, joins, leaves, membership_lem,
}

abbrev Groups : Type 0
Groups = Group → Bool

abbrev add : Group → Groups → Groups
add g w h = group_eq g h || w h

abbrev drop_group : Group → Groups → Groups
drop_group g w h = not (group_eq g h) && w h

abbrev sockets : Sockets ℕ ℕ (Groups)
sockets = record {
  from_io = λ e. ErrorCode.std_io_error;
  bind = λ addr w. (ok 3, w);
  set_broadcast = λ f on w. (ok tt, w);
  lwip_setsockopt = λ f option m w.
      (false, if option == 3 then add (lwip_group m) w else drop_group (lwip_group m) w);
  last_os_error = λ w. 22;
  send_to = λ f bytes addr w. (ok 0, w);
  readable = λ f w. (ok tt, w);
  recv_from = λ f len w. (ok ([], record { ip = v4 0; port = 5540 }), w);
  join_multicast_v6 = λ f a i w. (ok tt, add (on_ipv6 a i) w);
  leave_multicast_v6 = λ f a i w. (ok tt, drop_group (on_ipv6 a i) w);
  ip_add_membership = 3;
  ip_drop_membership = 4;
}

abbrev socket : EspMatterNetSocket ℕ
socket = record { socket = 3; ipv4_interface = 0x0a000001; ipv6_interface = 2 }

abbrev mdns : ℕ
mdns = 0xe00000fb

abbrev no_groups : Groups
no_groups g = false

membership_lem_example :
    let (r, w') = join sockets socket (v4 mdns) no_groups in
    let (t, w'') = leave_group sockets socket (v4 mdns) no_groups in
    let g = group_of socket (v4 mdns) in
    (((joins sockets socket (v4 mdns) no_groups ≡ true)
        × (r ≡ ok tt)
        × (w' g ≡ (group_eq g g || false)))
      ⊎ ((joins sockets socket (v4 mdns) no_groups ≡ false) × IsFailure r))
    × (((leaves sockets socket (v4 mdns) no_groups ≡ true)
          × (t ≡ ok tt)
          × (w'' g ≡ (not (group_eq g g) && false)))
        ⊎ ((leaves sockets socket (v4 mdns) no_groups ≡ false) × IsFailure t))
membership_lem_example =
    membership_lem sockets socket (λ w. w) (λ m w g h. refl) (λ m w g h. refl) (λ a i w g h. refl)
      (λ a i w g h. refl) (v4 mdns) no_groups (group_of socket (v4 mdns))
