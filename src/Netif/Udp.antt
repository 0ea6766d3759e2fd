-- ===== src/Netif/Udp.antt =====
-- src/netif/udp.rs: the UDP sockets of the stack. The sockets of the standard library, lwIP and the
-- conversion of their errors are parameters.
pub mod Groups
use esp_idf_matter.Base.{
  ℕ, ◌+◌, ◌*◌, ◌/◌, ◌%◌, ◌<◌, ◌^◌, Bool, true, Option, none, some, List, [], ◌∷◌, Exec, ok, err,
  map_err, raise, ◌>>=◌, ◌>>◌, ◌≡◌, if◌then◌else◌, arith,
}
use esp_idf_matter.Error.{ErrorCode}
use esp_idf_matter.Netif.Addr.{Ipv6Addr, to_le_bytes}

-- `IpAddr`; an IPv4 address is its 32-bit value.
pub data IpAddr : Type 0 where
  v4 : ℕ → IpAddr
  v6 : Ipv6Addr → IpAddr

pub record SocketAddr : Type 0 where
  pub ip : IpAddr
  pub port : ℕ

-- `Address` of `rs-matter`; `other` stands for the transports that are not UDP.
pub data Address : Type 0 where
  udp : SocketAddr → Address
  other : ℕ → Address

-- `ip_mreq`, with its two `s_addr`.
pub record IpMreq : Type 0 where
  pub imr_multiaddr : ℕ
  pub imr_interface : ℕ

-- The surroundings, with `E` for `io::Error` and `F` for the sockets.
pub record Sockets (E : Type 0) (F : Type 0) (W : Type 0) : Type 0 where
  pub from_io : E → ErrorCode
  pub bind : SocketAddr → Exec E W F
  pub set_broadcast : F → Bool → Exec E W (Unit {0})
  -- `lwip_setsockopt` of an option of IPPROTO_IP, and whether it returns -1.
  pub lwip_setsockopt : F → ℕ → IpMreq → W → Bool × W
  pub last_os_error : W → E
  pub send_to : F → List ℕ → SocketAddr → Exec E W ℕ
  pub readable : F → Exec E W (Unit {0})
  -- Into a buffer of that length: the bytes and who sent them.
  pub recv_from : F → ℕ → Exec E W (List ℕ × SocketAddr)
  pub join_multicast_v6 : F → Ipv6Addr → ℕ → Exec E W (Unit {0})
  pub leave_multicast_v6 : F → Ipv6Addr → ℕ → Exec E W (Unit {0})
  pub ip_add_membership : ℕ
  pub ip_drop_membership : ℕ

pub record EspMatterNetSocket (F : Type 0) : Type 0 where
  pub socket : F
  pub ipv4_interface : ℕ
  pub ipv6_interface : ℕ

-- `Ipv4Addr::octets`.
unfoldable pub octets : ℕ → List ℕ
octets a = (a / 16777216 % 256) ∷ (a / 65536 % 256) ∷ (a / 256 % 256) ∷ (a % 256) ∷ []

-- `u32::from_ne_bytes`; the chips are little-endian.
unfoldable pub from_ne_bytes : List ℕ → ℕ
from_ne_bytes [] = 0
from_ne_bytes (b ∷ rest) = b + 256 * from_ne_bytes rest

unfoldable pub udp_of : Address → Option SocketAddr
udp_of (Address.udp addr) = some addr
udp_of (Address.other n) = none

unfoldable pub mreq : {F : Type 0} → EspMatterNetSocket F → ℕ → IpMreq
unfolding octets from_ne_bytes
mreq s addr = record {
  imr_multiaddr = from_ne_bytes (octets addr);
  imr_interface = from_ne_bytes (octets s.ipv4_interface);
}

module _ {E F W : Type 0} (os : Sockets E F W) where
  -- `?` on an error of the standard library.
  abbrev pub io : {A : Type 0} → Exec E W A → Exec ErrorCode W A
  io m w = let (r, w') = m w in (map_err os.from_io r, w')

  unfoldable pub bind : SocketAddr → ℕ → ℕ → Exec ErrorCode W (EspMatterNetSocket F)
  bind addr ipv4_interface ipv6_interface = do
    socket ← io (os.bind addr)
    io (os.set_broadcast socket true)
    λ w. (
      ok (record {
        socket = socket;
        ipv4_interface = ipv4_interface;
        ipv6_interface = ipv6_interface;
      }),
      w,
    )

  unfoldable pub set_ipv4_membership : EspMatterNetSocket F → ℕ → ℕ → Exec E W (Unit {0})
  unfolding mreq
  set_ipv4_membership s option addr w =
      let (failed, w') = os.lwip_setsockopt s.socket option (mreq s addr) w in
      (if failed then err (os.last_os_error w') else ok tt, w')

  unfoldable pub sent_to :
      Option SocketAddr → EspMatterNetSocket F → List ℕ → Exec ErrorCode W (Unit {0})
  sent_to none s bytes = raise ErrorCode.no_network_interface
  sent_to (some addr) s bytes = io (os.send_to s.socket bytes addr) >> λ w. (ok tt, w)

  unfoldable pub send_to : EspMatterNetSocket F → List ℕ → Address → Exec ErrorCode W (Unit {0})
  unfolding udp_of sent_to
  send_to s bytes addr = sent_to (udp_of addr) s bytes

  unfoldable pub wait_available : EspMatterNetSocket F → Exec ErrorCode W (Unit {0})
  wait_available s = io (os.readable s.socket)

  unfoldable pub recv_from : EspMatterNetSocket F → ℕ → Exec ErrorCode W (List ℕ × Address)
  recv_from s len = io (os.recv_from s.socket len) >>= λ x. λ w. (ok (x.0, Address.udp x.1), w)

  unfoldable pub join : EspMatterNetSocket F → IpAddr → Exec ErrorCode W (Unit {0})
  unfolding set_ipv4_membership
  join s (v6 addr) = io (os.join_multicast_v6 s.socket addr s.ipv6_interface)
  join s (v4 addr) = io (set_ipv4_membership s os.ip_add_membership addr)

  unfoldable pub leave_group : EspMatterNetSocket F → IpAddr → Exec ErrorCode W (Unit {0})
  unfolding set_ipv4_membership
  leave_group s (v6 addr) = io (os.leave_multicast_v6 s.socket addr s.ipv6_interface)
  leave_group s (v4 addr) = io (set_ipv4_membership s os.ip_drop_membership addr)
