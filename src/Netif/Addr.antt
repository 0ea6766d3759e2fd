-- ===== src/Netif/Addr.antt =====
-- netif.rs, `utils`: addresses. An IPv4 address is its 32-bit value, an IPv6 address its 16 octets;
-- `is_unspecified` and `is_unicast_link_local` are those of `core::net`.
use esp_idf_matter.Base.{
  ℕ, ◌/◌, ◌%◌, Bool, true, false, ◌&&◌, Option, none, some, List, [], ◌∷◌, ◌++◌, length, ltb, ◌==◌,
  bytes_eq, if◌then◌else◌, Result, ok, panic,
}

abbrev pub Ipv6Addr : Type 0
Ipv6Addr = List ℕ

abbrev pub ipv4_unspecified : ℕ
ipv4_unspecified = 0

abbrev pub ipv6_unspecified : Ipv6Addr
ipv6_unspecified = 0 ∷ 0 ∷ 0 ∷ 0 ∷ 0 ∷ 0 ∷ 0 ∷ 0 ∷ 0 ∷ 0 ∷ 0 ∷ 0 ∷ 0 ∷ 0 ∷ 0 ∷ 0 ∷ []

-- fe80::/10.
unfoldable pub is_unicast_link_local : Ipv6Addr → Bool
is_unicast_link_local (a ∷ b ∷ rest) = (a == 0xfe) && (b / 64 == 2)
is_unicast_link_local _ = false

-- `u32::to_le_bytes`.
unfoldable pub to_le_bytes : ℕ → List ℕ
to_le_bytes word =
    (word % 256) ∷ (word / 256 % 256) ∷ (word / 65536 % 256) ∷ (word / 16777216 % 256) ∷ []

-- A raw address is its four words.
unfoldable pub esp_ip6_to_addr : List ℕ → Ipv6Addr
unfolding to_le_bytes
esp_ip6_to_addr [] = []
esp_ip6_to_addr (word ∷ rest) = to_le_bytes word ++ esp_ip6_to_addr rest

-- `slice::contains`.
abbrev pub contains : Ipv6Addr → List Ipv6Addr → Bool
contains a [] = false
contains a (b ∷ rest) = if bytes_eq a b then true else contains a rest

-- `iter().find`.
abbrev pub find : (Ipv6Addr → Bool) → List Ipv6Addr → Option Ipv6Addr
find test [] = none
find test (a ∷ rest) = if test a then some a else find test rest

abbrev pub or_else : Option Ipv6Addr → Option Ipv6Addr → Option Ipv6Addr
or_else none b = b
or_else (some a) b = some a

module _ {E : Type 0} (capacity : ℕ) where
  -- The pushes of the preferred addresses; a full `Vec` makes `unwrap` panic.
  unfoldable pub push_preferred : List Ipv6Addr → List Ipv6Addr → Result E (List Ipv6Addr)
  push_preferred addrs [] = ok addrs
  push_preferred addrs (a ∷ rest) =
      let pushed = push_preferred (addrs ++ a ∷ []) rest in
      if ltb (length addrs) capacity then pushed else panic

  -- The pushes of those of all addresses that are not there yet.
  unfoldable pub push_others : List Ipv6Addr → List Ipv6Addr → Result E (List Ipv6Addr)
  push_others addrs [] = ok addrs
  push_others addrs (a ∷ rest) =
      let kept = push_others addrs rest in
      let pushed = push_others (addrs ++ a ∷ []) rest in
      if contains a addrs then kept else if ltb (length addrs) capacity then pushed else panic
