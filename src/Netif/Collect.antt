-- ===== src/Netif/Collect.antt =====
-- The list of IPv6 addresses that `get_netif_conf` of netif.rs collects.
use esp_idf_matter.Base.{
  ℕ, suc, ◌+◌, ◌≤◌, true, false, ◌||◌, List, [], ◌∷◌, ◌++◌, ◌≡◌, refl, ap, sym, inl, inr, length,
  length-append, take, replicate, map, length-map, length-take, bytes_eq, bytes_eq_refl,
  bytes_eq→eq, if◌then◌else◌, Bool-cases, Result, ok, arith,
}
use mathlib.Core.List.{append-nil, append_assoc}
use esp_idf_matter.Error.{EspError}
use esp_idf_matter.Netif.Addr.{Ipv6Addr, esp_ip6_to_addr, contains, push_preferred, push_others}
use esp_idf_matter.Netif.Conf.{EspNetif, first_of_raw, collect_ipv6}

-- Every address occurs once.
abbrev pub IsDistinct : List Ipv6Addr → Type 0
IsDistinct [] = Unit
IsDistinct (a ∷ rest) = (contains a rest ≡ false) × IsDistinct rest

abbrev pub Subset : List Ipv6Addr → List Ipv6Addr → Type 0
Subset xs ys = (a : Ipv6Addr) → contains a xs ≡ true → contains a ys ≡ true

contains-append :
    (a : Ipv6Addr) (xs ys : List Ipv6Addr)
    → contains a (xs ++ ys) ≡ (contains a xs || contains a ys)
contains-append a [] ys = refl
contains-append a (x ∷ xs) ys = ground (arith, contains-append a xs ys)

bytes_eq_comm : (a b : Ipv6Addr) → bytes_eq a b ≡ bytes_eq b a
bytes_eq_comm [] [] = refl
bytes_eq_comm [] (y ∷ b) = refl
bytes_eq_comm (x ∷ a) [] = refl
bytes_eq_comm (x ∷ a) (y ∷ b) = ground (arith, bytes_eq_comm a b)

-- Without the first occurrence.
erase : Ipv6Addr → List Ipv6Addr → List Ipv6Addr
erase a [] = []
erase a (b ∷ rest) = if bytes_eq a b then rest else b ∷ erase a rest

length-erase :
    (a : Ipv6Addr) (xs : List Ipv6Addr)
    → contains a xs ≡ true
    → length xs ≡ suc (length (erase a xs))
unfolding erase
length-erase a [] h = ground arith
length-erase a (b ∷ xs) h = ground (arith, length-erase a xs)

contains-erase_ne :
    (a b : Ipv6Addr) (xs : List Ipv6Addr)
    → bytes_eq a b ≡ false
    → contains b xs ≡ true
    → contains b (erase a xs) ≡ true
unfolding erase
contains-erase_ne a b [] h k = ground arith
contains-erase_ne a b (x ∷ xs) h k =
    ground (arith, contains-erase_ne a b xs h, bytes_eq→eq b x, bytes_eq→eq a x)

-- Distinct addresses that all stand in a list are no more than its entries.
length-le_of_Subset : (xs ys : List Ipv6Addr) → IsDistinct xs → Subset xs ys → length xs ≤ length ys
length-le_of_Subset [] ys d s = omega arith
length-le_of_Subset (x ∷ xs) ys d s = omega (
  arith,
  length-erase x ys (s x (ground (arith, bytes_eq_refl x))),
  length-le_of_Subset xs (erase x ys) d.1 within,
)
  where
    within : Subset xs (erase x ys)
    within b h = contains-erase_ne x b ys (ground (arith, bytes_eq→eq x b)) (s b (ground arith))

IsDistinct-snoc :
    (xs : List Ipv6Addr) (a : Ipv6Addr)
    → IsDistinct xs
    → contains a xs ≡ false
    → IsDistinct (xs ++ a ∷ [])
IsDistinct-snoc [] a d h = (refl, tt)
IsDistinct-snoc (x ∷ xs) a d h = (
  ground (arith, contains-append x xs (a ∷ []), bytes_eq_comm x a),
  IsDistinct-snoc xs a d.1 (ground arith),
)

push_preferred-ok :
    {E : Type 0} (capacity : ℕ) (addrs rest : List Ipv6Addr)
    → length addrs + length rest ≤ capacity
    → push_preferred {E = E} capacity addrs rest ≡ ok (addrs ++ rest)
unfolding push_preferred
push_preferred-ok {E} capacity addrs [] h = rw append-nil
push_preferred-ok {E} capacity addrs (a ∷ rest) h = ground (
  arith,
  push_preferred-ok {E = E} capacity (addrs ++ a ∷ []) rest,
  append_assoc addrs (a ∷ []) rest,
  length-append addrs (a ∷ []),
)

-- What the second loop adds to a list.
abbrev pub Collected :
    {E : Type 0} → List Ipv6Addr → List Ipv6Addr → Result E (List Ipv6Addr) → Type 0
Collected {E} addrs rest r =
    (added : List Ipv6Addr) × (r ≡ ok (addrs ++ added))
    × IsDistinct (addrs ++ added)
    × ((a : Ipv6Addr) → contains a (addrs ++ added) ≡ (contains a addrs || contains a rest))

Subset-snoc :
    (addrs total : List Ipv6Addr) (a : Ipv6Addr)
    → Subset addrs total
    → contains a total ≡ true
    → Subset (addrs ++ a ∷ []) total
Subset-snoc addrs total a sa ha b h =
    ground (arith, contains-append b addrs (a ∷ []), bytes_eq→eq b a, sa b)

contains_eq :
    (a b : Ipv6Addr) (xs : List Ipv6Addr) → bytes_eq a b ≡ true → contains a xs ≡ contains b xs
contains_eq a b xs h = ap (λ c. contains c xs) (bytes_eq→eq a b h)

-- An address that is there already adds nothing.
Collected-kept :
    {E : Type 0} (addrs rest : List Ipv6Addr) (a : Ipv6Addr) (r s : Result E (List Ipv6Addr))
    → contains a addrs ≡ true
    → s ≡ r
    → Collected addrs rest r
    → Collected addrs (a ∷ rest) s
Collected-kept addrs rest a r s old e (added, er, d, m) =
    (added, ground arith, d, λ b. ground (arith, m b, contains_eq b a addrs))

-- A new address is added behind the others.
Collected-pushed :
    {E : Type 0} (addrs rest : List Ipv6Addr) (a : Ipv6Addr) (r s : Result E (List Ipv6Addr))
    → s ≡ r
    → Collected (addrs ++ a ∷ []) rest r
    → Collected addrs (a ∷ rest) s
Collected-pushed addrs rest a r s e (added, er, d, m) = (
  a ∷ added,
  ground (arith, append_assoc addrs (a ∷ []) added),
  rw (sym (append_assoc addrs (a ∷ []) added)) d,
  λ b. ground (arith, m b, contains-append b addrs (a ∷ []), append_assoc addrs (a ∷ []) added),
)

push_others-Collected :
    {E : Type 0} (capacity : ℕ) (total addrs rest : List Ipv6Addr)
    → length total ≤ capacity
    → IsDistinct addrs
    → Subset addrs total
    → Subset rest total
    → Collected addrs rest (push_others {E = E} capacity addrs rest)
unfolding push_others
push_others-Collected {E} capacity total addrs [] fits d sa sr =
    ([], rw append-nil, rw append-nil d, λ b. ground (arith, append-nil addrs))
push_others-Collected {E} capacity total addrs (a ∷ rest) fits d sa sr =
    elim (Bool-cases (contains a addrs))
      as (λ _. Collected addrs (a ∷ rest) (push_others {E = E} capacity addrs (a ∷ rest))) [
        | inl old ↦
            Collected-kept addrs rest a (push_others capacity addrs rest) _ old (ground arith) (
              push_others-Collected {E = E} capacity total addrs rest fits d sa
                (λ b h. sr b (ground arith)))
        | inr new ↦
            let ds = IsDistinct-snoc addrs a d new in
            let ss = Subset-snoc addrs total a sa (sr a (ground (arith, bytes_eq_refl a))) in
            Collected-pushed addrs rest a (push_others capacity (addrs ++ a ∷ []) rest) _
              (ground (
                arith,
                length-append addrs (a ∷ []),
                length-le_of_Subset (addrs ++ a ∷ []) total ds ss,
              ))
              (push_others-Collected {E = E} capacity total (addrs ++ a ∷ []) rest fits ds ss
                (λ b h. sr b (ground arith)))
      ]

-- The call, once what the interface gives is known.
collect_ipv6-ok :
    {W : Type 0} (netif : EspNetif W) (count count' : ℕ) (raw raw' : List (List ℕ)) (w w' w'' : W)
    (out : List Ipv6Addr)
    → netif.get_all_preferred_ip6 (replicate netif.lwip_ipv6_num_addresses (0 ∷ 0 ∷ 0 ∷ 0 ∷ [])) w
      ≡ (count, (raw, w'))
    → netif.get_all_ip6 raw w' ≡ (count', (raw', w''))
    → count ≤ length raw
    → count' ≤ length raw'
    → length (map esp_ip6_to_addr (take count raw)) ≤ netif.lwip_ipv6_num_addresses
    → push_others {E = EspError} netif.lwip_ipv6_num_addresses
        (map esp_ip6_to_addr (take count raw))
        (map esp_ip6_to_addr (take count' raw'))
      ≡ ok out
    → (collect_ipv6 netif w).0 ≡ ok out
unfolding collect_ipv6 first_of_raw
collect_ipv6-ok netif count count' raw raw' w w' w'' out e e' h h' fits r = ground (
  arith,
  push_preferred-ok {E = EspError} netif.lwip_ipv6_num_addresses []
      (map esp_ip6_to_addr (take count raw)) (omega arith),
)

-- With room for all addresses, none twice among the preferred ones, and the preferred ones among
-- all of them, no push panics: the list is the preferred addresses in their order, then others; no
-- address occurs twice; and it holds exactly the addresses of the interface.
pub collect_ipv6-Collected :
    {W : Type 0} (netif : EspNetif W) (count count' : ℕ) (raw raw' : List (List ℕ)) (w w' w'' : W)
    → netif.get_all_preferred_ip6 (replicate netif.lwip_ipv6_num_addresses (0 ∷ 0 ∷ 0 ∷ 0 ∷ [])) w
      ≡ (count, (raw, w'))
    → netif.get_all_ip6 raw w' ≡ (count', (raw', w''))
    → count ≤ length raw
    → count' ≤ length raw'
    → count' ≤ netif.lwip_ipv6_num_addresses
    → IsDistinct (map esp_ip6_to_addr (take count raw))
    → Subset (map esp_ip6_to_addr (take count raw)) (map esp_ip6_to_addr (take count' raw'))
    → Collected
        (map esp_ip6_to_addr (take count raw))
        (map esp_ip6_to_addr (take count' raw'))
        (collect_ipv6 netif w).0
unfolding collect_ipv6 first_of_raw
collect_ipv6-Collected netif count count' raw raw' w w' w'' e e' h h' fits d s =
    let preferred = map esp_ip6_to_addr (take count raw) in
    let all = map esp_ip6_to_addr (take count' raw') in
    let bound : length all ≤ netif.lwip_ipv6_num_addresses =
      omega (arith, length-map (take count' raw') esp_ip6_to_addr, length-take count' raw') in
    let (added, r, d', m) =
      push_others-Collected {E = EspError} netif.lwip_ipv6_num_addresses all preferred all bound d s
        (λ a k. k) in
    (
      added,
      collect_ipv6-ok netif count count' raw raw' w w' w'' (preferred ++ added) e e' h h'
          (omega (arith, length-le_of_Subset preferred all d s)) r,
      d',
      m,
    )
