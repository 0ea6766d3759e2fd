-- ===== src/Thread/Srp/Host/Named.antt =====
-- What `run` of thread.rs has done when it comes to the services: the host name read back, and the
-- clean slate in the SRP client.
use esp_idf_matter.Base.{
  ℕ, ◌+◌, ◌-◌, ◌*◌, ◌/◌, ◌%◌, ◌≤◌, ◌<◌, ◌&&◌, Bool, true, false, Option, none, some, List, [], ◌∷◌,
  length, leb, All, ◌≡◌, refl, ◌⊎◌, if◌then◌else◌, ok, is_ok, arith,
}
use esp_idf_matter.Error.{ErrorCode}
use esp_idf_matter.Thread.Srp.{SrpState}
use esp_idf_matter.Thread.Srp.Client.{Client}
use esp_idf_matter.Thread.Srp.Host.{
  Host, hex_digit_upper, hex_bytes, hostname, host_eui, start_host,
}

-- The value of a character: `0` to `9` and `A` to `F`.
unfoldable digit_value : ℕ → Option ℕ
digit_value c =
    if leb 48 c && leb c 57
    then some (c - 48)
    else if leb 65 c && leb c 70
    then some (c - 65 + 10)
    else none

-- A byte of two digits, the high one first, before those read.
unfoldable read_byte : Option ℕ → Option ℕ → Option (List ℕ) → Option (List ℕ)
read_byte (some high) (some low) (some rest) = some ((high * 16 + low) ∷ rest)
read_byte _ _ _ = none

unfoldable pub read_hex : List ℕ → Option (List ℕ)
unfolding digit_value read_byte
read_hex [] = some []
read_hex (c ∷ []) = none
read_hex (c ∷ d ∷ rest) = read_byte (digit_value c) (digit_value d) (read_hex rest)

length-hex_bytes : (bytes : List ℕ) → length (hex_bytes bytes) ≡ length bytes + length bytes
unfolding hex_bytes
length-hex_bytes [] = omega arith
length-hex_bytes (b ∷ rest) = omega (arith, length-hex_bytes rest)

hostname-ok :
    {E : Type 0} (eui64 : List ℕ) → length eui64 ≤ 8 → hostname {E = E} eui64 ≡ ok (hex_bytes eui64)
unfolding hostname
hostname-ok eui64 k = ground (arith, length-hex_bytes eui64)

digit_value-hex_digit_upper : (d : ℕ) → d < 16 → digit_value (hex_digit_upper d) ≡ some d
unfolding digit_value hex_digit_upper
digit_value-hex_digit_upper d h = ground arith

read_hex-hex_bytes :
    (bytes : List ℕ) → All (λ b. b < 256) bytes → read_hex (hex_bytes bytes) ≡ some bytes
unfolding read_hex hex_bytes read_byte
read_hex-hex_bytes [] h = refl
read_hex-hex_bytes (b ∷ rest) (h, k) = ground (
  arith,
  digit_value-hex_digit_upper (b / 16 % 16),
  digit_value-hex_digit_upper (b % 16),
  read_hex-hex_bytes rest k,
)

module _ {W : Type 0} (h : Host W) where
  -- Whether the client does what it is asked to.
  abbrev pub is_taken : List ℕ → W → Bool
  is_taken name w =
      is_ok (h.srp_remove_all true w).0 && is_ok (h.srp_set_conf name (h.srp_remove_all true w).1).0

module _ {S W : Type 0} (h : Host W) (view : W → Client) (name_of : W → List ℕ)
    (clears : (w : W)
      → (h.srp_remove_all true w).0 ≡ ok tt
      → (view (h.srp_remove_all true w).1).active ≡ [])
    (names_host : (name : List ℕ) (w : W)
      → (h.srp_set_conf name w).0 ≡ ok tt
      → (view (h.srp_set_conf name w).1 ≡ view w)
        × (name_of (h.srp_set_conf name w).1 ≡ name)) where
  -- For a given address of 8 bytes, whatever was registered before: there is a name of 16 characters
  -- that reads, as upper-case hexadecimal digits, as the address, such that if the client takes its
  -- calls with that name, then the start succeeds, no service is registered afterwards, neither here
  -- nor in the client, and the host has that name; and if it does not, then the start fails.
  pub start_host_lem :
      (eui64 : List ℕ) (s : SrpState S W)
      → length eui64 ≡ 8
      → All (λ b. b < 256) eui64
      → (name : List ℕ) × (length name ≡ 16)
        × (read_hex name ≡ some eui64)
        × (let (r, s') = start_host {S = S} h (some eui64) s in
            ((is_taken h name s.world ≡ true)
              × (r ≡ ok tt)
              × (s'.services ≡ [])
              × ((view s'.world).active ≡ [])
              × (name_of s'.world ≡ name))
            ⊎ ((is_taken h name s.world ≡ false) × (is_ok r ≡ false)))
  unfolding start_host host_eui
  start_host_lem eui64 s k bytes = (
    hex_bytes eui64,
    ground (arith, length-hex_bytes eui64),
    read_hex-hex_bytes eui64 bytes,
    ground (
      arith,
      hostname-ok {E = ErrorCode} eui64,
      clears s.world,
      names_host (hex_bytes eui64) (h.srp_remove_all true s.world).1,
    ),
  )
