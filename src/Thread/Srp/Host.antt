-- ===== src/Thread/Srp/Host.antt =====
-- thread.rs, `EspMatterThreadSrp::run` up to the registration of the services: the host name and
-- the clean slate. The reading of the address and the SRP client are parameters.
pub mod Named
use esp_idf_matter.Base.{
  ℕ, ◌+◌, ◌/◌, ◌%◌, Bool, true, Option, none, some, List, [], ◌∷◌, length, ltb, leb, if◌then◌else◌,
  Exec, Result, ok, panic, pure, lift, modify, ◌>>=◌, ◌>>◌,
}
use esp_idf_matter.Error.{EspError, ErrorCode}
use esp_idf_matter.Thread.Srp.{SrpState, client}

pub record Host (W : Type 0) : Type 0 where
  -- `esp_read_mac` of the IEEE 802.15.4 address, 8 bytes.
  pub read_mac : Exec EspError W (List ℕ)
  pub srp_remove_all : Bool → Exec EspError W (Unit {0})
  -- The host name; the other settings are the default.
  pub srp_set_conf : List ℕ → Exec EspError W (Unit {0})

-- An upper-case hexadecimal digit.
unfoldable pub hex_digit_upper : ℕ → ℕ
hex_digit_upper d = if ltb d 10 then 48 + d else 55 + d

-- `{:02X}` of each byte.
unfoldable pub hex_bytes : List ℕ → List ℕ
unfolding hex_digit_upper
hex_bytes [] = []
hex_bytes (b ∷ rest) = hex_digit_upper (b / 16 % 16) ∷ hex_digit_upper (b % 16) ∷ hex_bytes rest

-- `write!` to a `String<16>`, unwrapped.
unfoldable pub hostname : {E : Type 0} → List ℕ → Result E (List ℕ)
hostname eui64 = if leb (length (hex_bytes eui64)) 16 then ok (hex_bytes eui64) else panic

module _ {S W : Type 0} (h : Host W) where
  unfoldable pub host_eui : Option (List ℕ) → Exec ErrorCode (SrpState S W) (List ℕ)
  host_eui (some eui64) = pure eui64
  host_eui none = client h.read_mac

  -- `run`, up to `run_register`.
  unfoldable pub start_host : Option (List ℕ) → Exec ErrorCode (SrpState S W) (Unit {0})
  unfolding host_eui hostname
  start_host host_eui64 = do
    eui64 ← host_eui host_eui64
    name ← lift (hostname eui64)
    client (h.srp_remove_all true)
    modify (λ s. record s { services = [] })
    client (h.srp_set_conf name)
