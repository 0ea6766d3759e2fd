-- ===== src/Eth.antt =====
-- src/eth.rs: the diagnostics of an Ethernet driver of esp-idf-svc, which is a parameter.
use esp_idf_matter.Base.{
  Bool, true, false, Option, none, some, if◌then◌else◌, Result, ok, err, panic, ◌≡◌, arith,
}
use esp_idf_matter.Error.{EspError, ErrorCode, to_net_error}

pub data Speed : Type 0 where
  mbps_10 mbps_100 mbps_1000 : Speed

pub data PhyRateEnum : Type 0 where
  rate_10m rate_100m rate_1g : PhyRateEnum

pub data Duplex : Type 0 where
  half full : Duplex

pub record EthDriver (W : Type 0) : Type 0 where
  pub is_started : W → Result EspError Bool
  pub is_connected : W → Result EspError Bool
  -- 1000 Mb/s from ESP-IDF 6.1 on.
  pub get_speed : W → Result EspError Speed
  pub get_duplex : W → Result EspError Duplex

unfoldable pub rate_of : Speed → PhyRateEnum
rate_of Speed.mbps_10 = PhyRateEnum.rate_10m
rate_of Speed.mbps_100 = PhyRateEnum.rate_100m
rate_of Speed.mbps_1000 = PhyRateEnum.rate_1g

unfoldable pub is_full : Duplex → Bool
is_full Duplex.half = false
is_full Duplex.full = true

-- `ok().map(f)`; the read does not panic.
abbrev pub ok_map : {E A B : Type 0} → (A → B) → Result E A → Result ErrorCode (Option B)
ok_map f (ok a) = ok (some (f a))
ok_map f (err e) = ok none
ok_map f panic = panic

-- Nothing where the test says no, and its error where it fails.
unfoldable pub if_so :
    {A : Type 0} → Result EspError Bool → Result ErrorCode (Option A) → Result ErrorCode (Option A)
unfolding to_net_error
if_so (ok b) r = if b then r else ok none
if_so (err e) r = err (to_net_error e)
if_so panic r = panic

module _ {W : Type 0} (d : EthDriver W) where
  unfoldable pub phy_rate : W → Result ErrorCode (Option PhyRateEnum)
  unfolding rate_of if_so
  phy_rate w = if_so (d.is_connected w) (ok_map rate_of (d.get_speed w))

  unfoldable pub full_duplex : W → Result ErrorCode (Option Bool)
  unfolding is_full if_so
  full_duplex w = if_so (d.is_connected w) (ok_map is_full (d.get_duplex w))

  unfoldable pub connected : Result EspError Bool → Result ErrorCode (Option Bool)
  unfolding to_net_error
  connected (ok b) = ok (some b)
  connected (err e) = err (to_net_error e)
  connected panic = panic

  unfoldable pub carrier_detect : W → Result ErrorCode (Option Bool)
  unfolding if_so connected
  carrier_detect w = if_so (d.is_started w) (connected (d.is_connected w))

  -- A driver that reports that there is no carrier reports neither a rate nor a mode.
  no_carrier :
      (w : W)
      → carrier_detect w ≡ ok (some false)
      → (phy_rate w ≡ ok none) × (full_duplex w ≡ ok none)
  unfolding carrier_detect phy_rate full_duplex
  no_carrier w h = ground arith
