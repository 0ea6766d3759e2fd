-- ===== src/Wifi/Diag.antt =====
-- wifi.rs, `EspMatterWifiCtl` as `WifiDiag`. `none` is the null of Matter.
use esp_idf_matter.Base.{ℕ, Bool, Option, some, List, if◌then◌else◌, Exec, Result, ok, err, panic}
use esp_idf_matter.Error.{EspError, ErrorCode}
use esp_idf_matter.Wifi.{AuthMethod, AccessPointInfo}

pub data PhyMode : Type 0 where
  b g a ht20 ht40 vht20 he20 low_rate : PhyMode

pub data SecurityTypeEnum : Type 0 where
  unspecified none wep wpa wpa2 wpa3 : SecurityTypeEnum

pub data WifiVersionEnum : Type 0 where
  a b g n ac ax : WifiVersionEnum

-- What the diagnostics read: whether the driver can be locked at once, and its two reads.
pub record WifiReads : Type 0 where
  pub is_free : Bool
  pub get_ap_info : Result EspError AccessPointInfo
  pub get_negotiated_phy_mode : Result EspError PhyMode

abbrev read_ok : {A : Type 0} → Result EspError A → Option A
read_ok (ok x) = some x
read_ok (err e) = Option.none
read_ok panic = Option.none

abbrev map_option : {A B : Type 0} → (A → B) → Option A → Option B
map_option f Option.none = Option.none
map_option f (some x) = some (f x)

unfoldable pub security_type_of : Option AuthMethod → SecurityTypeEnum
security_type_of (some AuthMethod.none) = SecurityTypeEnum.none
security_type_of (some AuthMethod.wep) = SecurityTypeEnum.wep
security_type_of (some AuthMethod.wpa) = SecurityTypeEnum.wpa
security_type_of (some AuthMethod.wpa2_personal) = SecurityTypeEnum.wpa2
security_type_of (some AuthMethod.wpa3_personal) = SecurityTypeEnum.wpa3
security_type_of _ = SecurityTypeEnum.unspecified

unfoldable pub version_of : PhyMode → Option WifiVersionEnum
version_of PhyMode.b = some WifiVersionEnum.b
version_of PhyMode.g = some WifiVersionEnum.g
version_of PhyMode.a = some WifiVersionEnum.a
version_of PhyMode.ht20 = some WifiVersionEnum.n
version_of PhyMode.ht40 = some WifiVersionEnum.n
version_of PhyMode.vht20 = some WifiVersionEnum.ac
version_of PhyMode.he20 = some WifiVersionEnum.ax
version_of PhyMode.low_rate = Option.none

unfoldable version_read : Option PhyMode → Option WifiVersionEnum
unfolding version_of
version_read Option.none = Option.none
version_read (some mode) = version_of mode

module _ (esp : WifiReads) where
  unfoldable pub ap_info : Option AccessPointInfo
  ap_info = if esp.is_free then read_ok esp.get_ap_info else Option.none

  unfoldable pub bssid :
      {V : Type 0} → (Option (List ℕ) → Exec ErrorCode V (Unit {0})) → Exec ErrorCode V (Unit {0})
  unfolding ap_info
  bssid f = f (map_option (λ ap. ap.bssid) ap_info)

  unfoldable pub security_type : Option SecurityTypeEnum
  unfolding ap_info security_type_of
  security_type = map_option (λ ap. security_type_of ap.auth_method) ap_info

  unfoldable pub wi_fi_version : Option WifiVersionEnum
  unfolding version_read
  wi_fi_version =
      if esp.is_free then version_read (read_ok esp.get_negotiated_phy_mode) else Option.none

  unfoldable pub channel_number : Option ℕ
  unfolding ap_info
  channel_number = map_option (λ ap. ap.channel) ap_info

  unfoldable pub rssi : Option ℕ
  unfolding ap_info
  rssi = map_option (λ ap. ap.signal_strength) ap_info
