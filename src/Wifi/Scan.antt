-- ===== src/Wifi/Scan.antt =====
-- wifi.rs, `EspMatterWifiCtl::scan`.
use esp_idf_matter.Base.{
  ℕ, bit_or, Bool, true, Option, none, some, List, [], ◌∷◌, bytes_eq, if◌then◌else◌, Exec, Result,
  ok, err, panic, pure, map_err, ◌>>◌,
}
use esp_idf_matter.Error.{ErrorCode, NetCtlError, other}
use esp_idf_matter.Wifi.{AuthMethod, AccessPointInfo, EspWifi, net, ensure_started}

-- The flags of `WiFiSecurityBitmap` of `rs-matter`.
pub record SecurityFlags : Type 0 where
  pub unencrypted : ℕ
  pub wep : ℕ
  pub wpa_personal : ℕ
  pub wpa_2_personal : ℕ
  pub wpa_3_personal : ℕ

pub data WifiBandEnum : Type 0 where
  v2g4 : WifiBandEnum

-- `NetworkScanInfo::Wifi`.
pub record WifiScanInfo : Type 0 where
  pub security : ℕ
  pub ssid : List ℕ
  pub bssid : List ℕ
  pub channel : ℕ
  pub band : WifiBandEnum
  pub rssi : ℕ

unfoldable pub security_of : SecurityFlags → Option AuthMethod → ℕ
security_of flags (some AuthMethod.none) = flags.unencrypted
security_of flags (some AuthMethod.wep) = flags.wep
security_of flags (some AuthMethod.wpa) = flags.wpa_personal
security_of flags (some AuthMethod.wpa2_personal) = flags.wpa_2_personal
security_of flags (some AuthMethod.wpawpa2_personal) =
    bit_or flags.wpa_personal flags.wpa_2_personal
security_of flags (some AuthMethod.wpa3_personal) = flags.wpa_3_personal
security_of flags (some AuthMethod.wpa2wpa3_personal) =
    bit_or flags.wpa_2_personal flags.wpa_3_personal
security_of flags (some (AuthMethod.other n)) = 0
security_of flags none = 0

unfoldable pub scan_info : SecurityFlags → AccessPointInfo → WifiScanInfo
unfolding security_of
scan_info flags ap = record {
  security = security_of flags ap.auth_method;
  ssid = ap.ssid;
  bssid = ap.bssid;
  channel = ap.channel;
  band = v2g4;
  rssi = ap.signal_strength;
}

abbrev pub is_asked : Option (List ℕ) → AccessPointInfo → Bool
is_asked none ap = true
is_asked (some network) ap = bytes_eq ap.ssid network

module _ {V : Type 0} (flags : SecurityFlags) (f : WifiScanInfo → Exec ErrorCode V (Unit {0})) where
  -- The loop over the access points.
  unfoldable pub report : Option (List ℕ) → List AccessPointInfo → Exec ErrorCode V (Unit {0})
  unfolding scan_info
  report network [] = pure tt
  report network (ap ∷ aps) =
      if is_asked network ap
      then f (scan_info flags ap) >> report network aps
      else report network aps

module _ {W V : Type 0} (esp : EspWifi W) (flags : SecurityFlags)
    (f : WifiScanInfo → Exec ErrorCode V (Unit {0})) where
  unfoldable pub report_found :
      Option (List ℕ)
      → V
      → Result NetCtlError (List AccessPointInfo)
      → W
      → Result NetCtlError (Unit {0}) × (V × W)
  unfolding report
  report_found network v (ok aps) w =
      let (r, v') = report flags f network aps v in (map_err other r, (v', w))
  report_found network v (err e) w = (err e, (v, w))
  report_found network v panic w = (panic, (v, w))

  unfoldable pub scan : Option (List ℕ) → V → W → Result NetCtlError (Unit {0}) × (V × W)
  unfolding report_found ensure_started
  scan network v w =
      let (r, w') = (ensure_started esp >> net esp.scan) w in report_found network v r w'
