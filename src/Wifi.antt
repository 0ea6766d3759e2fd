-- ===== src/Wifi.antt =====
-- wifi.rs, `EspMatterWifiCtl`: the Wifi network as Matter controls it. The driver of `esp-idf-svc`
-- and its network interface are parameters.
pub mod Connect
pub mod Scan
pub mod Diag
use esp_idf_matter.Base.{
  ℕ, Bool, true, false, not, List, [], ◌∷◌, Option, length, leb, ◌&&◌, if◌then◌else◌, Exec, Result,
  ok, err, panic, pure, raise, skip, lift, map_err, unwrap_or, ◌>>=◌, ◌>>◌,
}
use esp_idf_matter.Error.{
  EspError, NetCtlError, ip_bind_failed, other_connection_failure, invalid_data, constraint_error,
  to_net_ctl_error,
}
use esp_idf_matter.Netctl.{WirelessCreds}
use esp_idf_matter.Netctl.Flag
use esp_idf_matter.Netctl.Flag.{Ctl}
use esp_idf_matter.Netif.Info.{InterfaceTypeEnum, info_is_operational}
use esp_idf_matter.Netif.Conf.{EspNetif, get_netif_conf}

-- `AuthMethod` of `esp-idf-svc`; `other` stands for those that the code does not name.
pub data AuthMethod : Type 0 where
  none wep wpa wpa2_personal wpawpa2_personal wpa3_personal wpa2wpa3_personal : AuthMethod
  other : ℕ → AuthMethod

pub record ClientConfiguration : Type 0 where
  pub ssid : List ℕ
  pub password : List ℕ
  pub auth_method : AuthMethod

-- `AccessPointInfo`; an `i8` is its bit pattern.
pub record AccessPointInfo : Type 0 where
  pub ssid : List ℕ
  pub bssid : List ℕ
  pub channel : ℕ
  pub signal_strength : ℕ
  pub auth_method : Option AuthMethod

pub record EspWifi (W : Type 0) : Type 0 where
  pub netif : EspNetif W
  -- `core::str::from_utf8`, and the capacities of the strings of the configuration.
  pub is_utf8 : List ℕ → Bool
  pub max_ssid : ℕ
  pub max_password : ℕ
  pub is_connected : Exec EspError W Bool
  pub is_started : Exec EspError W Bool
  pub start : Exec EspError W (Unit {0})
  pub connect : Exec EspError W (Unit {0})
  pub disconnect : Exec EspError W (Unit {0})
  pub set_configuration : ClientConfiguration → Exec EspError W (Unit {0})
  pub scan : Exec EspError W (List AccessPointInfo)
  pub create_ip6_linklocal : Exec EspError W (Unit {0})
  -- Waits while the condition holds, for at most so many seconds.
  pub ip_wait_while : Exec EspError W Bool → ℕ → Exec EspError W (Unit {0})
  -- `netif::utils::wait_any_conf_change`, whose result is ignored.
  pub wait_any_conf_change : W → W

abbrev pub ip_wait_secs : ℕ
ip_wait_secs = 20

-- The methods in the order they are tried.
abbrev pub auth_methods : List AuthMethod
auth_methods =
    AuthMethod.wpa2_personal ∷ AuthMethod.wpa ∷ AuthMethod.wpa2wpa3_personal ∷ AuthMethod.wep ∷ []

module _ {W A : Type 0} where
  abbrev pub net : Exec EspError W A → Exec NetCtlError W A
  net m w = let (r, w') = m w in (map_err to_net_ctl_error r, w')

  abbrev pub ignore : Exec EspError W A → Exec NetCtlError W (Unit {0})
  ignore m w = (ok tt, (m w).1)

module _ {W : Type 0} (esp : EspWifi W) where
  unfoldable pub fetch_is_operational : Exec EspError W Bool
  fetch_is_operational = do
    l2_connected ← (λ w. let (r, w') = esp.is_connected w in (unwrap_or false r, w'))
    info ← get_netif_conf esp.netif InterfaceTypeEnum.wifi
    pure (info_is_operational l2_connected info)

  unfoldable pub ensure_started : Exec NetCtlError W (Unit {0})
  ensure_started = do started ← net esp.is_started; if started then skip else net esp.start

  -- The configuration with the credentials, where they are UTF-8 and fit.
  unfoldable pub configuration : List ℕ → List ℕ → Result NetCtlError ClientConfiguration
  configuration ssid pass =
      if esp.is_utf8 ssid
        && leb (length ssid) esp.max_ssid
        && esp.is_utf8 pass
        && leb (length pass) esp.max_password
      then ok (record { ssid = ssid; password = pass; auth_method = AuthMethod.none })
      else err (NetCtlError.other constraint_error)

  -- What comes before an attempt to connect.
  unfoldable pub prepare : ClientConfiguration → AuthMethod → Exec NetCtlError W (Unit {0})
  unfolding ensure_started
  prepare conf auth_method = do
    ignore esp.disconnect
    net (esp.set_configuration (record conf { auth_method = auth_method }))
    ensure_started

  -- What an attempt means for the loop: success ends it, a failure goes on to the next method.
  unfoldable pub after_attempt :
      Result EspError (Unit {0})
      → W
      → Result NetCtlError (Unit {0}) × W
      → Result NetCtlError (Unit {0}) × W
  after_attempt (ok x) w later = (ok tt, w)
  after_attempt (err e) w later = later
  after_attempt panic w later = (panic, w)

  -- A failed preparation ends the loop.
  unfoldable pub if_prepared :
      Result NetCtlError (Unit {0})
      → W
      → Result NetCtlError (Unit {0}) × W
      → Result NetCtlError (Unit {0}) × W
  if_prepared (ok x) w tried = tried
  if_prepared (err e) w tried = (err e, w)
  if_prepared panic w tried = (panic, w)

  -- The loop over the methods, from the result so far.
  unfoldable pub try_methods :
      ClientConfiguration
      → List AuthMethod
      → Result NetCtlError (Unit {0})
      → Exec NetCtlError W (Unit {0})
  unfolding prepare after_attempt if_prepared
  try_methods conf [] result w = (result, w)
  try_methods conf (auth_method ∷ methods) result w =
      let (prepared, w') = prepare conf auth_method w in
      let (connected, w2) = esp.connect w' in
      let later = try_methods conf methods (err other_connection_failure) w2 in
      if_prepared prepared w' (after_attempt connected w2 later)

  -- `ip_wait_while`'s condition: not operational yet.
  unfoldable pub is_down : Exec EspError W Bool
  is_down = do operational ← fetch_is_operational; pure (not operational)

  -- What is done with the outcome of the wait for addresses.
  unfoldable pub after_ip_wait :
      Bool → Result EspError (Unit {0}) → W → Result NetCtlError (Unit {0}) × Ctl W
  after_ip_wait operational (ok x) w = (ok tt, record { operational = true; world = w })
  after_ip_wait operational (err e) w =
      (err ip_bind_failed, record { operational = operational; world = (esp.disconnect w).1 })
  after_ip_wait operational panic w = (panic, record { operational = operational; world = w })

  -- The link-local address, and the wait for addresses.
  unfoldable pub wait_for_addresses :
      Bool → Result NetCtlError (Unit {0}) → W → Result NetCtlError (Unit {0}) × Ctl W
  unfolding after_ip_wait
  wait_for_addresses operational (ok x) w =
      let (r, w') = esp.ip_wait_while is_down ip_wait_secs w in after_ip_wait operational r w'
  wait_for_addresses operational (err e) w =
      (err e, record { operational = operational; world = w })
  wait_for_addresses operational panic w = (panic, record { operational = operational; world = w })

  -- The attempts, then the link-local address.
  unfoldable pub associate : List ℕ → List ℕ → Exec NetCtlError W (Unit {0})
  unfolding configuration try_methods
  associate ssid pass = do
    conf ← lift (configuration ssid pass)
    try_methods conf auth_methods (ok tt)
    net esp.create_ip6_linklocal

  unfoldable pub connect : WirelessCreds → Exec NetCtlError (Ctl W) (Unit {0})
  unfolding associate wait_for_addresses
  connect (WirelessCreds.thread dataset_tlv) s = (err (NetCtlError.other invalid_data), s)
  connect (WirelessCreds.wifi ssid pass) s =
      let (r, w) = associate ssid pass s.world in wait_for_addresses s.operational r w

  -- `wait_changed`.
  unfoldable pub wait_changed : ℕ → Ctl W → Option (Result EspError (Unit {0}) × Ctl W)
  unfolding fetch_is_operational Flag.wait_changed
  wait_changed rounds s = Flag.wait_changed fetch_is_operational esp.wait_any_conf_change rounds s

  -- `EspNetifAccess::access`: the L2 status that its caller gets.
  unfoldable pub access : Exec EspError W Bool
  access w = let (r, w') = esp.is_connected w in (unwrap_or false r, w')
