-- ===== src/Thread/Ctl.antt =====
-- thread.rs, `EspMatterThreadCtl`: the Thread network as Matter controls it. OpenThread, its network
-- interface and the clock are parameters.
pub mod Connect
pub mod Scan
pub mod Kept
pub mod Asked
pub mod Scanning
pub mod Diag
pub mod Tables
pub mod Counters
use esp_idf_matter.Base.{
  ℕ, zero, suc, ◌-◌, Bool, true, false, not, List, Option, none, some, ltb, if◌then◌else◌, Exec,
  Result, ok, err, panic, pure, map_err, unwrap_or, ◌>>=◌, ◌>>◌,
}
use esp_idf_matter.Error.{
  EspError, ErrorCode, NetCtlError, auth_failure, other, invalid_data, to_net_constr_error,
  to_net_ctl_error, to_net_error,
}
use esp_idf_matter.Netctl.{WirelessCreds}
use esp_idf_matter.Netctl.Flag.{Ctl}
use esp_idf_matter.Netctl.Flag
use esp_idf_matter.Netif.Info.{InterfaceTypeEnum, info_is_operational_v6}
use esp_idf_matter.Netif.Conf.{EspNetif, get_netif_conf}

pub data Role : Type 0 where
  disabled detached child router leader : Role

pub record EspThread (W : Type 0) : Type 0 where
  pub netif : EspNetif W
  pub role : Exec EspError W Role
  pub enable_thread : Bool → Exec EspError W (Unit {0})
  pub set_tod : List ℕ → Exec EspError W (Unit {0})
  -- `Instant::now`, in milliseconds, and `Timer::after`.
  pub now : W → ℕ
  pub after : ℕ → W → W
  -- `netif::utils::wait_any_conf_change`, whose result is ignored.
  pub wait_any_conf_change : W → W

-- In milliseconds.
abbrev pub connect_wait : ℕ
connect_wait = 30000

abbrev pub poll_connect_wait : ℕ
poll_connect_wait = 1000

-- Attached to a network.
unfoldable pub is_attached : Role → Bool
is_attached Role.disabled = false
is_attached Role.detached = false
is_attached Role.child = true
is_attached Role.router = true
is_attached Role.leader = true

module _ {W : Type 0} (esp : EspThread W) where
  unfoldable pub fetch_is_thread_connected : Exec EspError W Bool
  unfolding is_attached
  fetch_is_thread_connected = do role ← esp.role; pure (is_attached role)

  unfoldable pub fetch_is_operational : Exec EspError W Bool
  unfolding fetch_is_thread_connected
  fetch_is_operational = do
    l2_connected ← (λ w. let (r, w') = fetch_is_thread_connected w in (unwrap_or false r, w'))
    info ← get_netif_conf esp.netif InterfaceTypeEnum.thread
    pure (info_is_operational_v6 l2_connected info)

  -- What a poll of `connect` means for its loop: operational or an error ends it, the deadline too,
  -- else it goes on.
  unfoldable pub after_poll :
      ℕ
      → Result EspError Bool
      → W
      → Option (Result NetCtlError Bool × W)
      → Option (Result NetCtlError Bool × W)
  after_poll started (ok true) w later = some (ok true, w)
  after_poll started (ok false) w later =
      if ltb connect_wait (esp.now w - started) then some (ok false, w) else later
  after_poll started (err e) w later = some (err (to_net_ctl_error e), w)
  after_poll started panic w later = some (panic, w)

  -- The loop of `connect` over at most so many polls: whether Thread became operational; `none` when
  -- it goes on after them.
  unfoldable pub poll_connect : ℕ → ℕ → W → Option (Result NetCtlError Bool × W)
  unfolding after_poll
  poll_connect zero started w = none
  poll_connect (suc polls) started w =
      let (r, w') = fetch_is_operational w in
      let later = poll_connect polls started (esp.after poll_connect_wait w') in
      after_poll started r w' later

  abbrev on_thread : Exec NetCtlError W (Unit {0}) → Exec NetCtlError (Ctl W) (Unit {0})
  on_thread m s = let (r, w) = m s.world in (r, record s { world = w })

  -- What is done with the outcome of the loop.
  unfoldable pub settle_connect :
      Bool → Result NetCtlError Bool → W → Result NetCtlError (Unit {0}) × Ctl W
  settle_connect operational (ok true) w = (ok tt, record { operational = true; world = w })
  settle_connect operational (ok false) w = (
    err auth_failure,
    record { operational = operational; world = (esp.enable_thread false w).1 },
  )
  settle_connect operational (err e) w = (err e, record { operational = operational; world = w })
  settle_connect operational panic w = (panic, record { operational = operational; world = w })

  -- Thread is stopped, whatever comes of that, given the dataset, and started.
  unfoldable pub restart : List ℕ → Exec NetCtlError W (Unit {0})
  restart dataset_tlv w =
      (do
        (λ w'. let (r, w2) = esp.set_tod dataset_tlv w' in (map_err to_net_constr_error r, w2))
        (λ w'. let (r, w2) = esp.enable_thread true w' in (map_err to_net_ctl_error r, w2)))
        (esp.enable_thread false w).1

  unfoldable pub join :
      ℕ → Result NetCtlError (Unit {0}) → Bool → W → Option (Result NetCtlError (Unit {0}) × Ctl W)
  unfolding settle_connect
  join polls (ok x) operational w = elim (poll_connect polls (esp.now w) w) [
    | none ↦ none
    | some (r, w') ↦ some (settle_connect operational r w')
  ]
  join polls (err e) operational w = some (err e, record { operational = operational; world = w })
  join polls panic operational w = some (panic, record { operational = operational; world = w })

  -- `connect` with at most so many polls; `none` when it polls still after them.
  unfoldable pub connect :
      ℕ → WirelessCreds → Ctl W → Option (Result NetCtlError (Unit {0}) × Ctl W)
  unfolding restart join
  connect polls (WirelessCreds.wifi ssid pass) s = some (err (other invalid_data), s)
  connect polls (WirelessCreds.thread dataset_tlv) s =
      let (r, w) = restart dataset_tlv s.world in join polls r s.operational w

  -- `wait_changed`.
  unfoldable pub wait_changed : ℕ → Ctl W → Option (Result EspError (Unit {0}) × Ctl W)
  unfolding Flag.wait_changed
  wait_changed rounds s = Flag.wait_changed fetch_is_operational esp.wait_any_conf_change rounds s

  -- `EspNetifAccess::access`: the L2 status that its caller gets.
  unfoldable pub access : Exec EspError W Bool
  access w = let (r, w') = fetch_is_thread_connected w in (unwrap_or false r, w')
