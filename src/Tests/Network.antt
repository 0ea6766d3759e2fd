-- ===== src/Tests/Network.antt =====
-- The network control of thread.rs and wifi.rs over a world that is the time in milliseconds.
use esp_idf_matter.Base.{
  ℕ, ◌+◌, ◌≤◌, ◌<◌, ◌≡◌, refl, Bool, true, false, none, some, List, [], ◌∷◌, All, Exec, Result, ok,
  err, panic, if◌then◌else◌, ltb, arith,
}
use esp_idf_matter.Error.{EspError, ErrorCode, NetCtlError}
use esp_idf_matter.Netif.Conf.{EspNetif, get_netif_conf, collect_ipv6}
use esp_idf_matter.Netif.Addr.{push_preferred, push_others}
use esp_idf_matter.Netctl.{WirelessCreds}
use esp_idf_matter.Netctl.Flag.{Ctl, fetch_operational, wait_changed}
use esp_idf_matter.Netctl.Wait.{after_queries, is_quiet_for, wait_changed_ends}
use esp_idf_matter.Netctl.Visit.{for_each}
use esp_idf_matter.Thread.Ctl.{Role, EspThread, fetch_is_operational, connect}
use esp_idf_matter.Thread.Ctl.Connect.{Ended, connect_ends}
use esp_idf_matter.Thread.Ctl.Scan.{ActiveScanResult, OwnedScanResult, ActiveScan, own, scan}
use esp_idf_matter.Thread.Ctl.Kept.{IsResult, found}
use esp_idf_matter.Thread.Ctl.Asked.{asked}
use esp_idf_matter.Thread.Ctl.Scanning.{heard, scan_reports}
use esp_idf_matter.Wifi
use esp_idf_matter.Wifi.{EspWifi}
use esp_idf_matter.Wifi.Connect

abbrev fine : {A : Type 0} → A → Exec EspError ℕ A
fine a w = (ok a, w)

-- An interface without addresses.
abbrev netif : EspNetif ℕ
netif = record {
  lwip_ipv6_num_addresses = 2;
  get_ip_info = fine 0;
  get_all_preferred_ip6 = λ raw w. (0, (raw, w));
  get_all_ip6 = λ raw w. (0, (raw, w));
  get_mac = fine (1 ∷ 2 ∷ 3 ∷ 4 ∷ 5 ∷ 6 ∷ []);
  get_name = λ w. [];
  is_netif_up = fine true;
  is_up = fine true;
  get_index = λ w. 1;
}

abbrev thread : EspThread ℕ
thread = record {
  netif = netif;
  role = fine Role.child;
  enable_thread = λ b. fine tt;
  set_tod = λ bytes. fine tt;
  now = λ w. w;
  after = λ ms w. w + ms;
  wait_any_conf_change = λ w. w + 1;
}

steady : (w : ℕ) → w ≤ (fetch_is_operational thread w).1
unfolding fetch_is_operational get_netif_conf collect_ipv6 push_preferred push_others
steady w = omega arith

connect_ends_example :
    (r : Result NetCtlError (Unit {0})) × (s' : Ctl ℕ) × (connect thread 40
        (WirelessCreds.thread (14 ∷ 8 ∷ []))
        (record { operational = true; world = 7 })
      ≡ some (r, s'))
    × Ended thread true r s'
connect_ends_example =
    connect_ends thread (λ ms w. omega arith) steady 40 (14 ∷ 8 ∷ [])
      (record { operational = true; world = 7 }) (omega arith)

-- The flag is set, and the third query finds the network lost.
abbrev lost_at : ℕ → Exec EspError ℕ Bool
lost_at n w = (ok (ltb w n), w)

wait_changed_ends_example :
    let s : Ctl ℕ = record { operational = true; world = 0 } in
    let s' =
      (fetch_operational (lost_at 2) (λ w. w + 1) (after_queries (lost_at 2) (λ w. w + 1) 2 s)).1 in
    (wait_changed (lost_at 2) (λ w. w + 1) 5 s ≡ some (ok tt, s')) × (s'.operational ≡ false)
unfolding is_quiet_for after_queries fetch_operational
wait_changed_ends_example =
    wait_changed_ends (lost_at 2) (λ w. w + 1) 2 5 (record { operational = true; world = 0 })
      (omega arith) refl refl

abbrev a_network : ℕ → ActiveScanResult
a_network n = record {
  pan_id = n;
  extended_pan_id = 0 ∷ 0 ∷ 0 ∷ 0 ∷ 0 ∷ 0 ∷ 0 ∷ n ∷ [];
  network_name = none;
  channel = 15;
  version = 4;
  extended_address = 1 ∷ 2 ∷ 3 ∷ 4 ∷ 5 ∷ 6 ∷ 7 ∷ 8 ∷ [];
  max_rssi = 200;
  lqi = 3;
}

-- A network comes while the loop waits; the second poll finds the scan over.
abbrev a_scan : ActiveScan ℕ
a_scan = record {
  scan = λ w. (ok tt, (some (a_network 1) ∷ [], w));
  is_scan_in_progress = λ w. (ok (ltb w 1), w);
  after = λ ms w. (some (a_network 2) ∷ none ∷ [], w + 1);
}

has_eight : (n : ℕ) → n < 256 → IsResult (some (a_network n))
has_eight n small = (
  refl,
  refl,
  (
    omega arith,
    (
      omega arith,
      (omega arith, (omega arith, (omega arith, (omega arith, (omega arith, (small, tt)))))),
    ),
  ),
)

abbrev good : (ms w : ℕ) → All IsResult (a_scan.after ms w).0
good ms w = (has_eight 2 (omega arith), (tt, tt))

-- A visitor that notes the networks.
abbrev note : OwnedScanResult → Exec ErrorCode (List ℕ) (Unit {0})
note result seen = (ok tt, result.pan_id ∷ seen)

scan_reports_example :
    scan a_scan note 3 (some (0 ∷ 0 ∷ 0 ∷ 0 ∷ 0 ∷ 0 ∷ 0 ∷ 2 ∷ [])) [] 0 ≡ some (ok tt, (2 ∷ [], 1))
unfolding heard for_each asked found own
scan_reports_example =
    scan_reports a_scan note good 3 (some (0 ∷ 0 ∷ 0 ∷ 0 ∷ 0 ∷ 0 ∷ 0 ∷ 2 ∷ [])) [] 0 0 1
      (some (a_network 1) ∷ []) (some (a_network 2) ∷ none ∷ []) (has_eight 1 (omega arith), tt)
      refl refl

-- A station that is not up after the first look.
abbrev ip_wait : Exec EspError ℕ Bool → ℕ → Exec EspError ℕ (Unit {0})
ip_wait condition secs w =
    let (r, w') = condition w in
    (elim r [ ok down ↦ (if down then err 7 else ok tt) | err e ↦ err e | panic ↦ panic ], w')

ip_waits :
    (condition : Exec EspError ℕ Bool) (secs w w' : ℕ)
    → ip_wait condition secs w ≡ (ok tt, w')
    → (last : ℕ) × (condition last ≡ (ok false, w'))
ip_waits condition secs w w' h = (w, ground arith)

abbrev station : EspWifi ℕ
station = record {
  netif = netif;
  is_utf8 = λ bytes. true;
  max_ssid = 32;
  max_password = 64;
  is_connected = fine true;
  is_started = fine false;
  start = fine tt;
  connect = fine tt;
  disconnect = λ w. (ok tt, w + 1);
  set_configuration = λ conf. fine tt;
  scan = fine [];
  create_ip6_linklocal = fine tt;
  ip_wait_while = ip_wait;
  wait_any_conf_change = λ w. w;
}

connect_outcome_example :
    let (r, s') =
      Wifi.connect station
        (WirelessCreds.wifi (65 ∷ []) (66 ∷ []))
        (record { operational = false; world = 0 }) in
    Connect.Ended station false r s'
connect_outcome_example =
    Connect.connect_outcome station ip_waits (65 ∷ []) (66 ∷ [])
      (record { operational = false; world = 0 })
