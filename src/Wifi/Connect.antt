-- ===== src/Wifi/Connect.antt =====
-- The ways `connect` of wifi.rs ends.
use esp_idf_matter.Base.{
  ℕ, ◌≡◌, refl, sym, Bool, true, false, List, [], ◌∷◌, Exec, Result, ok, err, panic, continue, ◌>>◌,
  arith,
}
use esp_idf_matter.Error.{
  EspError, NetCtlError, auth_failure, ip_bind_failed, other_connection_failure, other,
}
use esp_idf_matter.Netctl.{WirelessCreds, fails_as_other}
use esp_idf_matter.Netctl.Flag.{Ctl}
use esp_idf_matter.Wifi.{
  AuthMethod, ClientConfiguration, EspWifi, ip_wait_secs, auth_methods, net, fetch_is_operational,
  prepare, after_attempt, if_prepared, try_methods, configuration, is_down, after_ip_wait,
  wait_for_addresses, associate, connect,
}

module _ {W : Type 0} (esp : EspWifi W) where
  configuration_plain : (ssid pass : List ℕ) → fails_as_other (configuration esp ssid pass) ≡ true
  unfolding configuration
  configuration_plain ssid pass = ground arith

  -- The last query found the network operational.
  abbrev FoundUp : W → Type 0
  FoundUp w' = (w : W) × (fetch_is_operational esp w ≡ (ok true, w'))

  -- What is asked of an end of the attempts.
  abbrev Tried : Result NetCtlError (Unit {0}) → W → Type 0
  Tried (ok x) w' = Unit
  Tried (err auth_failure) w' = ⊥
  Tried (err ip_bind_failed) w' = ⊥
  Tried (err other_connection_failure) w' = (w : W) × (e : EspError) × (esp.connect w ≡ (err e, w'))
  Tried (err (other code)) w' = Unit
  Tried panic w' = Unit

  after_attempt-Tried :
      (r : Result EspError (Unit {0})) (w w' : W) (later : Result NetCtlError (Unit {0}) × W)
      → esp.connect w ≡ (r, w')
      → ((e : EspError) → r ≡ err e → Tried later.0 later.1)
      → Tried (after_attempt esp r w' later).0 (after_attempt esp r w' later).1
  unfolding after_attempt
  after_attempt-Tried (ok x) w w' later e h = tt
  after_attempt-Tried (err code) w w' later e h = h code refl
  after_attempt-Tried panic w w' later e h = tt

  prepare_other :
      (conf : ClientConfiguration) (auth_method : AuthMethod) (w : W)
      → fails_as_other (prepare esp conf auth_method w).0 ≡ true
  unfolding prepare
  prepare_other conf auth_method w = ground arith

  -- A method after its preparation.
  if_prepared-Tried :
      (prepared : Result NetCtlError (Unit {0})) (w : W) (tried : Result NetCtlError (Unit {0}) × W)
      → fails_as_other prepared ≡ true
      → Tried tried.0 tried.1
      → Tried (if_prepared esp prepared w tried).0 (if_prepared esp prepared w tried).1
  unfolding if_prepared
  if_prepared-Tried (ok x) w tried plain h = h
  if_prepared-Tried (err auth_failure) w tried plain h = absurd (ground arith)
  if_prepared-Tried (err ip_bind_failed) w tried plain h = absurd (ground arith)
  if_prepared-Tried (err other_connection_failure) w tried plain h = absurd (ground arith)
  if_prepared-Tried (err (other code)) w tried plain h = tt
  if_prepared-Tried panic w tried plain h = tt

  try_methods-Tried :
      (conf : ClientConfiguration) (methods : List AuthMethod)
      (result : Result NetCtlError (Unit {0})) (w : W)
      → (methods ≡ [] → Tried result w)
      → Tried (try_methods esp conf methods result w).0 (try_methods esp conf methods result w).1
  unfolding try_methods
  try_methods-Tried conf [] result w so_far = so_far refl
  try_methods-Tried conf (auth_method ∷ methods) result w so_far =
      let (prepared, w') = prepare esp conf auth_method w in
      let (connected, w2) = esp.connect w' in
      let later = try_methods esp conf methods (err other_connection_failure) w2 in
      if_prepared-Tried prepared w' (after_attempt esp connected w2 later)
        (prepare_other conf auth_method w)
        (after_attempt-Tried connected w' w2 later refl (λ e failed.
          try_methods-Tried conf methods (err other_connection_failure) w2
            (λ last. (w', e, rw (sym failed) refl))))

  plain-Tried : (r : Result NetCtlError (Unit {0})) (w : W) → fails_as_other r ≡ true → Tried r w
  plain-Tried (ok x) w plain = tt
  plain-Tried (err auth_failure) w plain = absurd (ground arith)
  plain-Tried (err ip_bind_failed) w plain = absurd (ground arith)
  plain-Tried (err other_connection_failure) w plain = absurd (ground arith)
  plain-Tried (err (other code)) w plain = tt
  plain-Tried panic w plain = tt

  continue-Tried :
      (r : Result NetCtlError (Unit {0})) (w : W) (next : Exec NetCtlError W (Unit {0}))
      → Tried r w
      → (fails_as_other (next w).0 ≡ true)
      → Tried (continue r (λ x. next) w).0 (continue r (λ x. next) w).1
  continue-Tried (ok x) w next h plain = plain-Tried (next w).0 (next w).1 plain
  continue-Tried (err e) w next h plain = h
  continue-Tried panic w next h plain = h

  linklocal_other : (w : W) → fails_as_other (net esp.create_ip6_linklocal w).0 ≡ true
  linklocal_other w = ground arith

  configured-Tried :
      (configured : Result NetCtlError ClientConfiguration) (w : W)
      → fails_as_other configured ≡ true
      → let (r, w') =
          continue configured
            (λ conf. try_methods esp conf auth_methods (ok tt) >> net esp.create_ip6_linklocal)
            w in
        Tried r w'
  configured-Tried (ok conf) w plain =
      let (r, w') = try_methods esp conf auth_methods (ok tt) w in
      continue-Tried r w' (net esp.create_ip6_linklocal)
        (try_methods-Tried conf auth_methods (ok tt) w (λ e. tt)) (linklocal_other w')
  configured-Tried (err auth_failure) w plain = absurd (ground arith)
  configured-Tried (err ip_bind_failed) w plain = absurd (ground arith)
  configured-Tried (err other_connection_failure) w plain = absurd (ground arith)
  configured-Tried (err (other code)) w plain = tt
  configured-Tried panic w plain = tt

  associate-Tried :
      (ssid pass : List ℕ) (w : W)
      → Tried (associate esp ssid pass w).0 (associate esp ssid pass w).1
  unfolding associate
  associate-Tried ssid pass w =
      configured-Tried (configuration esp ssid pass) w (configuration_plain ssid pass)

  -- What is asked of an end of `connect`, from the flag it found.
  abbrev pub Ended : Bool → Result NetCtlError (Unit {0}) → Ctl W → Type 0
  Ended operational (ok x) s = (s.operational ≡ true) × FoundUp s.world
  Ended operational (err auth_failure) s = ⊥
  Ended operational (err ip_bind_failed) s =
      (s.operational ≡ operational) × ((w : W) × ((esp.disconnect w).1 ≡ s.world))
  Ended operational (err other_connection_failure) s =
      (s.operational ≡ operational)
      × ((w : W) × (e : EspError) × (esp.connect w ≡ (err e, s.world)))
  Ended operational (err (other code)) s = s.operational ≡ operational
  Ended operational panic s = s.operational ≡ operational

  module _
      (waits : (condition : Exec EspError W Bool) (secs : ℕ) (w w' : W)
        → esp.ip_wait_while condition secs w ≡ (ok tt, w')
        → (last : W) × (condition last ≡ (ok false, w'))) where
    is_down-FoundUp : (w w' : W) → is_down esp w ≡ (ok false, w') → FoundUp w'
    unfolding is_down
    is_down-FoundUp w w' h = (w, ground arith)

    after_ip_wait-Ended :
        (operational : Bool) (r : Result EspError (Unit {0})) (w w' : W)
        → esp.ip_wait_while (is_down esp) ip_wait_secs w ≡ (r, w')
        → Ended operational
            (after_ip_wait esp operational r w').0
            (after_ip_wait esp operational r w').1
    unfolding after_ip_wait
    after_ip_wait-Ended operational (ok x) w w' h =
        let (last, up) = waits (is_down esp) ip_wait_secs w w' h in
        (refl, is_down-FoundUp last w' up)
    after_ip_wait-Ended operational (err e) w w' h = (refl, (w', refl))
    after_ip_wait-Ended operational panic w w' h = refl

    wait-Ended :
        (operational : Bool) (r : Result NetCtlError (Unit {0})) (w : W)
        → Tried r w
        → Ended operational
            (wait_for_addresses esp operational r w).0
            (wait_for_addresses esp operational r w).1
    unfolding wait_for_addresses
    wait-Ended operational (ok x) w h =
        let (r, w') = esp.ip_wait_while (is_down esp) ip_wait_secs w in
        after_ip_wait-Ended operational r w w' refl
    wait-Ended operational (err auth_failure) w h = absurd h
    wait-Ended operational (err ip_bind_failed) w h = absurd h
    wait-Ended operational (err other_connection_failure) w h = (refl, h)
    wait-Ended operational (err (other code)) w h = refl
    wait-Ended operational panic w h = refl

    -- `connect` to a Wifi network ends in one of these ways, provided that the wait for addresses
    -- ends well only when its condition does not hold: with success, the last query found the
    -- network operational, and the flag says so; else the flag is as it was. Where no address came
    -- in time, the driver was told to disconnect; where no method served, the last thing was a
    -- failed attempt to connect.
    pub connect_outcome :
        (ssid pass : List ℕ) (s : Ctl W)
        → let (r, s') = connect esp (WirelessCreds.wifi ssid pass) s in Ended s.operational r s'
    unfolding connect
    connect_outcome ssid pass s =
        wait-Ended s.operational (associate esp ssid pass s.world).0
          (associate esp ssid pass s.world).1 (associate-Tried ssid pass s.world)
