-- ===== src/Thread/Ctl/Connect.antt =====
-- The ways `connect` of thread.rs ends.
use esp_idf_matter.Base.{
  ℕ, zero, suc, ◌+◌, ◌-◌, ◌*◌, ◌≤◌, ◌<◌, ◌≡◌, refl, ap, Bool, true, false, List, Option, none, some,
  Result, ok, err, panic, if◌then◌else◌, ltb, ltb→lt, arith,
}
use esp_idf_matter.Error.{
  EspError, NetCtlError, auth_failure, ip_bind_failed, other_connection_failure, other,
  to_net_ctl_error, to_net_constr_error,
}
use esp_idf_matter.Netctl.{WirelessCreds, fails_as_other}
use esp_idf_matter.Netctl.Flag.{Ctl}
use esp_idf_matter.Thread.Ctl.{
  EspThread, connect_wait, poll_connect_wait, fetch_is_operational, after_poll, poll_connect,
  settle_connect, restart, join, connect,
}

module _ {W : Type 0} (esp : EspThread W) where
  restart-fails_as_other :
      (dataset_tlv : List ℕ) (w : W) → fails_as_other (restart esp dataset_tlv w).0 ≡ true
  unfolding restart to_net_constr_error
  restart-fails_as_other dataset_tlv w = ground arith

  -- The last query said so.
  abbrev pub Queried : Result EspError Bool → W → Type 0
  Queried r w' = (w : W) × (fetch_is_operational esp w ≡ (r, w'))

  -- What the end of the loop, begun at `started`, says of its last query.
  abbrev Polled : ℕ → Result NetCtlError Bool → W → Type 0
  Polled started (ok true) w = Queried (ok true) w
  Polled started (ok false) w = Queried (ok false) w × (started + connect_wait < esp.now w)
  Polled started (err auth_failure) w = ⊥
  Polled started (err ip_bind_failed) w = ⊥
  Polled started (err other_connection_failure) w = ⊥
  Polled started (err (other code)) w =
      (e : EspError) × Queried (err e) w × (to_net_ctl_error e ≡ other code)
  Polled started panic w = Queried panic w

  -- What is asked of an end of `connect`, from the flag it found.
  abbrev pub Ended : Bool → Result NetCtlError (Unit {0}) → Ctl W → Type 0
  Ended operational (ok x) s = (s.operational ≡ true) × Queried (ok true) s.world
  Ended operational (err auth_failure) s =
      (s.operational ≡ operational)
      × ((w : W) × Queried (ok false) w × ((esp.enable_thread false w).1 ≡ s.world))
  Ended operational (err ip_bind_failed) s = ⊥
  Ended operational (err other_connection_failure) s = ⊥
  Ended operational (err (other code)) s = s.operational ≡ operational
  Ended operational panic s = s.operational ≡ operational

  module _ (sleeps : (ms : ℕ) (w : W) → esp.now w + ms ≤ esp.now (esp.after ms w))
      (steady : (w : W) → esp.now w ≤ esp.now (fetch_is_operational esp w).1) where
    -- The loop ended, with what its last query says.
    Ends : ℕ → Option (Result NetCtlError Bool × W) → Type 0
    Ends started found =
        (r : Result NetCtlError Bool) × (w : W) × (found ≡ some (r, w)) × Polled started r w

    deadline-Ends :
        (started : ℕ) (w : W) (later : Option (Result NetCtlError Bool × W)) (past : Bool)
        → Queried (ok false) w
        → ltb connect_wait (esp.now w - started) ≡ past
        → (past ≡ false → Ends started later)
        → Ends started (if past then some (ok false, w) else later)
    unfolding Ends
    deadline-Ends started w later true q e h =
        (ok false, w, refl, (q, omega (arith, ltb→lt connect_wait (esp.now w - started) e)))
    deadline-Ends started w later false q e h = h refl

    after_poll-Ends :
        (started : ℕ) (r : Result EspError Bool) (w w' : W)
        (later : Option (Result NetCtlError Bool × W))
        → fetch_is_operational esp w ≡ (r, w')
        → (ltb connect_wait (esp.now w' - started) ≡ false → Ends started later)
        → Ends started (after_poll esp started r w' later)
    unfolding after_poll Ends
    after_poll-Ends started (ok true) w w' later e h = (ok true, w', refl, (w, e))
    after_poll-Ends started (ok false) w w' later e h =
        deadline-Ends started w' later (ltb connect_wait (esp.now w' - started)) (w, e) refl h
    after_poll-Ends started (err code) w w' later e h =
        (err (to_net_ctl_error code), w', refl, (code, (w, e), refl))
    after_poll-Ends started panic w w' later e h = (panic, w', refl, (w, e))

    poll_connect-Ends :
        (polls started : ℕ) (w : W)
        → started + connect_wait < esp.now w + polls * poll_connect_wait
        → Ends started (poll_connect esp (suc polls) started w)
    unfolding poll_connect
    poll_connect-Ends zero started w enough =
        after_poll-Ends started (fetch_is_operational esp w).0 w (fetch_is_operational esp w).1 none
          refl (λ early. absurd (ground (arith, steady w)))
    poll_connect-Ends (suc polls) started w enough =
        let w' = (fetch_is_operational esp w).1 in
        let w2 = esp.after poll_connect_wait w' in
        after_poll-Ends started (fetch_is_operational esp w).0 w w'
          (poll_connect esp (suc polls) started w2) refl
          (λ early. poll_connect-Ends polls started w2 (ground (arith, steady w, sleeps 1000 w')))

    settle_connect-Ended :
        (started : ℕ) (operational : Bool) (r : Result NetCtlError Bool) (w : W)
        → Polled started r w
        → Ended operational
            (settle_connect esp operational r w).0
            (settle_connect esp operational r w).1
    unfolding settle_connect
    settle_connect-Ended started operational (ok true) w h = (refl, h)
    settle_connect-Ended started operational (ok false) w h = (refl, (w, h.0, refl))
    settle_connect-Ended started operational (err auth_failure) w h = absurd h
    settle_connect-Ended started operational (err ip_bind_failed) w h = absurd h
    settle_connect-Ended started operational (err other_connection_failure) w h = absurd h
    settle_connect-Ended started operational (err (other code)) w h = refl
    settle_connect-Ended started operational panic w h = refl

    abbrev finish :
        Bool → Option (Result NetCtlError Bool × W) → Option (Result NetCtlError (Unit {0}) × Ctl W)
    finish operational found = elim found [
      | none ↦ none
      | some (r, w) ↦ some (settle_connect esp operational r w)
    ]

    -- `connect` ended so.
    EndsAs : Bool → Option (Result NetCtlError (Unit {0}) × Ctl W) → Type 0
    EndsAs operational found =
        (r : Result NetCtlError (Unit {0})) × (s' : Ctl W) × (found ≡ some (r, s'))
        × Ended operational r s'

    finish-EndsAs :
        (started : ℕ) (operational : Bool) (found : Option (Result NetCtlError Bool × W))
        → Ends started found
        → EndsAs operational (finish operational found)
    unfolding Ends EndsAs
    finish-EndsAs started operational found (r, w, e, h) =
        let ended = settle_connect-Ended started operational r w h in
        let settled = settle_connect esp operational r w in
        (settled.0, settled.1, ap (finish operational) e, ended)

    join-EndsAs :
        (polls : ℕ) (r : Result NetCtlError (Unit {0})) (operational : Bool) (w : W)
        → 32 ≤ polls
        → fails_as_other r ≡ true
        → EndsAs operational (join esp polls r operational w)
    unfolding join EndsAs
    join-EndsAs zero r operational w enough plain = absurd (omega arith)
    join-EndsAs (suc polls) (ok x) operational w enough plain =
        finish-EndsAs (esp.now w) operational (poll_connect esp (suc polls) (esp.now w) w)
          (poll_connect-Ends polls (esp.now w) w (omega arith))
    join-EndsAs (suc polls) (err auth_failure) operational w enough plain = absurd (ground arith)
    join-EndsAs (suc polls) (err ip_bind_failed) operational w enough plain = absurd (ground arith)
    join-EndsAs (suc polls) (err other_connection_failure) operational w enough plain =
        absurd (ground arith)
    join-EndsAs (suc polls) (err (other code)) operational w enough plain =
        (err (other code), record { operational = operational; world = w }, refl, refl)
    join-EndsAs (suc polls) panic operational w enough plain =
        (panic, record { operational = operational; world = w }, refl, refl)

    -- `connect` to a Thread network ends, given 32 polls or more, a timer that lasts its time and a
    -- clock that queries do not turn back. With success, the last query found Thread operational,
    -- and so does the flag; else the flag is as it was, and where the deadline passed, the last
    -- query found Thread not operational and Thread was stopped.
    pub connect_ends :
        (polls : ℕ) (dataset_tlv : List ℕ) (s : Ctl W)
        → 32 ≤ polls
        → (r : Result NetCtlError (Unit {0})) × (s' : Ctl W) × (connect esp polls
              (WirelessCreds.thread dataset_tlv)
              s
            ≡ some (r, s'))
          × Ended s.operational r s'
    unfolding connect EndsAs
    connect_ends polls dataset_tlv s enough =
        let restarted = restart esp dataset_tlv s.world in
        join-EndsAs polls restarted.0 s.operational restarted.1 enough
          (restart-fails_as_other dataset_tlv s.world)
