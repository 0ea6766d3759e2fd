-- ===== src/TempSensor/Sleep/Ready.antt =====
-- When `deep_sleep_when_idle` of examples/temp_sensor_battery_thread.rs puts the device to sleep,
-- and for how long.
use esp_idf_matter.Base.{
  ℕ, ◌^◌, ◌<◌, some, ◌≡◌, ◌↔◌, ap, ◌∙◌, Result, again, leave, Rounds, repeat-Rounds, Rounds-repeat,
  Rounds-kept, arith,
}
use esp_idf_matter.Error.{ErrorCode}
use esp_idf_matter.TempSensor.Clock.{Device}
use mathlib.Core.Path.{subst}
use esp_idf_matter.TempSensor.Sleep.Calls.{
  Logged, logged, ready, IsReady, traces, FallsAsleep, fall_asleep-FallsAsleep,
}
use esp_idf_matter.TempSensor.Sleep.{Icd, fall_asleep, idle_round, deep_sleep_when_idle}

module _ {W : Type 0} (p : Icd W) where
  round_leaves :
      (d : Device (Logged W))
      → IsReady p d
      → idle_round (logged p) d
        ≡ leave (fall_asleep (logged p) (ready p d)).0 (fall_asleep (logged p) (ready p d)).1
  unfolding idle_round logged
  round_leaves d h = ground arith

  leaves_ready :
      (d d' : Device (Logged W)) (r : Result ErrorCode (Unit {0}))
      → idle_round (logged p) d ≡ leave r d'
      → IsReady p d × (fall_asleep (logged p) (ready p d) ≡ (r, d'))
  unfolding idle_round logged
  leaves_ready d d' r h = ground arith

  again_keeps :
      (d d' : Device (Logged W)) → idle_round (logged p) d ≡ again d' → traces p d' ≡ traces p d
  unfolding idle_round logged
  again_keeps d d' h = ground arith

  -- Within some rounds, where polls are less than 2^32 ms apart, the loop ends exactly where one of
  -- them finds the device idle, as a LIT and after the time to settle too, and no round before it
  -- does. Then the clock is saved, in the memory and in the system clock, and no trace of a sleep is left before; and the
  -- chip sleeps, with the pin to wake it, for as long as neither the next poll nor the end of the
  -- idle period comes, and at least a second. Or a call that programs the sleep fails: then the loop
  -- ends without success, and the chip does not sleep.
  pub deep_sleep_when_idle_lem :
      (polls : (w : W) → p.poll_interval_ms w < 2 ^ 32) (rounds : ℕ) (d d' : Device (Logged W))
      (r : Result ErrorCode (Unit {0}))
      → (deep_sleep_when_idle (logged p) rounds d ≡ some (r, d')) ↔ (
          (n : ℕ) × (t : Device (Logged W)) × (n < rounds)
          × Rounds (idle_round (logged p)) n d t
          × IsReady p t
          × (traces p t ≡ traces p d)
          × FallsAsleep p (ready p t) r d'
          × (fall_asleep (logged p) (ready p t) ≡ (r, d')))
  unfolding deep_sleep_when_idle
  deep_sleep_when_idle_lem polls rounds d d' r = (
    λ ended.
        let (n, t, m, rs, e) = Rounds-repeat (idle_round (logged p)) rounds d d' r ended in
        let (is_ready, asleep) = leaves_ready t d' r e in
        (
          n,
          t,
          m,
          rs,
          is_ready,
          Rounds-kept (idle_round (logged p)) (traces p) again_keeps n d t rs,
          subst (λ x. FallsAsleep p (ready p t) x.0 x.1) asleep
              (fall_asleep-FallsAsleep p (ready p t) (polls (ready p t).world.inner)),
          asleep,
        ),
    λ (n, t, m, rs, is_ready, kept, falls, asleep).
        repeat-Rounds (idle_round (logged p)) n rounds d t d' r m rs
          (round_leaves t is_ready ∙ ap (λ x. leave x.0 x.1) asleep),
  )
