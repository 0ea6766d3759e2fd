-- ===== src/TempSensor/Sleep.antt =====
-- `deep_sleep_when_idle` and `deep_sleep` of examples/temp_sensor_battery_thread.rs. The ICD state
-- machine of `rs-matter`, the timers and the sleep calls of ESP-IDF are parameters.
pub mod Calls
pub mod Ready
use esp_idf_matter.Base.{
  ℕ, ◌-◌, ◌*◌, ◌%◌, ◌^◌, min, max, Bool, true, false, Option, none, some, if◌then◌else◌, Exec,
  Result, ok, err, panic, map_err, ◌>>=◌, ◌>>◌, Round, again, leave, repeat,
}
use esp_idf_matter.Error.{EspError, ErrorCode, to_net_error}
use esp_idf_matter.TempSensor.Clock.{Clock, Device, save_clock, u64_mod}

pub record Icd (W : Type 0) : Type 0 where
  pub clock : Clock W
  pub wait_idle : W → W
  pub wait_active : W → W
  -- `operating_mode() == OperatingModeEnum::SIT`.
  pub is_sit : W → Bool
  -- `power_mode() == IcdPowerMode::Idle`.
  pub is_idle : W → Bool
  -- A `u32`.
  pub poll_interval_ms : W → ℕ
  pub idle_until : W → Option ℕ
  -- `Instant::now()`, and `as_millis` of a duration.
  pub now : W → ℕ
  pub as_millis : ℕ → ℕ
  -- `Timer::after_millis`.
  pub after_millis : ℕ → W → W
  pub esp_sleep_enable_timer_wakeup : ℕ → Exec EspError W (Unit {0})
  -- Of a mask of pins, any of them low.
  pub esp_sleep_enable_ext1_wakeup_io : ℕ → Exec EspError W (Unit {0})
  pub gpio_pullup_en : ℕ → Exec EspError W (Unit {0})
  pub gpio_pulldown_dis : ℕ → Exec EspError W (Unit {0})
  -- It does not return: the result stands for the sleep.
  pub esp_deep_sleep_start : W → W
  -- The pin that wakes the chip, 4 or 9.
  pub wake_gpio : ℕ

abbrev pub sleep_settle_ms : ℕ
sleep_settle_ms = 500

module _ {W : Type 0} (p : Icd W) where
  -- `ok` is the sleep itself.
  unfoldable pub deep_sleep : ℕ → Exec EspError W (Unit {0})
  deep_sleep ms = do
    p.esp_sleep_enable_timer_wakeup (ms * 1000 % u64_mod)
    p.esp_sleep_enable_ext1_wakeup_io (2 ^ p.wake_gpio)
    p.gpio_pullup_en p.wake_gpio
    p.gpio_pulldown_dis p.wake_gpio
    λ w. (ok tt, p.esp_deep_sleep_start w)

  unfoldable pub idle_left : Option ℕ → W → ℕ
  idle_left none w = p.poll_interval_ms w
  idle_left (some until) w = p.as_millis (until - p.now w)

  unfoldable pub sleep_ms : W → ℕ
  unfolding idle_left
  sleep_ms w = max (min (p.poll_interval_ms w) (idle_left (p.idle_until w) w)) 1000

  unfoldable pub fall_asleep : Device W → Result ErrorCode (Unit {0}) × Device W
  unfolding deep_sleep sleep_ms
  fall_asleep d =
      let d' = save_clock p.clock d in
      let (r, w) = deep_sleep (sleep_ms d.world) d'.world in
      (map_err to_net_error r, record d' { world = w })

  abbrev pub idling : Device W → Device W
  idling d = record d { world = p.wait_idle d.world }

  abbrev pub settled : Device W → Device W
  settled d = record d { world = p.after_millis sleep_settle_ms d.world }

  -- A round of the loop.
  unfoldable pub idle_round : Device W → Round (Device W) (Result ErrorCode (Unit {0}))
  unfolding fall_asleep
  idle_round d =
      let d1 = idling d in
      let d2 = settled d1 in
      if p.is_sit d1.world
      then again (record d1 { world = p.wait_active d1.world })
      else if p.is_idle d2.world
      then (let (r, d3) = fall_asleep d2 in leave r d3)
      else again d2

  unfoldable pub deep_sleep_when_idle :
      ℕ → Device W → Option (Result ErrorCode (Unit {0}) × Device W)
  unfolding idle_round
  deep_sleep_when_idle = repeat idle_round
