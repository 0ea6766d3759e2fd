-- ===== src/Button.antt =====
-- The wait for a held BOOT button: `wait_reset` of examples/temp_sensor_battery_thread.rs and of
-- examples/trv_battery_thread.rs, `wait_pin_low` of examples/light_wifi_persistent.rs. The pin and
-- the timers are parameters.
pub mod Held
use esp_idf_matter.Base.{
  ℕ, Bool, true, false, Option, if◌then◌else◌, Exec, Result, ok, err, panic, Round, again, leave,
  repeat,
}
use esp_idf_matter.Error.{EspError, ErrorCode, to_net_error}

pub record Pin (W : Type 0) : Type 0 where
  pub wait_for_low : Exec EspError W (Unit {0})
  pub is_low : W → Bool
  -- `Timer::after_millis`.
  pub after_millis : ℕ → W → W
  -- `select` of `wait_for_high` and `Timer::after_secs`, and whether the timer was first.
  pub high_or_after_secs : ℕ → W → Bool × W

abbrev pub reset_secs : ℕ
reset_secs = 3

module _ {W : Type 0} (pin : Pin W) where
  -- From the debounce on.
  unfoldable pub check_held : W → Round W (Result ErrorCode (Unit {0}))
  check_held w =
      let w1 = pin.after_millis 50 w in
      let (held, w2) = pin.high_or_after_secs reset_secs w1 in
      if pin.is_low w1 then (if held then leave (ok tt) w2 else again w2) else again w1

  unfoldable pub if_low : Result EspError (Unit {0}) × W → Round W (Result ErrorCode (Unit {0}))
  unfolding check_held
  if_low (ok x, w) = check_held w
  if_low (err e, w) = leave (err (to_net_error e)) w
  if_low (panic, w) = leave panic w

  unfoldable pub reset_round : W → Round W (Result ErrorCode (Unit {0}))
  unfolding if_low
  reset_round w = if_low (pin.wait_for_low w)

  unfoldable pub wait_reset : ℕ → W → Option (Result ErrorCode (Unit {0}) × W)
  unfolding reset_round
  wait_reset = repeat reset_round

  -- It makes nothing of an error of the wait.
  unfoldable pub pin_low_round : W → Round W (Result ErrorCode (Unit {0}))
  unfolding check_held
  pin_low_round w = check_held (pin.wait_for_low w).1

  unfoldable pub wait_pin_low : ℕ → W → Option (Result ErrorCode (Unit {0}) × W)
  unfolding pin_low_round
  wait_pin_low = repeat pin_low_round
