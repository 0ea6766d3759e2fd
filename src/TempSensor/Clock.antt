-- ===== src/TempSensor/Clock.antt =====
-- The clock of examples/temp_sensor_battery_thread.rs through its deep sleeps: `save_clock`,
-- `restore_clock` and `time_sync_due` over the memory that a deep sleep keeps. The clock of
-- `rs-matter`, the system clock and the epoch are parameters.
pub mod Kept
pub mod Due
use esp_idf_matter.Base.{
  ℕ, ◌+◌, ◌-◌, ◌*◌, ◌/◌, ◌%◌, ◌^◌, Bool, true, false, ◌||◌, Option, none, some, ltb, ◌==◌, Exec,
  if◌then◌else◌,
}

-- `UtcTime` of `rs-matter`, in microseconds since the Matter epoch, a `u64`.
pub data UtcTime : Type 0 where
  reliable last_known : ℕ → UtcTime

pub data TimeGranularity : Type 0 where
  no_time minutes seconds milliseconds microseconds : TimeGranularity

-- `TimeSource` of `rs-matter`; `other` stands for those that the example does not name.
pub data TimeSource : Type 0 where
  no_source unknown : TimeSource
  other : ℕ → TimeSource

pub record Clock (W : Type 0) : Type 0 where
  pub matter_epoch_secs : ℕ
  -- `as u8` of a granularity.
  pub as_u8 : TimeGranularity → ℕ
  -- The clock of `rs-matter`.
  pub utc_time : W → UtcTime
  pub utc_time_source : W → TimeSource
  pub utc_time_granularity : W → TimeGranularity
  pub set_utc_time : ℕ → TimeGranularity → TimeSource → W → W
  -- `settimeofday` of seconds and microseconds, and whether it returns 0.
  pub settimeofday : ℕ → ℕ → W → Bool × W
  -- `SystemTime::UNIX_EPOCH.elapsed()` in nanoseconds; `none` for an error.
  pub unix_elapsed : W → Option ℕ

-- What the RTC memory holds.
pub record SleptClock : Type 0 where
  pub granularity : ℕ
  -- A `u64`.
  pub set_utc_us : ℕ

pub record Device (W : Type 0) : Type 0 where
  pub slept : SleptClock
  pub world : W

abbrev pub time_sync_every_us : ℕ
time_sync_every_us = 24 * 60 * 60 * 1000000

abbrev pub u64_mod : ℕ
u64_mod = 2 ^ 64

unfoldable pub is_set : TimeSource → Bool
is_set TimeSource.no_source = false
is_set TimeSource.unknown = false
is_set (TimeSource.other n) = true

-- `Duration::checked_sub`, in nanoseconds.
abbrev pub checked_sub : ℕ → ℕ → Option ℕ
checked_sub a b = if ltb a b then none else some (a - b)

unfoldable pub is_due : SleptClock → UtcTime → Bool
is_due slept (UtcTime.reliable now_us) =
    (slept.set_utc_us == 0) || ltb time_sync_every_us (now_us - slept.set_utc_us)
is_due slept (UtcTime.last_known t) = true

unfoldable pub granularity_of : ℕ → Option TimeGranularity
granularity_of b =
    if b == 4
    then some TimeGranularity.microseconds
    else if b == 3
    then some TimeGranularity.milliseconds
    else if b == 2
    then some TimeGranularity.seconds
    else if b == 1
    then some TimeGranularity.minutes
    else none

module _ {W : Type 0} (c : Clock W) where
  unfoldable pub unknown_clock : SleptClock
  unknown_clock = record { granularity = c.as_u8 TimeGranularity.no_time; set_utc_us = 0 }

  -- The seconds of the epoch, in microseconds. The sums are those of a `u64`, as a release build
  -- makes them.
  unfoldable pub unix_us : ℕ → ℕ
  unix_us utc_us = (utc_us + c.matter_epoch_secs * 1000000) % u64_mod

  unfoldable pub set_system_time : ℕ → W → Bool × W
  unfolding unix_us
  set_system_time utc_us = c.settimeofday (unix_us utc_us / 1000000) (unix_us utc_us % 1000000)

  -- What is known at the sleep, and the time for the system clock.
  unfoldable pub known_clock : SleptClock → UtcTime → W → SleptClock × Option ℕ
  unfolding unknown_clock is_set
  known_clock slept (UtcTime.reliable utc_us) w = (
    record {
      granularity = c.as_u8 (c.utc_time_granularity w);
      set_utc_us = if is_set (c.utc_time_source w) then utc_us else slept.set_utc_us;
    },
    some utc_us,
  )
  known_clock slept (UtcTime.last_known t) w = (unknown_clock, none)

  unfoldable pub write_time : SleptClock × Option ℕ → W → Device W
  unfolding unknown_clock set_system_time
  write_time (clock, none) w = record { slept = clock; world = w }
  write_time (clock, some utc_us) w =
      let (fine, w') = set_system_time utc_us w in
      record { slept = if fine then clock else unknown_clock; world = w' }

  unfoldable pub save_clock : Device W → Device W
  unfolding known_clock write_time
  save_clock d = write_time (known_clock d.slept (c.utc_time d.world) d.world) d.world

  unfoldable pub time_sync_due : Device W → Bool
  unfolding is_due
  time_sync_due d = is_due d.slept (c.utc_time d.world)

  -- `ClockKeeper::run`, with `refresh_once` of the client for the Trusted Time Source. It waits for
  -- ever then, and a failure is logged.
  unfoldable pub clock_keeper : {E : Type 0} → Exec E W (Unit {0}) → Device W → Device W
  unfolding time_sync_due
  clock_keeper refresh_once d =
      if time_sync_due d then record d { world = (refresh_once d.world).1 } else d

  -- The system clock in microseconds since the Matter epoch, `as_micros` cast to a `u64`.
  unfoldable pub matter_us : Option ℕ → Option ℕ
  matter_us none = none
  matter_us (some unix) = elim (checked_sub unix (c.matter_epoch_secs * 1000000000)) [
    | none ↦ none
    | some utc ↦ some (utc / 1000 % u64_mod)
  ]

  unfoldable pub set_restored : Option TimeGranularity → Option ℕ → W → W
  set_restored none time w = w
  set_restored (some g) none w = w
  set_restored (some g) (some utc_us) w = c.set_utc_time utc_us g TimeSource.unknown w

  unfoldable pub restore_clock : Device W → Device W
  unfolding granularity_of matter_us set_restored
  restore_clock d =
      let g = granularity_of d.slept.granularity in
      record d { world = set_restored g (matter_us (c.unix_elapsed d.world)) d.world }
