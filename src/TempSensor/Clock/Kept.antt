-- ===== src/TempSensor/Clock/Kept.antt =====
-- The time of examples/temp_sensor_battery_thread.rs from `save_clock` over a deep sleep to
-- `restore_clock`.
use esp_idf_matter.Base.{ℕ, ◌+◌, ◌*◌, ◌/◌, ◌%◌, ◌<◌, true, some, ◌≡◌, ◌≢◌, refl, arith}
use esp_idf_matter.TempSensor.Clock.{
  UtcTime, TimeGranularity, TimeSource, Clock, Device, u64_mod, unix_us, set_system_time,
  known_clock, write_time, save_clock, granularity_of, matter_us, set_restored, restore_clock,
}

-- The values that the Matter specification gives the granularities.
abbrev pub value_of : TimeGranularity → ℕ
value_of TimeGranularity.no_time = 0
value_of TimeGranularity.minutes = 1
value_of TimeGranularity.seconds = 2
value_of TimeGranularity.milliseconds = 3
value_of TimeGranularity.microseconds = 4

granularity_of-value_of :
    (g : TimeGranularity) → g ≢ TimeGranularity.no_time → granularity_of (value_of g) ≡ some g
unfolding granularity_of
granularity_of-value_of TimeGranularity.no_time h = absurd (h refl)
granularity_of-value_of TimeGranularity.minutes h = refl
granularity_of-value_of TimeGranularity.seconds h = refl
granularity_of-value_of TimeGranularity.milliseconds h = refl
granularity_of-value_of TimeGranularity.microseconds h = refl

module _ {W : Type 0} (c : Clock W) where
  -- The system clock of a time, later by so many nanoseconds, read back.
  matter_us_lem :
      (t ns : ℕ)
      → t + c.matter_epoch_secs * 1000000 < u64_mod
      → t + ns / 1000 < u64_mod
      → matter_us c (some ((unix_us c t / 1000000 * 1000000 + unix_us c t % 1000000) * 1000 + ns))
        ≡ some (t + ns / 1000)
  unfolding matter_us unix_us
  matter_us_lem t ns h k = ground arith

  save_clock_eq :
      (d : Device W) (t : ℕ)
      → c.utc_time d.world ≡ UtcTime.reliable t
      → (set_system_time c t d.world).0 ≡ true
      → ((save_clock c d).world ≡ (set_system_time c t d.world).1)
        × ((save_clock c d).slept.granularity ≡ c.as_u8 (c.utc_time_granularity d.world))
  unfolding save_clock known_clock write_time
  save_clock_eq d t e f = ground arith

module _ {W : Type 0} (c : Clock W) (deep_sleep : ℕ → W → W)
    (as_u8_value : (g : TimeGranularity) → c.as_u8 g ≡ value_of g)
    (sets_clock : (secs us : ℕ) (w : W)
      → (c.settimeofday secs us w).0 ≡ true
      → c.unix_elapsed (c.settimeofday secs us w).1 ≡ some ((secs * 1000000 + us) * 1000))
    (keeps_clock : (ns n : ℕ) (w : W)
      → c.unix_elapsed w ≡ some n
      → c.unix_elapsed (deep_sleep ns w) ≡ some (n + ns)) where
  -- Where the device knows the time, the system clock takes it and runs on through the deep sleep,
  -- and the sums stay below 2^64: after the sleep `restore_clock` sets the time at which it went
  -- to sleep, later by the time slept, with the granularity it had and an unknown source.
  pub save_clock-restore_clock :
      (d : Device W) (t ns : ℕ)
      → c.utc_time d.world ≡ UtcTime.reliable t
      → c.utc_time_granularity d.world ≢ TimeGranularity.no_time
      → (set_system_time c t d.world).0 ≡ true
      → t + c.matter_epoch_secs * 1000000 < u64_mod
      → t + ns / 1000 < u64_mod
      → let g = c.utc_time_granularity d.world in
        let w = deep_sleep ns (save_clock c d).world in
        (restore_clock c (record (save_clock c d) { world = w })).world
        ≡ c.set_utc_time (t + ns / 1000) g TimeSource.unknown w
  unfolding restore_clock set_restored set_system_time
  save_clock-restore_clock d t ns known g written fits later =
      let (kept, granularity) = save_clock_eq c d t known written in
      let unix = unix_us c t in
      let elapsed : c.unix_elapsed (deep_sleep ns (save_clock c d).world)
          ≡ some ((unix / 1000000 * 1000000 + unix % 1000000) * 1000 + ns) =
        ground (
          arith,
          kept,
          sets_clock (unix / 1000000) (unix % 1000000) d.world written,
          keeps_clock ns ((unix / 1000000 * 1000000 + unix % 1000000) * 1000)
              (set_system_time c t d.world).1,
        ) in
      ground (
        arith,
        granularity,
        as_u8_value (c.utc_time_granularity d.world),
        granularity_of-value_of (c.utc_time_granularity d.world) g,
        elapsed,
        matter_us_lem c t ns fits later,
      )
