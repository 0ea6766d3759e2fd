-- ===== src/TempSensor/Reading.antt =====
-- The simulated reading of examples/temp_sensor_battery_thread.rs and the attributes that serve it.
-- An `i16` is its bit pattern, below 2 ^ 16.
use esp_idf_matter.Base.{
  ℕ, ◌+◌, ◌-◌, ◌*◌, ◌%◌, ◌^◌, ◌≤◌, ◌<◌, Bool, ltb, if◌then◌else◌, ◌≡◌, ◌⊎◌, arith,
}

abbrev pub i16_mod : ℕ
i16_mod = 2 ^ 16

-- The order of `i16` on its bit patterns.
abbrev pub i16_key : ℕ → ℕ
i16_key a = (a + 2 ^ 15) % i16_mod

abbrev pub i16_lt : ℕ → ℕ → Bool
i16_lt a b = ltb (i16_key a) (i16_key b)

abbrev pub base : ℕ
base = 2100

abbrev pub steps : ℕ
steps = 20

-- `wrapping_add` of the counter in the RTC memory, a `u32`.
unfoldable pub next_wake_count : ℕ → ℕ
next_wake_count count = (count + 1) % 2 ^ 32

unfoldable pub simulated_reading : ℕ → ℕ
simulated_reading wake_count =
    let step = wake_count % (2 * steps) % i16_mod in
    let delta = if i16_lt step steps then step else (2 * steps + i16_mod - step) % i16_mod in
    (base + delta * 25 % i16_mod) % i16_mod

-- -4000 and 8500.
unfoldable pub min_measured_value : ℕ
min_measured_value = i16_mod - 4000

unfoldable pub max_measured_value : ℕ
max_measured_value = 8500

-- Every reading lies between 21 and 26 °C, within the limits that the sensor reports. The next
-- wake-up reads a quarter of a degree more or less, but for the one at which the counter wraps
-- around: that one jumps from 24.75 °C to 21 °C.
pub simulated_reading_lem :
    (wake_count : ℕ)
    → wake_count < 2 ^ 32
    → let r = simulated_reading wake_count in
      let r' = simulated_reading (next_wake_count wake_count) in
      (2100 ≤ r)
      × (r ≤ 2600)
      × (i16_key min_measured_value ≤ i16_key r)
      × (i16_key r ≤ i16_key max_measured_value)
      × ((r' ≡ r + 25) ⊎ (r ≡ r' + 25) ⊎ ((wake_count ≡ 2 ^ 32 - 1) × (r ≡ 2475) × (r' ≡ 2100)))
unfolding simulated_reading next_wake_count min_measured_value max_measured_value
simulated_reading_lem wake_count h = ground arith
