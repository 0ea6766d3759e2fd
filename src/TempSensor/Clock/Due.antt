-- ===== src/TempSensor/Clock/Due.antt =====
-- When examples/temp_sensor_battery_thread.rs asks the Trusted Time Source for the time, over any
-- sequence of deep sleeps since a cold boot.
use esp_idf_matter.Base.{
  ℕ, ◌+◌, ◌≤◌, true, false, List, [], ◌∷◌, ◌≡◌, ◌≢◌, ◌⊎◌, inl, inr, ◌↔◌, refl, arith,
}
use esp_idf_matter.TempSensor.Clock.{
  UtcTime, Clock, SleptClock, Device, time_sync_every_us, is_set, unknown_clock, set_system_time,
  known_clock, write_time, save_clock, is_due, time_sync_due,
}

UtcTime-cases :
    (t : UtcTime) → ((u : ℕ) × (t ≡ UtcTime.reliable u)) ⊎ ((u : ℕ) × (t ≡ UtcTime.last_known u))
UtcTime-cases (UtcTime.reliable u) = inl (u, refl)
UtcTime-cases (UtcTime.last_known u) = inr (u, refl)

module _ {W : Type 0} (c : Clock W) where
  -- What the RTC memory holds after the sleeps that the device went to in these worlds, the latest
  -- first.
  unfoldable pub slept_after : List W → SleptClock
  slept_after [] = unknown_clock c
  slept_after (w ∷ before) = (save_clock c (record { slept = slept_after before; world = w })).slept

  abbrev pub woken : List W → W → Device W
  woken ws w = record { slept = slept_after ws; world = w }

  -- The system clock took the time of the world.
  abbrev IsSaved : W → ℕ → Type 0
  IsSaved w t = (c.utc_time w ≡ UtcTime.reliable t) × ((set_system_time c t w).0 ≡ true)

  -- The latest sleep with the time from a real source was at that time, and no sleep since has
  -- lost it.
  unfoldable pub SetAt : List W → ℕ → Type 0
  SetAt [] u = ⊥
  SetAt (w ∷ before) u =
      (IsSaved w u × (is_set (c.utc_time_source w) ≡ true))
      ⊎ ((t : ℕ) × IsSaved w t × (is_set (c.utc_time_source w) ≡ false) × SetAt before u)

  slept_after_lem : (ws : List W) (u : ℕ) → u ≢ 0 → ((slept_after ws).set_utc_us ≡ u) ↔ SetAt ws u
  unfolding slept_after SetAt save_clock known_clock write_time unknown_clock
  slept_after_lem [] u h = ground arith
  slept_after_lem (w ∷ ws) u h = ground (arith, slept_after_lem ws u h)

  -- After any deep sleeps since a cold boot, the time is not asked for exactly where the device
  -- knows it, and at most a day has passed since the latest sleep to which it went with a time of
  -- a real source, with the time kept at every sleep since.
  pub time_sync_due_lem :
      (ws : List W) (w : W)
      → (time_sync_due c (woken ws w) ≡ false) ↔ (
          (u : ℕ) × (now : ℕ) × (c.utc_time w ≡ UtcTime.reliable now)
          × (u ≢ 0)
          × SetAt ws u
          × (now ≤ u + time_sync_every_us))
  unfolding time_sync_due is_due
  time_sync_due_lem ws w = (
    λ no. elim (UtcTime-cases (c.utc_time w)) [
      | inr (t, e) ↦ absurd (ground arith)
      | inl (now, e) ↦
          let u = (slept_after ws).set_utc_us in
          let set : u ≢ 0 = ground arith in
          (u, now, e, set, (slept_after_lem ws u set).0 refl, ground arith)
    ],
    λ (u, now, e, set, at, day). ground (arith, (slept_after_lem ws u set).1 at),
  )
