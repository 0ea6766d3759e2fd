-- ===== src/TempSensor/Sleep/Calls.antt =====
-- The calls with which `deep_sleep` of examples/temp_sensor_battery_thread.rs puts the chip to sleep,
-- and what becomes of the clock then.
use esp_idf_matter.Base.{
  ℕ, suc, ◌*◌, ◌%◌, ◌^◌, List, [], ◌∷◌, Bool, ◌≢◌, Exec, ok, not, ◌||◌, is_ok, inl, inr, ◌≤◌, ◌<◌,
  true, false, ◌≡◌, refl, ◌⊎◌, Result, arith,
}
use esp_idf_matter.Error.{EspError, ErrorCode}
use esp_idf_matter.TempSensor.Clock.{Clock, Device, SleptClock, save_clock, u64_mod}
use esp_idf_matter.TempSensor.Sleep.{
  Icd, deep_sleep, sleep_ms, idle_left, fall_asleep, idling, settled,
}

-- What programs the sleep, and the system clock.
pub data SleepCall : Type 0 where
  set_time : (secs us : ℕ) → SleepCall
  timer_wakeup : (us : ℕ) → SleepCall
  ext1_wakeup : (mask : ℕ) → SleepCall
  pullup pulldown_off : (pin : ℕ) → SleepCall
  deep_sleep_start : SleepCall

-- The world with those calls, the last one first, and whether one that programs the sleep failed.
pub record Logged (W : Type 0) : Type 0 where
  pub inner : W
  pub calls : List SleepCall
  pub is_failed : Bool

module _ {W : Type 0} where
  abbrev noted : SleepCall → Exec EspError W (Unit {0}) → Exec EspError (Logged W) (Unit {0})
  noted call m s =
      let (r, w) = m s.inner in
      (r, record { inner = w; calls = call ∷ s.calls; is_failed = s.is_failed || not (is_ok r) })

  abbrev kept : (W → W) → Logged W → Logged W
  kept f s = record s { inner = f s.inner }

  unfoldable pub logged_clock : Clock W → Clock (Logged W)
  logged_clock c = record {
    matter_epoch_secs = c.matter_epoch_secs;
    as_u8 = c.as_u8;
    utc_time = λ s. c.utc_time s.inner;
    utc_time_source = λ s. c.utc_time_source s.inner;
    utc_time_granularity = λ s. c.utc_time_granularity s.inner;
    set_utc_time = λ t g source. kept (c.set_utc_time t g source);
    settimeofday = λ secs us s.
        let (fine, w) = c.settimeofday secs us s.inner in
        (fine, record s { inner = w; calls = SleepCall.set_time secs us ∷ s.calls });
    unix_elapsed = λ s. c.unix_elapsed s.inner;
  }

  unfoldable pub logged : Icd W → Icd (Logged W)
  unfolding logged_clock
  logged p = record {
    clock = logged_clock p.clock;
    wait_idle = kept p.wait_idle;
    wait_active = kept p.wait_active;
    is_sit = λ s. p.is_sit s.inner;
    is_idle = λ s. p.is_idle s.inner;
    poll_interval_ms = λ s. p.poll_interval_ms s.inner;
    idle_until = λ s. p.idle_until s.inner;
    now = λ s. p.now s.inner;
    as_millis = p.as_millis;
    after_millis = λ ms. kept (p.after_millis ms);
    esp_sleep_enable_timer_wakeup =
        λ us. noted (SleepCall.timer_wakeup us) (p.esp_sleep_enable_timer_wakeup us);
    esp_sleep_enable_ext1_wakeup_io =
        λ mask. noted (SleepCall.ext1_wakeup mask) (p.esp_sleep_enable_ext1_wakeup_io mask);
    gpio_pullup_en = λ pin. noted (SleepCall.pullup pin) (p.gpio_pullup_en pin);
    gpio_pulldown_dis = λ pin. noted (SleepCall.pulldown_off pin) (p.gpio_pulldown_dis pin);
    esp_deep_sleep_start = λ s. record s {
      inner = p.esp_deep_sleep_start s.inner;
      calls = SleepCall.deep_sleep_start ∷ s.calls;
    };
    wake_gpio = p.wake_gpio;
  }

-- How often a sleep starts.
abbrev pub starts : List SleepCall → ℕ
starts [] = 0
starts (SleepCall.deep_sleep_start ∷ calls) = suc (starts calls)
starts (SleepCall.set_time secs us ∷ calls) = starts calls
starts (SleepCall.timer_wakeup us ∷ calls) = starts calls
starts (SleepCall.ext1_wakeup mask ∷ calls) = starts calls
starts (SleepCall.pullup pin ∷ calls) = starts calls
starts (SleepCall.pulldown_off pin ∷ calls) = starts calls

module _ {W : Type 0} (p : Icd W) where
  -- The state in which a round comes to its second test.
  abbrev pub ready : Device (Logged W) → Device (Logged W)
  ready d = settled (logged p) (idling (logged p) d)

  -- Idle, as a LIT and after the time to settle too.
  abbrev pub IsReady : Device (Logged W) → Type 0
  IsReady d =
      (p.is_sit (idling (logged p) d).world.inner ≡ false)
      × (p.is_idle (ready d).world.inner ≡ true)

  -- What a sleep leaves behind.
  abbrev pub traces : Device (Logged W) → SleptClock × List SleepCall × Bool
  traces d = (d.slept, d.world.calls, d.world.is_failed)

  -- As long as neither the next poll nor the end of the idle period comes, and at least a second.
  abbrev pub IsBounded : ℕ → W → Type 0
  IsBounded ms w =
      let poll = p.poll_interval_ms w in
      let left = idle_left p (p.idle_until w) w in
      ((ms ≡ 1000) × ((poll ≤ 1000) ⊎ (left ≤ 1000)))
      ⊎ ((1000 ≤ ms) × (ms ≤ poll) × (ms ≤ left) × ((ms ≡ poll) ⊎ (ms ≡ left)))

  -- The calls of a sleep, after those before: the timer, the pin, and the sleep itself at last.
  abbrev pub sleep_calls : ℕ → List SleepCall → List SleepCall
  sleep_calls ms calls =
      SleepCall.deep_sleep_start
      ∷ SleepCall.pulldown_off p.wake_gpio
      ∷ SleepCall.pullup p.wake_gpio
      ∷ SleepCall.ext1_wakeup (2 ^ p.wake_gpio)
      ∷ SleepCall.timer_wakeup (ms * 1000)
      ∷ calls

  -- Falling asleep: the clock is saved, in the memory and in the system clock, and the chip sleeps
  -- for a bounded time; or a call that programs the sleep fails, and the chip does not sleep.
  abbrev pub FallsAsleep :
      Device (Logged W) → Result ErrorCode (Unit {0}) → Device (Logged W) → Type 0
  FallsAsleep t r d' =
      let saved = save_clock (logged p).clock t in
      (d'.slept ≡ saved.slept)
      × (d'.world.is_failed ≡ (t.world.is_failed || not (is_ok r)))
      × (((r ≡ ok tt)
            × ((ms : ℕ) × IsBounded ms t.world.inner
                × (d'.world.calls ≡ sleep_calls ms saved.world.calls)))
          ⊎ ((r ≢ ok tt) × (starts d'.world.calls ≡ starts t.world.calls)))

  sleep_ms-IsBounded : (s : Logged W) → IsBounded (sleep_ms (logged p) s) s.inner
  unfolding sleep_ms logged idle_left
  sleep_ms-IsBounded s = ground arith

  sleep_ms-fits :
      (s : Logged W)
      → p.poll_interval_ms s.inner < 2 ^ 32
      → sleep_ms (logged p) s * 1000 % u64_mod ≡ sleep_ms (logged p) s * 1000
  unfolding sleep_ms logged
  sleep_ms-fits s h = omega arith

  save_clock-starts :
      (t : Device (Logged W))
      → let saved = save_clock (logged p).clock t in
        (saved.world.is_failed ≡ t.world.is_failed)
        × (starts saved.world.calls ≡ starts t.world.calls)
  unfolding save_clock logged
  save_clock-starts t = ground arith

  deep_sleep-sleep_calls :
      (ms : ℕ) (s : Logged W)
      → ms * 1000 % u64_mod ≡ ms * 1000
      → let (r, s') = deep_sleep (logged p) ms s in
        (s'.is_failed ≡ (s.is_failed || not (is_ok r)))
        × (((r ≡ ok tt) × (s'.calls ≡ sleep_calls ms s.calls))
            ⊎ ((is_ok r ≡ false) × (starts s'.calls ≡ starts s.calls)))
  unfolding deep_sleep logged
  deep_sleep-sleep_calls ms s h = ground arith

  pub fall_asleep-FallsAsleep :
      (t : Device (Logged W))
      → p.poll_interval_ms t.world.inner < 2 ^ 32
      → let (r, d') = fall_asleep (logged p) t in FallsAsleep t r d'
  unfolding fall_asleep
  fall_asleep-FallsAsleep t h =
      let saved = save_clock (logged p).clock t in
      let ms = sleep_ms (logged p) t.world in
      let (failed, ended) = deep_sleep-sleep_calls ms saved.world (sleep_ms-fits t.world h) in
      let before = save_clock-starts t in
      (
        refl,
        ground (arith, failed, before),
        elim ended [
          | inl (e, calls) ↦ inl (ground arith, (ms, sleep_ms-IsBounded t.world, calls))
          | inr (e, none) ↦ inr (λ same. ground arith, ground (arith, before))
        ],
      )
