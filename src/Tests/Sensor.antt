-- ===== src/Tests/Sensor.antt =====
-- The battery examples over small worlds: a clock that counts nanoseconds, a device that is idle
-- from some time on, and a button.
use esp_idf_matter.Base.{
  ℕ, zero, suc, ◌/◌, repeat, ◌+◌, ◌*◌, ◌-◌, ◌<◌, ◌≤◌, ◌≡◌, ◌↔◌, ◌≢◌, refl, Bool, true, false, none,
  some, [], ◌∷◌, Result, ok, Rounds, arith,
}
use esp_idf_matter.Error.{EspError}
use esp_idf_matter.TempSensor.Clock.{
  UtcTime, TimeGranularity, TimeSource, Clock, Device, time_sync_every_us, save_clock,
  restore_clock, time_sync_due, unknown_clock,
}
use esp_idf_matter.TempSensor.Clock.Kept.{value_of, save_clock-restore_clock}
use esp_idf_matter.TempSensor.Clock.Due.{woken, SetAt, time_sync_due_lem}
use esp_idf_matter.TempSensor.Sleep.{Icd, idle_round, deep_sleep_when_idle, fall_asleep, sleep_ms}
use esp_idf_matter.TempSensor.Sleep.Ready.{deep_sleep_when_idle_lem}
use esp_idf_matter.TempSensor.Sleep.Calls.{Logged, logged, ready, IsReady, traces, FallsAsleep}
use esp_idf_matter.Button.{Pin, reset_round, wait_reset, if_low, check_held}
use esp_idf_matter.Button.Held.{IsLast, is_low_for, wait_reset_lem}

-- The system clock in nanoseconds, and what `rs-matter` knows of the time.
abbrev World : Type 0
World = ℕ × UtcTime × TimeSource

abbrev clock : Clock World
clock = record {
  matter_epoch_secs = 946684800;
  as_u8 = value_of;
  utc_time = λ w. w.1;
  utc_time_source = λ w. w.2;
  utc_time_granularity = λ w. TimeGranularity.milliseconds;
  set_utc_time = λ t g source w. (w.0, UtcTime.reliable t, source);
  settimeofday = λ secs us w. (true, ((secs * 1000000 + us) * 1000, w.1, w.2));
  unix_elapsed = λ w. some w.0;
}

-- The time of the clock of `rs-matter` is gone after it.
abbrev sleeps : ℕ → World → World
sleeps ns w = (w.0 + ns, UtcTime.last_known 0, TimeSource.no_source)

abbrev at_work : World
at_work = (0, UtcTime.reliable 800000000000000, TimeSource.other 3)

abbrev before_sleep : Device World
before_sleep = record { slept = unknown_clock clock; world = at_work }

save_clock-restore_clock_example :
    let w = sleeps 300000000000 (save_clock clock before_sleep).world in
    (restore_clock clock (record (save_clock clock before_sleep) { world = w })).world
    ≡ (w.0, UtcTime.reliable (800000000000000 + 300000000000 / 1000), TimeSource.unknown)
unfolding save_clock
save_clock-restore_clock_example =
    save_clock-restore_clock clock sleeps (λ g. refl) (λ secs us w e. refl)
      (λ ns n w e. ground (arith, e)) before_sleep 800000000000000 300000000000 refl
      (λ same. ground arith) refl (omega arith) (omega arith)

-- An hour after the sleep.
abbrev an_hour_later : World
an_hour_later = (0, UtcTime.reliable 800003600000000, TimeSource.unknown)

time_sync_due_lem_example :
    (time_sync_due clock (woken clock (at_work ∷ []) an_hour_later) ≡ false) ↔ (
      (u : ℕ) × (now : ℕ) × (UtcTime.reliable 800003600000000 ≡ UtcTime.reliable now)
      × (u ≢ 0)
      × SetAt clock (at_work ∷ []) u
      × (now ≤ u + time_sync_every_us))
time_sync_due_lem_example = time_sync_due_lem clock (at_work ∷ []) an_hour_later

abbrev fine : World → Result EspError (Unit {0}) × World
fine w = (ok tt, w)

-- Idle and a LIT from the start, with the next poll a minute away.
abbrev icd : Icd World
icd = record {
  clock = clock;
  wait_idle = λ w. w;
  wait_active = λ w. w;
  is_sit = λ w. false;
  is_idle = λ w. true;
  poll_interval_ms = λ w. 60000;
  idle_until = λ w. none;
  now = λ w. w.0;
  as_millis = λ t. t;
  after_millis = λ ms w. w;
  esp_sleep_enable_timer_wakeup = λ us. fine;
  esp_sleep_enable_ext1_wakeup_io = λ mask. fine;
  gpio_pullup_en = λ pin. fine;
  gpio_pulldown_dis = λ pin. fine;
  esp_deep_sleep_start = λ w. w;
  wake_gpio = 4;
}

abbrev before_calls : Device (Logged World)
before_calls = record {
  slept = unknown_clock clock;
  world = record { inner = at_work; calls = []; is_failed = false };
}

deep_sleep_when_idle_lem_example :
    (deep_sleep_when_idle (logged icd) 2 before_calls
      ≡ some ((fall_asleep (logged icd) before_calls).0, (fall_asleep (logged icd) before_calls).1))
    ↔ ((n : ℕ) × (t : Device (Logged World)) × (n < 2)
        × Rounds (idle_round (logged icd)) n before_calls t
        × IsReady icd t
        × (traces icd t ≡ traces icd before_calls)
        × FallsAsleep icd
            (ready icd t)
            (fall_asleep (logged icd) before_calls).0
            (fall_asleep (logged icd) before_calls).1
        × (fall_asleep (logged icd) (ready icd t) ≡ fall_asleep (logged icd) before_calls))
deep_sleep_when_idle_lem_example =
    deep_sleep_when_idle_lem icd (λ w. omega arith) 2 before_calls
      (fall_asleep (logged icd) before_calls).1 (fall_asleep (logged icd) before_calls).0

-- It does fall asleep, in the first round and for a minute.
falls_asleep :
    (deep_sleep_when_idle icd 1 before_sleep ≡ some (fall_asleep icd before_sleep))
    × (sleep_ms icd at_work ≡ 60000)
unfolding deep_sleep_when_idle repeat idle_round sleep_ms
falls_asleep = (refl, refl)

-- A button that is held all the time; the world is the time in milliseconds.
abbrev pressed : Pin ℕ
pressed = record {
  wait_for_low = λ w. (ok tt, w);
  is_low = λ w. true;
  after_millis = λ ms w. w + ms;
  high_or_after_secs = λ secs w. (true, w + secs * 1000);
}

abbrev low : ℕ → Bool
low t = false

low_for : (start n : ℕ) → is_low_for low start n ≡ true
unfolding is_low_for
low_for start zero = refl
low_for start (suc n) = low_for (suc start) n

wait_reset_lem_example : (wait_reset pressed 2 10 ≡ some (ok tt, 3060)) ↔ (
    (n : ℕ) × (t : ℕ) × (n < 2)
    × Rounds (reset_round pressed) n 10 t
    × IsLast pressed
        (λ w. w)
        low
        (λ w. tt)
        (λ secs w e. (omega arith, low_for w (w + secs * 1000 - w)))
        t
        (ok tt)
        3060)
wait_reset_lem_example =
    wait_reset_lem pressed (λ w. w) low (λ w. tt)
      (λ secs w e. (omega arith, low_for w (w + secs * 1000 - w))) 2 10 3060 (ok tt)

resolves : wait_reset pressed 1 10 ≡ some (ok tt, 3060)
unfolding wait_reset repeat reset_round if_low check_held
resolves = refl
