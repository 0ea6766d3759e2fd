-- ===== src/Wireless/Icd/Bounds.antt =====
-- The keep-alives of wireless/thread.rs against the polling interval.
use Prim.Native.Nat.{ℕ, ◌+◌, ◌*◌, ◌≤◌, ◌<◌}
use esp_idf_matter.Base.{◌≡◌, ◌⊎◌, ◌↔◌, arith}
use esp_idf_matter.Wireless.Icd.{
  child_timeout_s, child_supervision_check_timeout_s, u32_max, u16_max,
}

-- For every `u32` polling interval: the child timeout fits in a `u32`, is never below OpenThread's
-- 240 s, and exceeds the interval by at least 30 s; two intervals, one missed poll that is, exceed
-- it exactly when the interval is longer than 120 s; and the supervision check timeout stays between
-- 190 s and the largest `u16`, and unless it is the largest it covers the supervision interval of
-- 129 s and two polls.
pub timeouts_lem :
    (ms : ℕ)
    → ms ≤ u32_max
    → (child_timeout_s ms ≤ u32_max)
      × (240 ≤ child_timeout_s ms)
      × (ms + 30 * 1000 ≤ child_timeout_s ms * 1000)
      × ((child_timeout_s ms * 1000 < 2 * ms) ↔ (120000 < ms))
      × (190 ≤ child_supervision_check_timeout_s ms)
      × (child_supervision_check_timeout_s ms ≤ u16_max)
      × ((child_supervision_check_timeout_s ms ≡ u16_max)
          ⊎ (129 * 1000 + 2 * ms ≤ child_supervision_check_timeout_s ms * 1000))
unfolding child_timeout_s child_supervision_check_timeout_s
timeouts_lem ms h = ground arith
