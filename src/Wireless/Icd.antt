-- ===== src/Wireless/Icd.antt =====
-- wireless/thread.rs: the sleepy end device of an intermittently connected device (ICD), its
-- keep-alives sized by the polling interval. Durations are `u32` and `u16` numbers; OpenThread is a
-- parameter.
pub mod Bounds
pub mod Follow
use Prim.Native.Nat.{ℕ, zero, suc, ◌+◌, ◌*◌, ◌/◌, ◌%◌, min, max}
use esp_idf_matter.Base.{
  Bool, true, false, ◌&&◌, Option, none, some, List, [], ◌∷◌, ◌==◌, if◌then◌else◌, Exec, Result, ok,
  err, panic, pure, skip, map_err, ◌>>=◌, ◌>>◌,
}
use esp_idf_matter.Error.{EspError, ErrorCode, to_net_error}

abbrev pub u32_max : ℕ
u32_max = 4294967295

abbrev pub u16_max : ℕ
u16_max = 65535

abbrev pub child_timeout_default_s : ℕ
child_timeout_default_s = 240

abbrev pub child_timeout_margin_s : ℕ
child_timeout_margin_s = 30

abbrev pub child_supervision_interval_s : ℕ
child_supervision_interval_s = 129

abbrev pub child_supervision_check_timeout_default_s : ℕ
child_supervision_check_timeout_default_s = 190

-- `u32::div_ceil`, `saturating_add`, `saturating_mul` and `clamp`.
abbrev pub div_ceil_1000 : ℕ → ℕ
div_ceil_1000 ms = if ms % 1000 == 0 then ms / 1000 else ms / 1000 + 1

abbrev pub saturating_add : ℕ → ℕ → ℕ
saturating_add a b = min (a + b) u32_max

abbrev pub saturating_mul : ℕ → ℕ → ℕ
saturating_mul a b = min (a * b) u32_max

abbrev pub clamp : ℕ → ℕ → ℕ → ℕ
clamp low high a = min (max a low) high

unfoldable pub child_timeout_s : ℕ → ℕ
child_timeout_s poll_period_ms =
    max (saturating_add (div_ceil_1000 poll_period_ms) child_timeout_margin_s)
      child_timeout_default_s

-- The cast to `u16` at the end keeps the low 16 bits.
unfoldable pub child_supervision_check_timeout_s : ℕ → ℕ
child_supervision_check_timeout_s poll_period_ms =
    clamp child_supervision_check_timeout_default_s u16_max (
      saturating_add child_supervision_interval_s (saturating_mul (div_ceil_1000 poll_period_ms) 2))
    % 65536

-- `IcdNetParams` of `rs-matter`: the modes as their numbers.
pub record IcdNetParams : Type 0 where
  pub power_mode : ℕ
  pub operating_mode : ℕ
  pub poll_interval_ms : ℕ
  pub max_poll_interval_ms : ℕ

unfoldable pub params_eq : IcdNetParams → IcdNetParams → Bool
params_eq p q =
    (p.power_mode == q.power_mode)
    && (p.operating_mode == q.operating_mode)
    && (p.poll_interval_ms == q.poll_interval_ms)
    && (p.max_poll_interval_ms == q.max_poll_interval_ms)

-- `applied.as_ref() != Some(&params)` does not hold.
unfoldable pub is_applied : Option IcdNetParams → IcdNetParams → Bool
is_applied none params = false
is_applied (some p) params = params_eq p params

-- The calls of `EspThread`, over the world.
pub record EspThread (W : Type 0) : Type 0 where
  pub set_link_mode : Bool → Bool → Bool → Exec EspError W (Unit {0})
  pub set_poll_period : ℕ → Exec EspError W (Unit {0})
  pub set_child_supervision_check_timeout : ℕ → Exec EspError W (Unit {0})
  pub set_child_timeout : ℕ → Exec EspError W (Unit {0})

-- A call whose error is one of the network layer.
abbrev pub net : {W : Type 0} → Exec EspError W (Unit {0}) → Exec ErrorCode W (Unit {0})
net m w = let (r, w') = m w in (map_err to_net_error r, w')

module _ {W : Type 0} (thread : EspThread W) where
  unfoldable pub apply_icd_params : IcdNetParams → Exec ErrorCode W (Unit {0})
  unfolding child_timeout_s child_supervision_check_timeout_s
  apply_icd_params params = do
    net (thread.set_poll_period params.poll_interval_ms)
    net (
        thread.set_child_supervision_check_timeout
          (child_supervision_check_timeout_s params.poll_interval_ms))
    net (thread.set_child_timeout (child_timeout_s params.max_poll_interval_ms))

  unfoldable pub configure_sed : IcdNetParams → Exec ErrorCode W (Unit {0})
  unfolding apply_icd_params
  configure_sed params = do net (thread.set_link_mode false false false); apply_icd_params params

  -- One round of the loop of `run_icd`.
  unfoldable pub follow :
      IcdNetParams → Option IcdNetParams → Exec ErrorCode W (Option IcdNetParams)
  unfolding is_applied
  follow params applied w =
      if is_applied applied params
      then (ok applied, w)
      else (do apply_icd_params params; pure (some params)) w

  -- The rounds of `run_icd`: the parameters that each finds when it wakes up.
  unfoldable pub run_icd :
      List IcdNetParams → Option IcdNetParams → Exec ErrorCode W (Option IcdNetParams)
  run_icd [] applied = pure applied
  run_icd (params ∷ later) applied = follow params applied >>= λ next. run_icd later next
