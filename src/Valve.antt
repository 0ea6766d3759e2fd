-- ===== src/Valve.antt =====
-- The simulated radiator valve of examples/trv_battery_thread.rs. An `i16` is its bit pattern.
use esp_idf_matter.Base.{ℕ, Bool, true, false, ◌&&◌, ◌≡◌, Option, some, if◌then◌else◌, arith}
use esp_idf_matter.TempSensor.Reading.{i16_lt}

-- `SystemModeEnum` of `rs-matter`; `other` stands for the modes that the example does not name.
pub data SystemMode : Type 0 where
  off heat : SystemMode
  other : ℕ → SystemMode

-- `RelayStateBitmap`: the bit for heating, or none.
pub data RelayState : Type 0 where
  heat empty : RelayState

pub record ValveState : Type 0 where
  pub system_mode : SystemMode
  pub heating_setpoint : ℕ
  pub local_temperature : ℕ

unfoldable pub new : ValveState
new = record { system_mode = SystemMode.off; heating_setpoint = 2000; local_temperature = 1950 }

unfoldable pub is_heat : SystemMode → Bool
is_heat SystemMode.off = false
is_heat SystemMode.heat = true
is_heat (SystemMode.other n) = false

unfoldable pub heating : ValveState → Bool
unfolding is_heat
heating s = is_heat s.system_mode && i16_lt s.local_temperature s.heating_setpoint

unfoldable pub local_temperature : ValveState → Option ℕ
local_temperature s = some s.local_temperature

unfoldable pub running_state : ValveState → RelayState
unfolding heating
running_state s = if heating s then RelayState.heat else RelayState.empty

-- The cooling setpoint is not used.
unfoldable pub apply : SystemMode → ℕ → ℕ → ValveState → ValveState
apply system_mode heating_setpoint cooling_setpoint s = record s {
  system_mode = system_mode;
  heating_setpoint = heating_setpoint;
}

-- After `apply`, whatever was set before, the valve is open exactly in the mode to heat with the
-- room below the new setpoint, and the temperature of the room is reported as it was.
apply-running_state :
    (mode : SystemMode) (heating_setpoint cooling_setpoint : ℕ) (s : ValveState)
    → let s' = apply mode heating_setpoint cooling_setpoint s in
      (running_state s' ≡ (
        if is_heat mode && i16_lt s.local_temperature heating_setpoint
        then RelayState.heat
        else RelayState.empty))
      × (local_temperature s' ≡ local_temperature s)
unfolding apply running_state local_temperature
apply-running_state mode heating_setpoint cooling_setpoint s = ground arith
