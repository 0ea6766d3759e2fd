-- ===== src/Examples/Battery.antt =====
-- The main tasks of examples/trv_battery_thread.rs and temp_sensor_battery_thread.rs: the set-up,
-- and what comes once the handlers are chained.
use esp_idf_matter.Base.{Bool, true, false, List, [], ◌∷◌, ◌++◌}
use esp_idf_matter.Examples.{Pull, Tasks, Step, given}

-- With light sleep in the configuration of the build, or a warning in its place.
unfoldable pub radiator_valve_setup : Bool → List Step
radiator_valve_setup light_sleep =
    given light_sleep Step.enable_light_sleep
    ++ Step.take_sysloop
      ∷ Step.take_nvs
      ∷ Step.take_peripherals
      ∷ Step.mount_eventfs 6
      ∷ Step.init_async_io
      ∷ Step.weak_rand
      ∷ []

unfoldable pub radiator_valve_tasks : List Step
radiator_valve_tasks =
    Step.new_store
    ∷ Step.startup
    ∷ Step.input_pin Pull.up
    ∷ Step.run_tasks Tasks.matter_or_reset
    ∷ Step.reset
    ∷ Step.restart
    ∷ []

unfoldable pub radiator_valve : Bool → List Step
unfolding radiator_valve_setup radiator_valve_tasks
radiator_valve light_sleep = radiator_valve_setup light_sleep ++ radiator_valve_tasks

-- What the chip woke up from; `other` also stands for a cold boot.
pub data WakeupCause : Type 0 where
  timer ext1 other : WakeupCause

unfoldable pub woken : WakeupCause → Bool
woken WakeupCause.timer = true
woken WakeupCause.ext1 = true
woken WakeupCause.other = false

unfoldable pub temperature_sensor_setup : List Step
temperature_sensor_setup =
    Step.take_sysloop
    ∷ Step.take_nvs
    ∷ Step.take_peripherals
    ∷ Step.mount_eventfs 6
    ∷ Step.init_async_io
    ∷ Step.weak_rand
    ∷ Step.count_wake
    ∷ []

unfoldable pub temperature_sensor_tasks : WakeupCause → List Step
unfolding woken
temperature_sensor_tasks cause =
    Step.new_store ∷ Step.startup ∷ given (woken cause) Step.restore_clock
    ++ Step.input_pin Pull.up
      ∷ Step.run_tasks Tasks.matter_sleep_or_reset
      ∷ Step.reset
      ∷ Step.restart
      ∷ []

unfoldable pub temperature_sensor : WakeupCause → List Step
unfolding temperature_sensor_setup temperature_sensor_tasks
temperature_sensor cause = temperature_sensor_setup ++ temperature_sensor_tasks cause
