-- ===== src/Examples.antt =====
-- src/examples/: the main tasks, `matter` of each example, as the lists of their steps. What a step
-- does is a parameter; the values that the steps pass on are part of the world.
pub mod Lights
pub mod Battery
pub mod Order
use esp_idf_matter.Base.{ℕ, Bool, List, [], ◌∷◌, Exec, ◌>>◌, skip, if◌then◌else◌}

pub data Pull : Type 0 where
  up down : Pull

-- What the main task waits for at its end: the stack alone, or with others beside it.
pub data Tasks : Type 0 where
  matter matter_or_reset matter_sleep_or_reset : Tasks

-- The steps that may fail or that change what is outside, by the names of the calls.
pub data Step : Type 0 where
  enable_light_sleep take_sysloop new_timer_service take_nvs take_peripherals : Step
  mount_eventfs : ℕ → Step
  init_async_io spawn_heap_monitor reduce_bt_memory weak_rand : Step
  esp_wifi_new async_wifi_wrap set_configuration wifi_start wifi_connect : Step
  create_ip6_linklocal wait_netif_up : Step
  esp_thread_new set_tod_hexstr : Step
  enable_ipv6 enable_thread : Bool → Step
  thread_start : Step
  count_wake new_store startup restore_clock fill_host_eui64 : Step
  input_pin : Pull → Step
  run_tasks : Tasks → Step
  reset restart : Step

-- A step that is there under a condition, a feature or what the chip woke up from.
abbrev pub given : Bool → Step → List Step
given b step = if b then step ∷ [] else []

module _ {E W : Type 0} (perform : Step → Exec E W (Unit {0})) where
  -- Each step in turn, up to the first one that fails.
  unfoldable pub run_steps : List Step → Exec E W (Unit {0})
  run_steps [] = skip
  run_steps (step ∷ rest) = perform step >> run_steps rest
