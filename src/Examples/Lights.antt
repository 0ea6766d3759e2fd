-- ===== src/Examples/Lights.antt =====
-- The main tasks of examples/light_eth.rs, light_eth2.rs, light_thread.rs, light_wifi.rs and
-- light_wifi_persistent.rs: the set-up, and what comes once the handlers are chained.
use esp_idf_matter.Base.{Bool, true, List, [], ◌∷◌, ◌++◌}
use esp_idf_matter.Examples.{Pull, Tasks, Step, given}

-- Wifi is brought up before the stack.
unfoldable pub light_eth_setup : List Step
light_eth_setup =
    Step.take_sysloop
    ∷ Step.take_nvs
    ∷ Step.take_peripherals
    ∷ Step.mount_eventfs 3
    ∷ Step.init_async_io
    ∷ Step.esp_wifi_new
    ∷ Step.new_timer_service
    ∷ Step.async_wifi_wrap
    ∷ Step.set_configuration
    ∷ Step.wifi_start
    ∷ Step.wifi_connect
    ∷ Step.create_ip6_linklocal
    ∷ Step.wait_netif_up
    ∷ Step.weak_rand
    ∷ []

unfoldable pub light_eth_tasks : List Step
light_eth_tasks = Step.startup ∷ Step.run_tasks Tasks.matter ∷ []

unfoldable pub light_eth : List Step
unfolding light_eth_setup light_eth_tasks
light_eth = light_eth_setup ++ light_eth_tasks

-- Thread is brought up before the stack.
unfoldable pub light_eth2_setup : List Step
light_eth2_setup =
    Step.take_sysloop
    ∷ Step.take_nvs
    ∷ Step.take_peripherals
    ∷ Step.mount_eventfs 6
    ∷ Step.init_async_io
    ∷ Step.esp_thread_new
    ∷ Step.set_tod_hexstr
    ∷ Step.enable_ipv6 true
    ∷ Step.enable_thread true
    ∷ Step.thread_start
    ∷ Step.weak_rand
    ∷ []

unfoldable pub light_eth2_tasks : List Step
light_eth2_tasks = Step.startup ∷ Step.run_tasks Tasks.matter ∷ []

unfoldable pub light_eth2 : List Step
unfolding light_eth2_setup light_eth2_tasks
light_eth2 = light_eth2_setup ++ light_eth2_tasks

-- With the feature `examples-heap-monitor` or not, and with Bluedroid or not.
unfoldable pub light_thread_setup : Bool → Bool → List Step
light_thread_setup heap_monitor bluedroid =
    Step.take_sysloop
      ∷ Step.take_nvs
      ∷ Step.take_peripherals
      ∷ Step.mount_eventfs 6
      ∷ Step.init_async_io
      ∷ given heap_monitor Step.spawn_heap_monitor
    ++ given bluedroid Step.reduce_bt_memory
    ++ Step.weak_rand ∷ []

unfoldable pub light_thread_tasks : List Step
light_thread_tasks = Step.startup ∷ Step.fill_host_eui64 ∷ Step.run_tasks Tasks.matter ∷ []

unfoldable pub light_thread : Bool → Bool → List Step
unfolding light_thread_setup light_thread_tasks
light_thread heap_monitor bluedroid =
    light_thread_setup heap_monitor bluedroid ++ light_thread_tasks

unfoldable pub light_wifi_setup : Bool → List Step
light_wifi_setup bluedroid =
    Step.take_sysloop
      ∷ Step.new_timer_service
      ∷ Step.take_nvs
      ∷ Step.take_peripherals
      ∷ Step.mount_eventfs 3
      ∷ Step.init_async_io
      ∷ given bluedroid Step.reduce_bt_memory
    ++ Step.weak_rand ∷ []

unfoldable pub light_wifi_tasks : List Step
light_wifi_tasks = Step.startup ∷ Step.run_tasks Tasks.matter ∷ []

unfoldable pub light_wifi : Bool → List Step
unfolding light_wifi_setup light_wifi_tasks
light_wifi bluedroid = light_wifi_setup bluedroid ++ light_wifi_tasks

unfoldable pub light_wifi_persistent_setup : Bool → List Step
light_wifi_persistent_setup bluedroid =
    Step.take_sysloop
      ∷ Step.new_timer_service
      ∷ Step.take_nvs
      ∷ Step.take_peripherals
      ∷ Step.mount_eventfs 3
      ∷ Step.init_async_io
      ∷ given bluedroid Step.reduce_bt_memory
    ++ Step.weak_rand ∷ []

unfoldable pub light_wifi_persistent_tasks : List Step
light_wifi_persistent_tasks =
    Step.new_store
    ∷ Step.startup
    ∷ Step.input_pin Pull.down
    ∷ Step.run_tasks Tasks.matter_or_reset
    ∷ Step.reset
    ∷ Step.restart
    ∷ []

unfoldable pub light_wifi_persistent : Bool → List Step
unfolding light_wifi_persistent_setup light_wifi_persistent_tasks
light_wifi_persistent bluedroid =
    light_wifi_persistent_setup bluedroid ++ light_wifi_persistent_tasks
