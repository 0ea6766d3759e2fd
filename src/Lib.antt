-- ===== src/Lib.antt =====
-- A model of the crate `esp-idf-matter`, which runs the Matter stack of `rs-matter` over ESP-IDF,
-- with theorems about it. Every path below is from the repository's root.
--
-- The parts, and the files that model them:
--
-- * The BLE peripherals, which carry the packets of BTP, the Bluetooth transport of Matter,
--   between the GATT server and the BTP engine of `rs-matter`. src/ble/bluedroid.rs stands on
--   Bluedroid and is modelled by Ble/Bluedroid: State has `Connection`, `State` and
--   `EspBtpGattContext` as records; Changes and Gatts have the handlers of `GattEventContext`,
--   first what they change under the lock, then the calls around it; Setup has the creation and
--   the start of `run`; Pumps has one round each of `process_incoming` and `process_outgoing`.
--   src/ble/nimble.rs stands on NimBLE and is modelled by Ble/Nimble in the same way, its hooks in
--   Hooks. A signal of the code is a Boolean, whether a notification is pending. Both have System,
--   the events and pump rounds in any order; Session, about the BTP session; Writes, about the way
--   of a packet; and Wake, about the waits of the pumps, with Frame for NimBLE. Ble/Btp is the
--   engine, a parameter, and Ble/Watch has the instruments that the theorems of both observe it
--   with.
-- * The BLE central of src/ble/nimble.rs is modelled by Ble/Central: State and Hooks as above;
--   Pumps, one round each; Run, the phases of `EspBtpGattClient::run`, one before each
--   `wait_state` and one before the code that follows it; System, all of them in any order. Setup,
--   Quiet, Flow, Wake, Ending, Handshake, Indications and Subscribe prove, over the calls that Log
--   notes where they need them.
-- * src/netif.rs is modelled by Netif: Addr has the addresses, Info the cache `NetifInfoOwned` and
--   the choice of addresses, Conf the query `get_netif_conf`, and Notif the wait
--   `EspMatterNetif::wait_changed`. Cache, Collect, Operational and Wait prove.
-- * The ICD functions of src/wireless/thread.rs are modelled by Wireless/Icd: the timeouts,
--   `apply_icd_params`, `configure_sed`, and the loop of `run_icd` as a list of rounds.
-- * src/thread.rs is modelled by Thread. For `EspMatterThreadSrp`, Srp has `update_services` and a
--   round of `run_register`, Srp/Host the start of `run`, Srp/Dns the requests of `run_resolve`
--   and `run_browse`, Srp/Serve `run_serve` with the turns of its tasks, and Srp/Run the whole of
--   `run`. Replace, Update, Client, Named, Label, Deposits and Presence prove. Dataset has the two
--   packed fields at the end of the file.
-- * The network control is modelled by Thread/Ctl for src/thread.rs and by Wifi for src/wifi.rs:
--   each has `connect`, the status and its wait, and child modules for `scan` and the diagnostics.
--   Netctl has what both share, the operational flag, its wait, and visitors that may fail.
--   Connect, Asked, Scanning, Tables and Wait prove.
-- * The Thread driver of src/wireless/thread.rs is modelled by Wireless/Driver, the task it runs a
--   parameter; Order proves. Wireless/Coex has `EspMatterThread` with its two other drivers,
--   Wireless/Wifi the drivers of src/wireless/wifi.rs, and Wireless/Gatt the embedding of
--   src/wireless.rs and the peripheral that all of them make.
-- * src/netif/udp.rs is modelled by Netif/Udp, where Groups proves, and src/eth.rs by Eth.
-- * examples/temp_sensor_battery_thread.rs is modelled by TempSensor: Reading has the simulated
--   reading, Clock what becomes of the time through a deep sleep, and Sleep the loop
--   `deep_sleep_when_idle`. Kept, Due, Calls and Ready prove. The wait for the reset button, which
--   other examples have too, is modelled by Button, and Held proves. The valve of
--   examples/trv_battery_thread.rs is modelled by Valve. Examples has the main tasks of all
--   examples as lists of steps, in Lights and Battery; Order proves.
-- * src/sw_diag.rs is modelled by SwDiag, and Names proves.
-- * src/persist.rs is modelled by Persist, and src/error.rs by Error.
-- * Base has the shared helpers, among them `Exec`, the state that comes back beside a result, an
--   error or a panic; Tests runs the models on concrete surroundings.
--
-- Code outside the crate is a parameter: a record of functions over an abstract world, `Platform`,
-- `Btp`, `EspNetif`, `Access`, `EspThread`, `Srp`, `Host`, `Dns`, `Server`, `EspNvs`, `EspWifi`,
-- `ActiveScan`, `Driver`, `Bt`, `Sockets`, `EthDriver`, `Clock`, `Icd`, `Pin` and `System`. Where
-- a theorem relies on what such code does, its hypotheses say so.
--
-- Bounds. `usize` has 32 bits, as on the ESP32 chips; the counter of connections wraps at 2 ^ 32,
-- and the theorems about sessions are about fewer actions than that. `wait_changed` is a loop on a
-- number of rounds; any number that reaches the first change is enough. The loop of the Thread
-- `connect` is one on a number of polls, for which 32 are enough. The endless loops that may
-- leave, those of the sleeping sensor, the button and `wait_srp_server`, are `repeat` of
-- Base/Loop, on a number of rounds; any number that reaches the round that leaves is enough. The
-- MTU is at most 512 bytes.
--
-- Left out: logging, the chains of handlers and the descriptions of nodes in the examples, which
-- are values of `rs-matter`, and the modules that only pass names on.
pub mod Base
pub mod Error
pub mod Ble
pub mod Netif
pub mod Wireless
pub mod Netctl
pub mod Wifi
pub mod SwDiag
pub mod Thread
pub mod Persist
pub mod Eth
pub mod Button
pub mod TempSensor
pub mod Valve
pub mod Examples
pub mod Tests
