-- ===== src/Ble/Bluedroid.antt =====
-- src/ble/bluedroid.rs: the GATT peripheral over the Bluedroid host.
pub mod State
pub mod Platform
pub mod Changes
pub mod Gatts
pub mod Pumps
pub mod System
pub mod Session
pub mod Writes
pub mod Wake
pub mod Setup
