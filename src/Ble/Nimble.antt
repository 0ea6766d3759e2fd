-- ===== src/Ble/Nimble.antt =====
-- src/ble/nimble.rs: the GATT peripheral over the NimBLE host.
pub mod State
pub mod Platform
pub mod Hooks
pub mod Pumps
pub mod System
pub mod Frame
pub mod Session
pub mod Writes
pub mod Wake
pub mod Table
