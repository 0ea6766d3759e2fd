-- ===== src/Ble/Central.antt =====
-- src/ble/nimble.rs, `central`: the GATT client that a commissioner runs BTP over.
pub mod State
pub mod Platform
pub mod Hooks
pub mod Pumps
pub mod Run
pub mod System
pub mod Log
pub mod Setup
pub mod Quiet
pub mod Flow
pub mod Subscribe
pub mod Ending
pub mod Handshake
pub mod Indications
pub mod Wake
pub mod Create
