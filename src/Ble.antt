-- ===== src/Ble.antt =====
-- src/ble.rs: the two implementations of the GATT peripheral of the BTP protocol, one for each
-- Bluetooth host of ESP-IDF, and the BTP engine that both drive.
pub mod Btp
pub mod Watch
pub mod Bluedroid
pub mod Nimble
pub mod Central
