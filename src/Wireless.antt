-- ===== src/Wireless.antt =====
-- wireless/: the glue between the wireless drivers and the stack.
pub mod Icd
pub mod Driver
pub mod Gatt
pub mod Coex
pub mod Wifi
