-- ===== src/TempSensor.antt =====
-- examples/temp_sensor_battery_thread.rs, the deep-sleeping temperature sensor: its reading, its
-- clock through the deep sleeps, and the loop that puts it to sleep, a child module each.
pub mod Reading
pub mod Clock
pub mod Sleep
