-- ===== src/Tests.antt =====
-- Runs of the models on concrete surroundings.
mod Bluedroid
mod Nimble
mod Netif
mod Thread
mod Persist
mod Central
mod Network
mod SwDiag
mod Driver
mod Sensor
mod Srp
mod Udp
