-- ===== src/Thread.antt =====
-- thread.rs: OpenThread under Matter.
pub mod Srp
pub mod Ctl
pub mod Dataset
