-- ===== src/Netif.antt =====
-- src/netif.rs: the cached state of a network interface and the queries that fill it.
pub mod Addr
pub mod Info
pub mod Conf
pub mod Notif
pub mod Cache
pub mod Collect
pub mod Wait
pub mod Operational
pub mod Udp
