-- ===== src/Netw/Bgp.antt =====
-- netw/routing/protocol/bgp/: what BGP holds.
pub mod Auth
pub mod Redist
pub mod Advertise
pub mod NonExist
