-- ===== src/Netw.antt =====
-- netw/: the profiles, tunnels and routing of the network.
pub mod Monitor
pub mod Bfd
pub mod Mngtprof
pub mod ProxyId
pub mod Gre
pub mod Bgp
pub mod RoundTrip
pub mod Redist
mod Tests
