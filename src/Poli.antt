-- ===== src/Poli.antt =====
-- poli/: the rules of the policies.
pub mod Run
pub mod Rules
pub mod Security
pub mod Nat
pub mod Pbf
