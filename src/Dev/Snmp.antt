-- ===== src/Dev/Snmp.antt =====
-- dev/profile/snmp/: what an SNMP profile holds.
pub mod V2c
pub mod V3
