-- ===== src/Dev.antt =====
-- dev/: the profiles of a device.
pub mod Http
pub mod Snmp
pub mod EmailServer
pub mod SyslogServer
