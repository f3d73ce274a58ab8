-- ===== src/Dev/Http.antt =====
-- dev/profile/http/: what an HTTP profile holds.
pub mod Header
pub mod Param
pub mod Server
