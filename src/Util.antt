-- ===== src/Util.antt =====
-- util/: the helpers that the other packages share.
pub mod Member
pub mod Target
pub mod Flag
pub mod Xpath
pub mod Move
pub mod Packaging
mod Tests
