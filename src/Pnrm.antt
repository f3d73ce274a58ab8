-- ===== src/Pnrm.antt =====
-- pnrm/: what a Panorama has of its own.
pub mod Variable
