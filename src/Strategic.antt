-- ===== src/Strategic.antt =====
-- The load sweeps of src/strategic.rs.
pub mod Knee
