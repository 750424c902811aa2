-- ===== src/Telemetry.antt =====
-- Telemetry: the parser of a metrics page.
pub mod SampleText
pub mod Exposition
pub mod History
pub mod Writer
