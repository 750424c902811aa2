-- ===== src/Tests.antt =====
-- The parameters of the modules as concrete functions, and runs of the theorems at concrete inputs.
mod Parameters
mod Streams
mod Requests
mod Endpoints
mod Pages
mod Records
mod Media
mod Sweeps
mod Spans
mod Redaction
mod Totals
