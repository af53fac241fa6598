-- ===== src/Runtime.antt =====
-- runtime.py: `run_ingest`, which drives the providers of a source window by window.
pub mod Ingest
pub mod Counting
pub mod Trace
pub mod Fetched
pub mod Rounds
pub mod Account
pub mod Conclude
pub mod Report
pub mod Returns
mod Tests
