-- ===== src/Fetch.antt =====
-- fetch.py and results.py: cursors, planners, the intent that a worker host drives, and result shapes.
pub mod Cursor
pub mod Results
pub mod Sequence
pub mod Walk
pub mod Resume
pub mod Planner
pub mod Intent
pub mod Steady
pub mod Ingest
mod Tests
mod IngestTests
