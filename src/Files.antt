-- ===== src/Files.antt =====
-- worker.py: `FileCheckpointStore`, which writes a file under a temporary name and then puts it in its
-- place.
pub mod Replace
pub mod Crash
pub mod Ends
mod Tests
