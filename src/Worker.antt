-- ===== src/Worker.antt =====
-- worker.py: `WorkerHost`, which drives a consumer's intent from plan to durable checkpoint.
pub mod Backoff
pub mod Intent
pub mod Host
pub mod Progress
pub mod Run
pub mod Bounds
pub mod Durable
pub mod AtLeastOnce
pub mod Locking
pub mod Tests
