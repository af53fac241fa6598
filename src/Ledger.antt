-- ===== src/Ledger.antt =====
-- ledger.py: what a discovery run has found, its counts, and its files.
pub mod Items
pub mod Summary
pub mod Atomic
pub mod Window
mod Tests
