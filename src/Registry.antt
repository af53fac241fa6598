-- ===== src/Registry.antt =====
-- registry.py and providers.py: objects under names.
pub mod Sorting
pub mod Entries
pub mod Providers
pub mod Diff
pub mod Builtin
mod Tests
