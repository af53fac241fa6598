-- ===== src/Fleet.antt =====
-- fleet/: the supervisor of a fleet: the units with their state.json and pid.json, the lock, the passes
-- over the units, and the control plane.
pub mod Json
pub mod World
pub mod Process
pub mod State
pub mod Stop
pub mod Lock
pub mod Exclusion
pub mod Host
pub mod Passes
pub mod FileLock
pub mod Heartbeat
pub mod Fence
pub mod Single
pub mod Desired
pub mod Generation
pub mod Tests
pub mod Control
pub mod Observe
pub mod LockTests
pub mod ControlTests
