-- ===== src/Continuous.antt =====
-- continuous.py: `ContinuousWorkerHost`, which repeats an opaque consumer step. The callbacks act on
-- a world `W` and may raise; a `float` delay is a value of the interface `Floats`.
pub mod Directive
pub mod Host
pub mod Loop
pub mod Counters
pub mod Calls
pub mod Run
pub mod Termination
mod Tests
