-- ===== src/Lib.antt =====
-- datasource-kit: a library for programs that fetch from data sources. The modelled code is under
-- src/datasource_kit.
--
-- The parts and their files:
--   Prelude      numbers, text, lists, floats and dictionaries (insertion-ordered, text keys).
--   Effect       Python calls that raise and act on a world: `Action W A = W → Result A × W`. The
--                world comes back beside an exception too, so what was written stays written.
--   Threads      the stop event and the run lock of a host, read and written in the world.
--   Retry        retry.py: `retry` (Retry.antt) with its delays; Retry/Outcome says what it does.
--   Continuous   continuous.py: the values exchanged with callbacks (Directive), the host with `run`
--                and its methods (Host: `emit` is `_observe`, `rotate_boundary` is `_rotate`,
--                `wait_for` is `_wait`, `apply` is `_apply`, `iterate` is one round of the `while`).
--                Loop has the induction rule of the loop; Counters, Calls, Run and Termination the
--                proofs; Tests the examples.
--   Worker       worker.py: Backoff (`BackoffPolicy`), Intent (the values exchanged), Host
--                (`WorkerHost.run`: `body` is the body of the `try`, `back_off` the handler, `finish`
--                the `finally`). Progress, Run, Bounds, Durable, AtLeastOnce and Locking have the
--                proofs.
--   Fleet        fleet/. World, for one unit: its directory (state.json, pid.json, the audit), the
--                supervisor's handles, and schedules of what the operating system does next; every
--                file operation may raise. Process: `spawn` and `spawn_process` of process.py with
--                the exec gate (`acknowledge`: the child may execute once the ACK is sent). Stop:
--                `stop` and `clear_process_tombstone`. State: `load_state`, `set_desired`,
--                `merge_heartbeat` and `reconcile_unit` of state.py (`hold_tombstone`, `start_unit`,
--                `leave_stopped` are its three branches). Fence, Single, Heartbeat, Desired and
--                Generation have the proofs. An operation on a unit is one undivided step: reconciliations and
--                clearances hold the unit's lock; heartbeats and desired states hold none, and their
--                interleavings are not modelled.
--                Lock has the supervisor lock (`acquire_lock`, `release_lock`, `lock_is_live`), one
--                system call a step (`step`), Exclusion its schedules of several processes. Host is
--                `FleetHost` of host.py with `reconcile_once` and `serve` of state.py, over a lock
--                that is an interface (`SupervisorLock`), which FileLock fills with the file lock;
--                Passes has the proofs. Control is `WorkerControlPlane` of control.py and `liveness`,
--                on a fleet of units with a world each; Observe has its proofs.
--   Files        worker.py: `FileCheckpointStore.save` and `load`, one system call a step, by any
--                number of threads (Replace); Crash and Ends have the proofs.
--   Manifest     manifest.py, and inventory.py over an import that is an argument (Inventory).
--   Runtime      runtime.py: `run_ingest`, whose providers are arguments (Ingest: `body` is the body of
--                the `try` of one window, `conclude` what follows the loop). Trace tells a run by the calls
--                of the providers, without the code's own functions; Fetched, Rounds and Conclude
--                prove that the code makes these calls; Counting and Account count them; Report and
--                Returns speak of the whole run.
--   Window       window.py: `split_range_into_days` on ordinals of dates; Cover has its proofs.
--   Fetch        results.py and fetch.py: cursors (Cursor) and `SequencePlanner` (Sequence); Walk is
--                about its index, Resume about the units that it plans. Planner has the planners'
--                protocol and `ResumePlanner`, Intent is `FetchIntent`, and Steady and Ingest are
--                about a worker host that drives it over a sequence. Results has the result shapes.
--   Ledger       ledger.py: items and evidence with their JSON forms (Items), the counts (Summary),
--                `_atomic_write`, one system call after the other, each of which may raise (Atomic), and
--                `write_window` (Window).
--   Registry     registry.py (Entries, with `sorted` in Sorting) and providers.py: ProviderRegistry
--                with its pattern of names (Providers), `_diff_by_id` (Diff), and other built-in providers
--                with the in-memory store (Builtin).
--
-- A consumer's callback, a clock, a sleep or a store is an argument: an action on a world of any
-- type. What a theorem needs of it is a named record of conditions (Stores, CountsSteps, AllCounted,
-- BrokenClock, Steady, Works), and the tests fulfil them. Python's floats are an interface
-- (Floats) with the operations that the code calls and one law of comparison.
--
-- Loops on fuel: `Continuous.Host.loop` and `Worker.Host.loop` take fuel and return `none` for a loop
-- that has not ended yet; with a limit m on the counted rounds, m + 1 units of fuel are enough. A
-- run without a limit may go on for ever, as in the source, so other theorems on `run` speak of a run
-- that has ended; a run over a sequence of units needs no limit, and as much fuel as units. `retry`
-- needs no fuel. The loops of `split_range_into_days` need one unit more than the days of the range.
-- `acquire_lock` takes five system calls at most where no other process acts; `save` takes seven.
--
-- Not modelled: the command line, re-exports, protocols and the adapters to web frameworks; the
-- decorator form of retry; legacy tombstones; two writers of one window of the ledger, the update log
-- in SQLite, the SQLite store, the choice of a runtime's providers and policies, the rate limit, the
-- completeness and report files, and the profiles.
pub mod Prelude
pub mod Effect
pub mod Threads
pub mod Files
pub mod Registry
pub mod Ledger
pub mod Retry
pub mod Continuous
pub mod Worker
pub mod Manifest
pub mod Runtime
pub mod Fleet
pub mod Window
pub mod Fetch
