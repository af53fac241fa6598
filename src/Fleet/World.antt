-- ===== src/Fleet/World.antt =====
-- What the fleet's code acts on, for one unit: its directory, the supervisor process, and what the
-- operating system does next. Every operation on a unit is one undivided step on this world:
-- `reconcile_unit` and `clear_process_tombstone` hold the unit lock, and the heartbeats and the desired
-- states, which hold none, are taken where nothing runs in between.
use datasource_kit.Prelude.{ℕ, Bool, Option, none, some, String, List, [], ◌∷◌, if◌then◌else◌}
use datasource_kit.Prelude.Dict.{Dict}
use datasource_kit.Effect.{Exn, tombstone_error, Result, ok, raised, Action, ◌>>◌}
use datasource_kit.Fleet.Json.{Value}

-- pid.json: `os.lstat` finds nothing, fails otherwise, or finds a file. `read_json` gives None for
-- the first two, and for a file a dict, or None when it is corrupt.
pub data PidFile : Type 0 where
  absent : PidFile
  unreadable : PidFile
  present : Option (Dict Value) → PidFile

-- what the operating system does with the next child: the result of Popen, the clock, whether the gate says
-- READY, whether the ACK is sent, and whether the leader survives the probe window
pub record Child : Type 0 where
  pub popen : Result ℕ
  pub started_at : Value
  pub ready : Result Bool
  pub ack : Result (Unit {0})
  pub survives : Bool

pub record World : Type 0 where
  -- whether the unit's directory is a real directory
  pub directory : Bool
  -- what `read_json` gives for state.json
  pub state : Option (Dict Value)
  pub pid_file : PidFile
  -- the lines of process-clearance.audit.jsonl
  pub audit : List (Dict Value)
  -- `_OWNED_HANDLES`: the pid behind a token
  pub owned : Dict ℕ
  -- the pids of exited leaders
  pub exited : ℕ → Bool
  -- the pids that were sent TERM
  pub terminated : List ℕ
  pub environ : Dict String
  -- the tokens minted so far
  pub minted : ℕ
  -- the outcomes of the coming Popen calls and of the coming file operations
  pub children : List Child
  pub faults : List (Option Exn)
  -- the environments of the children that were let through the exec gate, the last one first
  pub executed : List (Dict String)

-- a file operation, which may raise
unfoldable pub touch : Action World (Unit {0})
touch w = elim w.faults [
  | [] ↦ (ok tt, w)
  | none ∷ fs ↦ (ok tt, record w { faults = fs })
  | some e ∷ fs ↦ (raised e, record w { faults = fs })
]

abbrev pub modify : (World → World) → Action World (Unit {0})
modify f w = (ok tt, f w)

-- the test of `_ensure_unit_dir`: a real directory, and no symlink
abbrev pub real_directory : Action World (Unit {0})
real_directory w = if w.directory then (ok tt, w) else (raised tombstone_error, w)

-- `_ensure_unit_dir`: `mkdir` and `lstat` may raise
unfoldable pub ensure_unit_dir : Action World (Unit {0})
unfolding touch
ensure_unit_dir = do touch; touch; real_directory

-- `write_json_atomic`: it may fail before the new object replaces the old one, or after it, when the
-- directory is synced
unfoldable pub write_atomic : (World → World) → Action World (Unit {0})
unfolding touch
write_atomic replace = do touch; modify replace; touch

unfoldable pub write_state : Dict Value → Action World (Unit {0})
unfolding write_atomic
write_state d = write_atomic (λ w. record w { state = some d })

unfoldable pub write_pid : Dict Value → Action World (Unit {0})
unfolding write_atomic
write_pid d = write_atomic (λ w. record w { pid_file = PidFile.present (some d) })
