-- ===== src/Fleet/Tests.antt =====
-- One unit through a launch, a fault and a clearance, and the theorems at inputs where their
-- conditions hold.
use datasource_kit.Prelude.{◌+◌, ◌≤◌, ◌≡◌, ◌⊎◌, refl, true, false, none, some, [], ◌∷◌, ◌++◌}
use datasource_kit.Prelude.Int.{pos}
use datasource_kit.Prelude.Dict.{Dict, lookup, contains, insert, update, remove, or_else}
use datasource_kit.Effect.{ok}
use datasource_kit.Fleet.Json.{Value, str, int, Runtime, to_int}
use datasource_kit.Fleet.World.{
  PidFile, World, Child, touch, ensure_unit_dir, write_atomic, write_state, write_pid,
}
use datasource_kit.Fleet.Process.{
  ProcessSpec, spawn, launch, start_child, spawn_process, after_hello, gated, probe, acknowledge,
  next_child, mint_token, open_streams, open_stream, write_intent, pid_payload,
}
use datasource_kit.Fleet.State.{
  Reconciler, ReconcileOutcome, honor_desired_state, load_state, set_desired, merged,
  merge_heartbeat, reconcile_unit, lock_unit, converge, start_unit, hold_tombstone, stop_unwanted,
}
use datasource_kit.Fleet.Heartbeat.{heartbeat-core_kept, heartbeat-fenced, IsCurrent}
use datasource_kit.Fleet.Desired.{set_desired-wanted, disabled-Quiet}
use datasource_kit.Fleet.Generation.{generation_of, Advanced, reconcile_unit-Advanced}
use datasource_kit.Fleet.Fence.{launches, clearances}
use datasource_kit.Fleet.Single.{default_reconciler, Step, Steps, launches_bounded}

abbrev runtime : Runtime
runtime = record {
  int_of_text = λ s. none;
  int_of_other = λ n. none;
  str_of = λ v. "1";
  uuid_hex = λ n. "token";
}

abbrev pub reconciler : Reconciler
reconciler = default_reconciler runtime (int (pos 0)) (int (pos 1))

abbrev spec : ProcessSpec
spec = record {
  unit = "u";
  command = Value.other 0;
  env = none;
  label = "";
  stdout_path = none;
  stderr_path = none;
  env_overlay = [];
  generation_env = some "GENERATION";
  pid_metadata = [];
}

abbrev healthy : Child
healthy = record {
  popen = ok 41;
  started_at = Value.other 1;
  ready = ok true;
  ack = ok tt;
  survives = true;
}

abbrev pub fresh : World
fresh = record {
  directory = true;
  state = none;
  pid_file = PidFile.absent;
  audit = [];
  owned = [];
  exited = λ p. false;
  terminated = [];
  environ = [];
  minted = 0;
  children = healthy ∷ healthy ∷ [];
  faults = [];
  executed = [];
}

-- what `set_desired(unit, "enabled")` leaves
abbrev enabled : Dict Value
enabled =
    ("schema_version", int (pos 1))
    ∷ ("unit", str "u")
    ∷ ("desired", str "enabled")
    ∷ ("actual", str "unknown")
    ∷ ("generation", int (pos 0))
    ∷ ("pid", Value.null)
    ∷ []

abbrev disabled : Dict Value
disabled =
    ("schema_version", int (pos 1))
    ∷ ("unit", str "u")
    ∷ ("desired", str "disabled")
    ∷ ("actual", str "unknown")
    ∷ ("generation", int (pos 0))
    ∷ ("pid", Value.null)
    ∷ []

enabled_now :
    set_desired reconciler "u" "enabled" fresh ≡ (ok enabled, record fresh { state = some enabled })
unfolding set_desired load_state write_state write_atomic touch insert
enabled_now = refl

disabled_now :
    set_desired reconciler "u" "disabled" fresh
    ≡ (ok disabled, record fresh { state = some disabled })
unfolding set_desired load_state write_state write_atomic touch insert
disabled_now = refl

set_desired-wanted_example :
    honor_desired_state (load_state reconciler "u" (record fresh { state = some enabled })) ≡ true
set_desired-wanted_example =
    set_desired-wanted reconciler "u" "enabled" enabled fresh
      (record fresh { state = some enabled }) enabled_now

disabled-Quiet_example :
    (reconcile_unit runtime reconciler spec
      (λ s. ok (honor_desired_state s))
      (record fresh { state = some disabled })).1.executed
    ≡ []
disabled-Quiet_example =
    disabled-Quiet runtime (int (pos 0)) (int (pos 1)) spec disabled fresh
      (record fresh { state = some disabled }) disabled_now

-- two reconciliations of an enabled unit, the second after a crash of the supervisor
abbrev up : World
up = record fresh { state = some enabled }

abbrev once : World
once = (reconcile_unit runtime reconciler spec (λ s. ok (honor_desired_state s)) up).1

abbrev crashed : World
crashed = record once { owned = [] }

abbrev twice : World
twice = (reconcile_unit runtime reconciler spec (λ s. ok (honor_desired_state s)) crashed).1

two_rounds : Steps runtime (int (pos 0)) (int (pos 1)) up twice
two_rounds =
    Steps.more crashed twice
      (Steps.more once crashed
        (Steps.more up once Steps.done (Step.reconcile spec (λ s. ok (honor_desired_state s))))
        (Step.outside crashed refl refl refl))
      (Step.reconcile spec (λ s. ok (honor_desired_state s)))

launches_bounded_example :
    (launches twice + clearances up ≤ launches up + 1 + clearances twice)
    × (twice.pid_file ≡ PidFile.absent
        → launches twice + clearances up ≤ launches up + clearances twice)
launches_bounded_example =
    launches_bounded runtime (int (pos 0)) (int (pos 1)) up twice refl two_rounds

one_launch : launches twice ≡ 1
unfolding reconcile_unit lock_unit ensure_unit_dir touch converge start_unit hold_tombstone
    stop_unwanted load_state honor_desired_state insert update lookup contains remove to_int spawn
    launch start_child spawn_process after_hello gated probe acknowledge next_child mint_token
    open_streams open_stream write_intent pid_payload write_pid write_state write_atomic
one_launch = refl

-- a heartbeat of the current generation that tries to forge a pid
abbrev beat : Dict Value
beat = ("generation", int (pos 0)) ∷ ("pid", int (pos 99)) ∷ ("rows", int (pos 7)) ∷ []

abbrev beaten : Dict Value
beaten = enabled ++ (("rows", int (pos 7)) ∷ [])

beat_accepted :
    merge_heartbeat runtime reconciler "u" beat up
    ≡ (ok beaten, record fresh { state = some beaten })
unfolding merge_heartbeat load_state merged write_state write_atomic touch insert update lookup
    contains to_int
beat_accepted = refl

heartbeat-core_kept_example :
    lookup "pid" (load_state reconciler "u" (merge_heartbeat runtime reconciler "u" beat up).1)
    ≡ lookup "pid" (load_state reconciler "u" up)
heartbeat-core_kept_example = heartbeat-core_kept runtime reconciler "u" "pid" beat up refl

heartbeat-fenced_example :
    (IsCurrent runtime reconciler "u" beat up
      × (some beaten ≡ some beaten)
      × (lookup "rows" beaten
          ≡ or_else (lookup "rows" beat) (lookup "rows" (load_state reconciler "u" up))))
    ⊎ ((¬ IsCurrent runtime reconciler "u" beat up)
        × (record fresh { state = some beaten } ≡ up)
        × (beaten ≡ load_state reconciler "u" up))
unfolding lookup
heartbeat-fenced_example =
    heartbeat-fenced runtime reconciler "u" "rows" beat beaten up
      (record fresh { state = some beaten }) (refl, (refl, (refl, tt))) beat_accepted

abbrev first_outcome : ReconcileOutcome
first_outcome = record {
  unit = "u";
  action = "spawned";
  desired = "1";
  actual = "running";
  generation = pos 1;
  pid = some (pos 41);
  alive = true;
  degraded_reason = none;
}

first_round :
    reconcile_unit runtime reconciler spec (λ s. ok (honor_desired_state s)) up
    ≡ (ok first_outcome, once)
unfolding reconcile_unit lock_unit ensure_unit_dir touch converge start_unit hold_tombstone
    stop_unwanted load_state honor_desired_state insert update lookup contains remove to_int spawn
    launch start_child spawn_process after_hello gated probe acknowledge next_child mint_token
    open_streams open_stream write_intent pid_payload write_pid write_state write_atomic
first_round = refl

generation_zero : generation_of runtime reconciler "u" up ≡ ok (pos 0)
unfolding load_state insert update lookup contains to_int
generation_zero = refl

reconcile_unit-Advanced_example : Advanced runtime reconciler "u" (pos 0) once first_outcome
reconcile_unit-Advanced_example =
    reconcile_unit-Advanced runtime reconciler spec (λ s. ok (honor_desired_state s)) (pos 0) up
      once first_outcome generation_zero first_round
