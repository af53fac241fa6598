-- ===== src/Fleet/State.antt =====
-- fleet/state.py: the desired state of a unit, heartbeats under generation fencing, and the
-- reconciler. The launch and the stop are injected actions. The id of the unit has passed
-- `_validate_unit`.
use text.Mathlib.Text.{◌==◌ as str_eq}
use datasource_kit.Prelude.{
  Bool, true, false, ◌||◌, not, Option, none, some, String, [], ◌∷◌, if◌then◌else◌,
}
use datasource_kit.Prelude.Int.{ℤ, pos, ◌+ℤ◌, eqb_ℤ}
use datasource_kit.Prelude.Dict.{Dict, insert, update}
use datasource_kit.Effect.{
  value_error, tombstone_error, Result, ok, raised, Action, pure, raise, lift, ◌>>=◌, ◌>>◌,
}
use datasource_kit.Fleet.Json.{
  Value, null, boolean, int, str, Runtime, get, is_text, as_int, to_int,
}
use datasource_kit.Fleet.World.{
  PidFile, absent, unreadable, present, World, touch, ensure_unit_dir, write_state,
}
use datasource_kit.Fleet.Process.{ProcessSpec, SpawnResult, StopResult}

pub record ReconcileOutcome : Type 0 where
  pub unit : String
  pub action : String
  pub desired : String
  pub actual : String
  pub generation : ℤ
  pub pid : Option ℤ
  pub alive : Bool
  pub degraded_reason : Option String

-- `_CORE_STATE_KEYS`
abbrev pub is_core : String → Bool
is_core k =
    str_eq k "schema_version"
    || (str_eq k "unit"
        || (str_eq k "desired" || (str_eq k "actual" || (str_eq k "generation" || str_eq k "pid"))))

abbrev pub is_desired : String → Bool
is_desired s = str_eq s "enabled" || (str_eq s "disabled" || str_eq s "paused")

-- `honor_desired_state`
unfoldable pub honor_desired_state : Dict Value → Bool
honor_desired_state state =
    is_text "enabled" (get state "desired") || is_text "paused" (get state "desired")

-- the attributes of a reconciler that its methods read, and the unit at hand
pub record Reconciler : Type 0 where
  pub schema_version : Value
  pub spawn_action : ProcessSpec → ℤ → Action World SpawnResult
  pub stop_action : Action World StopResult

-- `_default_state`
abbrev pub default_state : Reconciler → String → Dict Value
default_state rc unit =
    ("schema_version", rc.schema_version)
    ∷ ("unit", str unit)
    ∷ ("desired", str "disabled")
    ∷ ("actual", str "unknown")
    ∷ ("generation", int (pos 0))
    ∷ ("pid", null)
    ∷ []

abbrev pub backfilled : Dict Value → Option (Dict Value) → Dict Value
backfilled defaults none = defaults
backfilled defaults (some stored) = update defaults stored

-- `load_state`
unfoldable pub load_state : Reconciler → String → World → Dict Value
load_state rc unit w = insert "unit" (str unit) (backfilled (default_state rc unit) w.state)

abbrev load : Reconciler → String → Action World (Dict Value)
load rc unit w = (ok (load_state rc unit w), w)

-- `set_desired`
unfoldable pub set_desired : Reconciler → String → String → Action World (Dict Value)
set_desired rc unit desired =
    if is_desired desired
    then (do
      state ← load rc unit
      write_state (insert "desired" (str desired) state)
      pure (insert "desired" (str desired) state))
    else raise value_error

-- `for key, value in heartbeat.items()`: the core keys are skipped
unfoldable pub merged : Dict Value → Dict Value → Dict Value
merged state [] = state
merged state ((k, v) ∷ heartbeat) = merged (if is_core k then state else insert k v state) heartbeat

-- `_save_state(merged)`, if the generation is the current one
abbrev pub accept : Bool → Dict Value → Dict Value → Action World (Dict Value)
accept true state heartbeat = write_state (merged state heartbeat) >> pure (merged state heartbeat)
accept false state heartbeat = pure state

-- `not isinstance(reported, int) or reported != int(state["generation"])`
abbrev pub matching : Runtime → Option ℤ → Value → Result Bool
matching rt none current = ok false
matching rt (some reported) current = elim (to_int rt current) [
  | ok n ↦ ok (eqb_ℤ reported n)
  | raised e ↦ raised e
]

-- `merge_heartbeat`
unfoldable pub merge_heartbeat :
    Runtime → Reconciler → String → Dict Value → Action World (Dict Value)
merge_heartbeat rt rc unit heartbeat = do
  state ← load rc unit
  current ← lift (matching rt (as_int (get heartbeat "generation")) (get state "generation"))
  accept current state heartbeat

-- `observe_actual`
abbrev pub observe_actual : PidFile → String
observe_actual absent = "stopped"
observe_actual unreadable = "unknown"
observe_actual (present _) = "running"

abbrev str_or_null : Option String → Value
str_or_null none = null
str_or_null (some s) = str s

module _ (rt : Runtime) (rc : Reconciler) where
  abbrev pub outcome :
      Dict Value → String → String → String → ℤ → Option ℤ → Bool → Option String → ReconcileOutcome
  outcome state unit action actual generation pid alive reason = record {
    unit = unit;
    action = action;
    desired = rt.str_of (get state "desired");
    actual = actual;
    generation = generation;
    pid = pid;
    alive = alive;
    degraded_reason = reason;
  }

  abbrev pub tombstone_reason : String
  tombstone_reason = "process_tombstone_operator_verification_required"

  -- the labels of a unit whose tombstone stands
  abbrev pub degraded : Dict Value → Dict Value
  degraded state =
      insert "operator_verification_required" (boolean true)
        (insert "degraded_reason" (str tombstone_reason) state)

  -- `try: outcome = self._stop(...)`, where ProcessTombstoneError is passed over
  abbrev pub after_stop : Result StopResult → Dict Value → Action World (Dict Value)
  after_stop (ok r) state =
      pure (if r.signalled then insert "stop_requested" (boolean true) state else state)
  after_stop (raised tombstone_error) state = pure state
  after_stop (raised e) state = raise e

  unfoldable pub stop_unwanted : Bool → Dict Value → Action World (Dict Value)
  stop_unwanted true state w = (ok state, w)
  stop_unwanted false state w = let (r, w') = rc.stop_action w in after_stop r state w'

  -- the branch of a unit that is not observed stopped
  unfoldable pub hold_tombstone :
      String → String → Bool → Dict Value → Action World ReconcileOutcome
  hold_tombstone unit actual wanted state = do
    state' ← stop_unwanted wanted (degraded state)
    write_state state'
    generation ← lift (to_int rt (get state' "generation"))
    pure (
        outcome state' unit "noop" actual generation (as_int (get state' "pid"))
          (str_eq actual "running") (some tombstone_reason))

  -- the state after a launch that returned
  abbrev pub launched : ℤ → SpawnResult → Dict Value → Dict Value
  launched generation r state =
      let base = insert "operator_verification_required" (boolean (not r.alive)) (
        insert "process_token" (str_or_null r.token) (
          insert "actual" (str (if r.alive then "running" else "unknown"))
            (insert "pid" (int (pos r.pid)) (insert "generation" (int generation) state)))) in
      if r.alive
      then base
      else insert "degraded_reason" (str "leader_exited_operator_verification_required") base

  -- the state after a launch that found a tombstone
  abbrev pub refused : Dict Value → Dict Value
  refused state =
      insert "operator_verification_required" (boolean true)
        (insert "degraded_reason" (str tombstone_reason) (insert "actual" (str "unknown") state))

  abbrev pub after_spawn :
      Result SpawnResult → String → ℤ → Dict Value → Action World ReconcileOutcome
  after_spawn (ok r) unit generation state = do
    write_state (launched generation r state)
    pure (
        outcome (launched generation r state) unit "spawned"
          (if r.alive then "running" else "unknown") generation (some (pos r.pid)) r.alive
          (if r.alive then none else some "leader_exited_operator_verification_required"))
  after_spawn (raised tombstone_error) unit generation state = do
    write_state (refused state)
    current ← lift (to_int rt (get (refused state) "generation"))
    pure (outcome (refused state) unit "noop" "unknown" current none false (some tombstone_reason))
  after_spawn (raised e) unit generation state = raise e

  -- the branch of a stopped unit that the policy wants running
  unfoldable pub start_unit : ProcessSpec → Dict Value → Action World ReconcileOutcome
  start_unit spec state = do
    generation ← lift (to_int rt (get state "generation"))
    λ w.
        let (r, w') = rc.spawn_action spec (generation +ℤ pos 1) w in
        after_spawn r spec.unit (generation +ℤ pos 1) state w'

  -- the branch of a stopped unit that is to stay stopped
  unfoldable pub leave_stopped : String → Dict Value → Action World ReconcileOutcome
  leave_stopped unit state = do
    write_state (insert "actual" (str "stopped") state)
    generation ← lift (to_int rt (get (insert "actual" (str "stopped") state) "generation"))
    pure (
        outcome (insert "actual" (str "stopped") state) unit "noop" "stopped" generation none false
          none)

  abbrev pub observe : Action World String
  observe w = (ok (observe_actual w.pid_file), w)

  -- what the three branches make of the observation
  unfoldable pub converge : ProcessSpec → Bool → String → Dict Value → Action World ReconcileOutcome
  converge spec wanted actual state =
      if not (str_eq actual "stopped")
      then hold_tombstone spec.unit actual wanted (insert "actual" (str actual) state)
      else if wanted
      then start_unit spec (insert "actual" (str actual) state)
      else leave_stopped spec.unit (insert "actual" (str actual) state)

  -- `unit_lock`: a real directory, and the lock file is opened
  unfoldable pub lock_unit : Action World (Unit {0})
  lock_unit = do ensure_unit_dir; touch

  -- `reconcile_unit`; the policy reads the state, and may raise
  unfoldable pub reconcile_unit :
      ProcessSpec → (Dict Value → Result Bool) → Action World ReconcileOutcome
  reconcile_unit spec policy = do
    lock_unit
    state ← load rc spec.unit
    wanted ← lift (policy state)
    actual ← observe
    converge spec wanted actual state
