-- ===== src/Fleet/Control.antt =====
-- fleet/control.py: `WorkerControlPlane`, over the units of a fleet, and `liveness` of process.py.
use text.Mathlib.Text.{◌==◌ as str_eq}
use datasource_kit.Prelude.{
  Bool, true, false, not, Option, none, some, String, List, [], ◌∷◌, if◌then◌else◌,
}
use datasource_kit.Prelude.Int.{ℤ, pos}
use datasource_kit.Prelude.Dict.{Dict, lookup, keep_keys}
use datasource_kit.Effect.{key_error, file_not_found, Result, ok, raised, Action}
use datasource_kit.Fleet.Json.{Value, Runtime, get, to_int}
use datasource_kit.Fleet.World.{PidFile, absent, unreadable, present, World}
use datasource_kit.Fleet.State.{Reconciler, is_core, load_state, set_desired}

-- `running` is the state "running", else it is "stale"
pub record Liveness : Type 0 where
  pub pid : ℤ
  pub running : Bool

-- the pid that a tombstone names; without an int there, the file is stale with pid 0
abbrev pub alive_pid : (ℤ → Bool) → Result ℤ → Liveness
alive_pid probe (ok pid) = record { pid = pid; running = probe pid }
alive_pid probe (raised e) = record { pid = pos 0; running = false }

abbrev named_pid : Runtime → Option Value → Result ℤ
named_pid rt none = raised key_error
named_pid rt (some v) = to_int rt v

-- `liveness`; the probe is `_pid_alive`
unfoldable pub liveness : Runtime → (ℤ → Bool) → PidFile → Result Liveness
liveness rt probe absent = raised file_not_found
liveness rt probe unreadable = raised file_not_found
liveness rt probe (present none) = raised file_not_found
liveness rt probe (present (some d)) = ok (alive_pid probe (named_pid rt (lookup "pid" d)))

pub record UnitObservation : Type 0 where
  pub unit : String
  pub desired : String
  pub actual : String
  pub generation : ℤ
  pub pid : Option ℤ
  pub heartbeat : Dict Value

-- the worlds of the units, each with its own directory
abbrev pub Fleet : Type 0
Fleet = String → World

-- the attributes of a `WorkerControlPlane`
pub record ControlPlane : Type 0 where
  pub reconciler : Reconciler
  pub units : List String

abbrev pub among : String → List String → Bool
among u [] = false
among u (v ∷ vs) = let rest = among u vs in if str_eq v u then true else rest

-- a live leader, or what stays uncertain
abbrev by_liveness : Result Liveness → String × Option ℤ
by_liveness (raised e) = ("unknown", none)
by_liveness (ok live) = if live.running then ("running", some live.pid) else ("unknown", none)

module _ (rt : Runtime) (probe : ℤ → Bool) where
  -- `actual` and `pid` of an observation
  unfoldable pub seen : PidFile → String × Option ℤ
  unfolding liveness
  seen absent = ("stopped", none)
  seen unreadable = ("unknown", none)
  seen (present d) = by_liveness (liveness rt probe (present d))

  -- the observation of a unit, from the desired state, the liveness, the heartbeat and the generation
  unfoldable pub observed :
      String → Value → String × Option ℤ → Dict Value → Result ℤ → Result UnitObservation
  observed unit desired found heartbeat (raised e) = raised e
  observed unit desired found heartbeat (ok generation) = ok (record {
    unit = unit;
    desired = rt.str_of desired;
    actual = found.0;
    generation = generation;
    pid = found.1;
    heartbeat = heartbeat;
  })

  module _ (cp : ControlPlane) where
    -- `observe_unit` reads and writes nothing
    unfoldable pub observe_unit : String → Fleet → Result UnitObservation
    unfolding seen observed
    observe_unit unit fleet =
        let state = load_state cp.reconciler unit (fleet unit) in
        if among unit cp.units
        then observed unit (get state "desired") (seen (fleet unit).pid_file)
            (keep_keys (λ k. not (is_core k)) state) (to_int rt (get state "generation"))
        else raised key_error

    abbrev listed :
        Result UnitObservation → Result (List UnitObservation) → Result (List UnitObservation)
    listed (raised e) rest = raised e
    listed (ok o) (raised e) = raised e
    listed (ok o) (ok os) = ok (o ∷ os)

    -- the comprehension of `observe`
    unfoldable pub observe_all : List String → Fleet → Result (List UnitObservation)
    observe_all [] fleet = ok []
    observe_all (u ∷ us) fleet = listed (observe_unit u fleet) (observe_all us fleet)

    -- `observe`
    abbrev pub observe : Fleet → Result (List UnitObservation)
    observe fleet = observe_all cp.units fleet

-- an action on one unit of the fleet
abbrev pub on_unit : {A : Type 0} → String → Action World A → Action Fleet A
on_unit unit m fleet =
    let (r, w) = m (fleet unit) in (r, λ other. if str_eq other unit then w else fleet other)

module _ (cp : ControlPlane) where
  -- `_require`, and a call of the reconciler
  unfoldable pub control : String → String → Action Fleet (Dict Value)
  control desired unit fleet =
      let done = on_unit unit (set_desired cp.reconciler unit desired) fleet in
      if among unit cp.units then done else (raised key_error, fleet)

  -- `pause`, `resume`, `enable` and `disable`
  abbrev pub pause : String → Action Fleet (Dict Value)
  pause = control "paused"

  abbrev pub resume : String → Action Fleet (Dict Value)
  resume = control "enabled"

  abbrev pub enable : String → Action Fleet (Dict Value)
  enable = control "enabled"

  abbrev pub disable : String → Action Fleet (Dict Value)
  disable = control "disabled"
