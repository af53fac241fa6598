-- ===== src/Fleet/ControlTests.antt =====
-- A fleet of two units, one of them running, and a control plane that pauses it.
use text.Mathlib.Text.{◌==◌ as str_eq}
use datasource_kit.Prelude.{◌≡◌, refl, Bool, none, some, String, [], ◌∷◌, if◌then◌else◌}
use datasource_kit.Prelude.Int.{ℤ, pos, leb_ℤ}
use datasource_kit.Prelude.Dict.{Dict, lookup, insert, update, keep_keys}
use datasource_kit.Effect.{ok}
use datasource_kit.Fleet.Json.{Value, str, int, Runtime, to_int}
use datasource_kit.Fleet.World.{World, PidFile, touch, write_atomic, write_state}
use datasource_kit.Fleet.State.{load_state, set_desired}
use datasource_kit.Fleet.Control.{
  ControlPlane, Fleet, UnitObservation, liveness, seen, observed, observe_unit, observe_all,
  observe, control, pause,
}
use datasource_kit.Fleet.Observe.{relabelled, control_lem}
use datasource_kit.Fleet.Tests.{reconciler, fresh}

abbrev text_of : Value → String
text_of (str s) = s
text_of _ = "?"

abbrev runtime : Runtime
runtime = record {
  int_of_text = λ s. none;
  int_of_other = λ n. none;
  str_of = text_of;
  uuid_hex = λ n. "token";
}

abbrev alive : ℤ → Bool
alive pid = leb_ℤ (pos 41) pid

abbrev plane : ControlPlane
plane = record { reconciler = reconciler; units = "u" ∷ "v" ∷ [] }

-- "u" runs as the process 41 and has sent a heartbeat
abbrev working : World
working = record fresh {
  state =
      some (("desired", str "enabled") ∷ ("generation", int (pos 3)) ∷ ("queue", int (pos 9)) ∷ []);
  pid_file = PidFile.present (some (("pid", int (pos 41)) ∷ []));
}

abbrev fleet : Fleet
fleet u = if str_eq u "u" then working else fresh

abbrev shown : String → UnitObservation
shown desired = record {
  unit = "u";
  desired = desired;
  actual = "running";
  generation = pos 3;
  pid = some (pos 41);
  heartbeat = ("queue", int (pos 9)) ∷ [];
}

abbrev idle : UnitObservation
idle = record {
  unit = "v";
  desired = "disabled";
  actual = "stopped";
  generation = pos 0;
  pid = none;
  heartbeat = [];
}

both_units : observe runtime alive plane fleet ≡ ok (shown "enabled" ∷ idle ∷ [])
unfolding observe_all observe_unit observed seen liveness load_state to_int lookup insert update
    keep_keys
both_units = refl

abbrev paused : Dict Value
paused =
    ("schema_version", int (pos 1))
    ∷ ("unit", str "u")
    ∷ ("desired", str "paused")
    ∷ ("actual", str "unknown")
    ∷ ("generation", int (pos 3))
    ∷ ("pid", Value.null)
    ∷ ("queue", int (pos 9))
    ∷ []

abbrev after : Fleet
after u = if str_eq u "u" then record working { state = some paused } else fleet u

paused_now : pause plane "u" fleet ≡ (ok paused, after)
unfolding control set_desired load_state write_state write_atomic touch insert update lookup
paused_now = refl

control_lem_example :
    observe_unit runtime alive plane "u" after
    ≡ relabelled "paused" (observe_unit runtime alive plane "u" fleet)
control_lem_example =
    control_lem runtime alive plane "paused" "u" "u" fleet after paused (λ s. refl) paused_now
