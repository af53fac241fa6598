-- ===== src/Fleet/Observe.antt =====
-- What the control plane shows after it has set a unit's desired state.
use text.Mathlib.Text.{◌==◌ as str_eq}
use text.Mathlib.TextEquality.{eq_iff}
use datasource_kit.Prelude.{
  ◌≡◌, inl, inr, ◌∙◌, refl, sym, ap, Bool, true, false, Bool-cases, Option-cases, not, Option, none,
  some, String, [], arith, if◌then◌else◌,
}
use datasource_kit.Prelude.Dict.{
  Dict, lookup, insert, update, lookup-insert, keep_keys, keep_keys-insert, keep_keys-update,
}
use datasource_kit.Prelude.Int.{ℤ}
use datasource_kit.Effect.{Action, key_error, Result, ok, raised}
use datasource_kit.Fleet.Json.{Value, str, Runtime, get, to_int}
use datasource_kit.Fleet.World.{World, write_state, write_atomic}
use datasource_kit.Fleet.State.{
  Reconciler, is_core, is_desired, load_state, default_state, set_desired,
}
use datasource_kit.Fleet.Heartbeat.{lookup-load_state, write_returned}
use datasource_kit.Fleet.Fence.{touch-Same}
use datasource_kit.Fleet.Control.{
  ControlPlane, Fleet, UnitObservation, among, seen, observed, observe_unit, control, on_unit,
}

default_core :
    (rc : Reconciler) (unit k : String)
    → not (is_core k) ≡ true
    → lookup k (default_state rc unit) ≡ none
unfolding lookup
default_core rc unit k h = ground (
  arith,
  eq_iff k "schema_version",
  eq_iff "schema_version" k,
  eq_iff k "unit",
  eq_iff "unit" k,
  eq_iff k "desired",
  eq_iff "desired" k,
  eq_iff k "actual",
  eq_iff "actual" k,
  eq_iff k "generation",
  eq_iff "generation" k,
  eq_iff k "pid",
  eq_iff "pid" k,
)

abbrev stored_keys : Option (Dict Value) → Dict Value
stored_keys none = []
stored_keys (some d) = keep_keys (λ k. not (is_core k)) d

default_heartbeat :
    (rc : Reconciler) (unit : String)
    → keep_keys (λ k. not (is_core k)) (default_state rc unit) ≡ []
unfolding keep_keys
default_heartbeat rc unit = refl

-- the heartbeat of a loaded state is that of the stored one
load_state-heartbeat :
    (rc : Reconciler) (unit : String) (w : World)
    → keep_keys (λ k. not (is_core k)) (load_state rc unit w) ≡ stored_keys w.state
unfolding load_state
load_state-heartbeat rc unit w = elim (Option-cases w.state) [
  | inl gone ↦ rw gone (
      keep_keys-insert (λ k. not (is_core k)) "unit" (str unit) (default_state rc unit) refl
      ∙ default_heartbeat rc unit)
  | inr (d, found) ↦ rw found (
      keep_keys-insert (λ k. not (is_core k)) "unit" (str unit) (update (default_state rc unit) d)
        refl
      ∙ keep_keys-update (λ k. not (is_core k)) (default_state rc unit) d (default_core rc unit))
]

-- What a `set_desired` that returned has done to the unit's world.
record Labelled (rc : Reconciler) (unit desired : String) (w w' : World) : Type 0 where
  pid_file : w'.pid_file ≡ w.pid_file
  stored : w'.state ≡ some (insert "desired" (str desired) (load_state rc unit w))

write_state-pid_file : (d : Dict Value) (w : World) → (write_state d w).1.pid_file ≡ w.pid_file
unfolding write_state write_atomic
write_state-pid_file d w = grind (arith, touch-Same)

set_desired-Labelled :
    (rc : Reconciler) (unit desired : String) (after : Dict Value) (w w' : World)
    → set_desired rc unit desired w ≡ (ok after, w')
    → Labelled rc unit desired w w'
unfolding set_desired
set_desired-Labelled rc unit desired after w w' e = elim (Bool-cases (is_desired desired)) [
  | inl valid ↦
      let d = insert "desired" (str desired) (load_state rc unit w) in
      let written = rw valid at e in
      let (value, stored) = write_returned d after w w' written in
      record { pid_file = grind (arith, write_state-pid_file d w); stored = stored }
  | inr bad ↦ absurd cc
]

Labelled-desired :
    (rc : Reconciler) (unit desired : String) (w w' : World)
    → Labelled rc unit desired w w'
    → lookup "desired" (load_state rc unit w') ≡ some (str desired)
Labelled-desired rc unit desired w w' k = ground (
  arith,
  lookup-load_state rc unit "desired" w',
  k.stored,
  lookup-insert "desired" "desired" (str desired) (load_state rc unit w),
)

Labelled-generation :
    (rc : Reconciler) (unit desired : String) (w w' : World)
    → Labelled rc unit desired w w'
    → lookup "generation" (load_state rc unit w') ≡ lookup "generation" (load_state rc unit w)
unfolding lookup
Labelled-generation rc unit desired w w' k = ground (
  arith,
  lookup-load_state rc unit "generation" w',
  lookup-load_state rc unit "generation" w,
  k.stored,
  lookup-insert "desired" "generation" (str desired) (load_state rc unit w),
)

Labelled-heartbeat :
    (rc : Reconciler) (unit desired : String) (w w' : World)
    → Labelled rc unit desired w w'
    → keep_keys (λ k. not (is_core k)) (load_state rc unit w')
      ≡ keep_keys (λ k. not (is_core k)) (load_state rc unit w)
Labelled-heartbeat rc unit desired w w' k =
    load_state-heartbeat rc unit w'
    ∙ rw k.stored (
        keep_keys-insert (λ j. not (is_core j)) "desired" (str desired) (load_state rc unit w) refl)

get_found : (d : Dict Value) (key : String) (v : Value) → lookup key d ≡ some v → get d key ≡ v
get_found d key v e = rw e refl

get_same : (d e : Dict Value) (key : String) → lookup key d ≡ lookup key e → get d key ≡ get e key
get_same d e key same = rw same refl

-- an action on a unit leaves the other units alone
on_unit_inversion :
    {A : Type 0} (unit : String) (m : Action World A) (a : A) (fleet fleet' : Fleet)
    → on_unit unit m fleet ≡ (ok a, fleet')
    → (m (fleet unit) ≡ (ok a, fleet' unit))
      × ((other : String) → str_eq other unit ≡ false → fleet' other ≡ fleet other)
on_unit_inversion unit m a fleet fleet' e =
    let result : (m (fleet unit)).0 ≡ ok a = ap (λ q. q.0) e in
    let at : (other : String)
        → (if str_eq other unit then (m (fleet unit)).1 else fleet other) ≡ fleet' other =
      λ other. ap (λ q. q.1 other) e in
    let self : str_eq unit unit ≡ true = (eq_iff unit unit).1 refl in
    let here : (m (fleet unit)).1 ≡ fleet' unit = rw self at (at unit) in
    (cc, λ other ne. sym (rw ne at (at other)))

-- the observation with another desired state
abbrev pub relabelled : String → Result UnitObservation → Result UnitObservation
relabelled desired (raised e) = raised e
relabelled desired (ok o) = ok (record o { desired = desired })

module _ (rt : Runtime) (probe : ℤ → Bool) (cp : ControlPlane) where
  observe-local :
      (unit : String) (fleet fleet' : Fleet)
      → fleet' unit ≡ fleet unit
      → observe_unit rt probe cp unit fleet' ≡ observe_unit rt probe cp unit fleet
  unfolding observe_unit
  observe-local unit fleet fleet' e = rw e refl

  relabelled_lem :
      (unit desired : String) (d : Value) (found : String × Option ℤ) (heartbeat : Dict Value)
      (generation : Result ℤ)
      → rt.str_of (str desired) ≡ desired
      → observed rt probe unit (str desired) found heartbeat generation
        ≡ relabelled desired (observed rt probe unit d found heartbeat generation)
  unfolding observed
  relabelled_lem unit desired d found heartbeat (raised e) law = refl
  relabelled_lem unit desired d found heartbeat (ok n) law = rw law refl

  same_parts :
      (unit : String) (d d' : Value) (found found' : String × Option ℤ) (h h' : Dict Value)
      (g g' : Result ℤ)
      → d' ≡ d
      → found' ≡ found
      → h' ≡ h
      → g' ≡ g
      → observed rt probe unit d' found' h' g' ≡ observed rt probe unit d found h g
  same_parts unit d d' found found' h h' g g' e1 e2 e3 e4 = cc

  relabels :
      (unit desired : String) (fleet fleet' : Fleet)
      → ((s : String) → rt.str_of (str s) ≡ s)
      → Labelled cp.reconciler unit desired (fleet unit) (fleet' unit)
      → observe_unit rt probe cp unit fleet'
        ≡ relabelled desired (observe_unit rt probe cp unit fleet)
  unfolding observe_unit
  relabels unit desired fleet fleet' law k =
      let before = load_state cp.reconciler unit (fleet unit) in
      let after = load_state cp.reconciler unit (fleet' unit) in
      let found = seen rt probe (fleet unit).pid_file in
      let beats = keep_keys (λ j. not (is_core j)) before in
      let same =
        same_parts unit (str desired) (get after "desired") found
          (seen rt probe (fleet' unit).pid_file) beats (keep_keys (λ j. not (is_core j)) after)
          (to_int rt (get before "generation")) (to_int rt (get after "generation"))
          (get_found after "desired" (str desired)
            (Labelled-desired cp.reconciler unit desired (fleet unit) (fleet' unit) k))
          (ap (seen rt probe) k.pid_file)
          (Labelled-heartbeat cp.reconciler unit desired (fleet unit) (fleet' unit) k)
          (ap (to_int rt) (
            get_same after before "generation"
              (Labelled-generation cp.reconciler unit desired (fleet unit) (fleet' unit) k))) in
      elim (Bool-cases (among unit cp.units)) [
        | inl inside ↦ rw inside (
            same
            ∙ relabelled_lem unit desired (get before "desired") found beats
                (to_int rt (get before "generation")) (law desired))
        | inr outside ↦ rw outside refl
      ]

  -- After a control of a unit has returned: observing that unit shows what it showed before, but for the
  -- desired state, and observing any other unit shows what it showed before.
  pub control_lem :
      (desired unit other : String) (fleet fleet' : Fleet) (after : Dict Value)
      → ((s : String) → rt.str_of (str s) ≡ s)
      → control cp desired unit fleet ≡ (ok after, fleet')
      → observe_unit rt probe cp other fleet' ≡ (
          if str_eq other unit
          then relabelled desired (observe_unit rt probe cp other fleet)
          else observe_unit rt probe cp other fleet)
  unfolding control
  control_lem desired unit other fleet fleet' after law e =
      elim (Bool-cases (among unit cp.units)) [
        | inl inside ↦ shown (
            on_unit_inversion unit (set_desired cp.reconciler unit desired) after fleet fleet'
              (rw inside at e))
        | inr outside ↦ absurd (clash (rw outside at e))
      ]
    where
      clash : ◌≡◌ {A = Result (Dict Value) × Fleet} (raised key_error, fleet) (ok after, fleet') → ⊥
      clash eq = cc

      shown :
          (set_desired cp.reconciler unit desired (fleet unit) ≡ (ok after, fleet' unit))
            × ((other : String) → str_eq other unit ≡ false → fleet' other ≡ fleet other)
          → observe_unit rt probe cp other fleet' ≡ (
              if str_eq other unit
              then relabelled desired (observe_unit rt probe cp other fleet)
              else observe_unit rt probe cp other fleet)
      shown (done, apart) = elim (Bool-cases (str_eq other unit)) [
        | inl same ↦
            let equal : other ≡ unit = (eq_iff other unit).0 same in
            rw same (
              rw equal (
                relabels unit desired fleet fleet' law (
                  set_desired-Labelled cp.reconciler unit desired after (fleet unit) (fleet' unit)
                    done)))
        | inr differ ↦ rw differ (observe-local other fleet fleet' (apart other differ))
      ]
