-- ===== src/Fleet/Desired.antt =====
-- The desired state: what `set_desired` stores, and a disabled unit under the reconciler.
use text.Mathlib.Text.{◌==◌ as str_eq}
use text.Mathlib.TextEquality.{eq_iff}
use datasource_kit.Prelude.{
  ◌≡◌, ◌∙◌, refl, Bool, true, false, Bool-cases, inl, inr, ◌||◌, not, some, String, arith,
}
use datasource_kit.Prelude.Dict.{Dict, lookup, insert, lookup-insert}
use datasource_kit.Effect.{Result, ok, raised, lift, ◌>>=◌}
use datasource_kit.Fleet.Json.{Value, str, Runtime}
use datasource_kit.Fleet.World.{World, ensure_unit_dir, write_atomic, write_state, write_pid}
use datasource_kit.Fleet.Process.{ProcessSpec}
use datasource_kit.Fleet.Stop.{stop}
use datasource_kit.Fleet.State.{
  Reconciler, is_desired, honor_desired_state, load_state, set_desired, observe_actual,
  stop_unwanted, hold_tombstone, leave_stopped, converge, lock_unit, reconcile_unit,
}
use datasource_kit.Fleet.Heartbeat.{lookup-load_state, write_returned, touch-state}
use datasource_kit.Fleet.Fence.{touch-Same}
use datasource_kit.Fleet.Single.{signal-Same, default_reconciler}

module _ (rc : Reconciler) (unit : String) where
  abbrev wanted_text : String → Bool
  wanted_text desired = str_eq "enabled" desired || str_eq "paused" desired

  of_text :
      (known desired : String)
      → str_eq desired known ≡ true
      → wanted_text known ≡ not (str_eq known "disabled")
      → wanted_text desired ≡ not (str_eq desired "disabled")
  of_text known desired same law = rw ((eq_iff desired known).0 same) law

  desired_value :
      (desired : String)
      → is_desired desired ≡ true
      → wanted_text desired ≡ not (str_eq desired "disabled")
  desired_value desired valid = elim (Bool-cases (str_eq desired "enabled")) [
    | inl enabled ↦ of_text "enabled" desired enabled refl
    | inr e ↦ elim (Bool-cases (str_eq desired "disabled")) [
      | inl disabled ↦ of_text "disabled" desired disabled refl
      | inr d ↦ of_text "paused" desired (rw (e, d) at valid) refl
    ]
  ]

  -- When `set_desired` returns, the default policy wants the unit running unless it was disabled.
  pub set_desired-wanted :
      (desired : String) (after : Dict Value) (w w' : World)
      → set_desired rc unit desired w ≡ (ok after, w')
      → honor_desired_state (load_state rc unit w') ≡ not (str_eq desired "disabled")
  unfolding set_desired honor_desired_state
  set_desired-wanted desired after w w' e = elim (Bool-cases (is_desired desired)) [
    | inl valid ↦
        let (value, stored) =
          write_returned (insert "desired" (str desired) (load_state rc unit w)) after w w'
            (rw valid at e) in
        let found : lookup "desired" (load_state rc unit w') ≡ some (str desired) =
          lookup-load_state rc unit "desired" w'
          ∙ rw (stored, lookup-insert "desired" "desired" (str desired) (load_state rc unit w))
              refl in
        rw found (desired_value desired valid)
    | inr bad ↦ absurd (cc)
  ]

-- Nothing is let through the exec gate.
record Quiet (w w' : World) : Type 0 where
  executed : w'.executed ≡ w.executed

write_state-Quiet : (d : Dict Value) (w : World) → Quiet w (write_state d w).1
unfolding write_state write_atomic
write_state-Quiet d w = grind (arith, touch-Same)

stop-Quiet : (rt : Runtime) (w : World) → Quiet w (stop rt w).1
unfolding stop write_pid write_atomic
stop-Quiet rt w = grind (arith, signal-Same, touch-Same)

ensure_unit_dir-Same :
    (w : World)
    → ((ensure_unit_dir w).1.executed ≡ w.executed) × ((ensure_unit_dir w).1.state ≡ w.state)
unfolding ensure_unit_dir
ensure_unit_dir-Same w = grind (arith, touch-Same, touch-state)

module _ (rt : Runtime) (zero_time version : Value) where
  abbrev rc : Reconciler
  rc = default_reconciler rt zero_time version

  stop_unwanted-Quiet :
      (state : Dict Value) (w : World) → Quiet w (stop_unwanted rt rc false state w).1
  unfolding stop_unwanted
  stop_unwanted-Quiet state w = grind (arith, stop-Quiet)

  hold_tombstone-Quiet :
      (unit actual : String) (state : Dict Value) (w : World)
      → Quiet w (hold_tombstone rt rc unit actual false state w).1
  unfolding hold_tombstone
  hold_tombstone-Quiet unit actual state w = grind (arith, stop_unwanted-Quiet, write_state-Quiet)

  leave_stopped-Quiet :
      (unit : String) (state : Dict Value) (w : World)
      → Quiet w (leave_stopped rt rc unit state w).1
  unfolding leave_stopped
  leave_stopped-Quiet unit state w = grind (arith, write_state-Quiet)

  converge-Quiet :
      (spec : ProcessSpec) (actual : String) (state : Dict Value) (w : World)
      → Quiet w (converge rt rc spec false actual state w).1
  unfolding converge
  converge-Quiet spec actual state w =
      let labelled = insert "actual" (str actual) state in
      elim (Bool-cases (str_eq actual "stopped")) [
        | inl stopped ↦ rw stopped (leave_stopped-Quiet spec.unit labelled w)
        | inr held ↦ rw held (hold_tombstone-Quiet spec.unit actual labelled w)
      ]

  -- taking the lock changes neither the state nor the launches
  record Locked (w w' : World) : Type 0 where
    executed : w'.executed ≡ w.executed
    state : w'.state ≡ w.state

  lock_unit-Locked : (w : World) → Locked w (lock_unit rt rc w).1
  unfolding lock_unit
  lock_unit-Locked w = grind (arith, ensure_unit_dir-Same, touch-Same, touch-state)

  same_wanted :
      (unit : String) (v w : World)
      → v.state ≡ w.state
      → honor_desired_state (load_state rc unit v) ≡ honor_desired_state (load_state rc unit w)
  unfolding load_state
  same_wanted unit v w same = rw same refl

  -- While the default policy does not want a unit running, a reconciliation launches nothing,
  -- with or without a tombstone.
  pub unwanted-Quiet :
      (spec : ProcessSpec) (w : World)
      → honor_desired_state (load_state rc spec.unit w) ≡ false
      → (reconcile_unit rt rc spec (λ s. ok (honor_desired_state s)) w).1.executed ≡ w.executed
  unfolding reconcile_unit
  unwanted-Quiet spec w down =
      let (r, v) = lock_unit rt rc w in let locked = lock_unit-Locked w in after_lock r v locked
    where
      after_lock :
          (r : Result (Unit {0})) (v : World)
          → Locked w v
          → ((lift r >>= λ _ x.
                converge rt rc spec
                  (honor_desired_state (load_state rc spec.unit x))
                  (observe_actual x.pid_file)
                  (load_state rc spec.unit x)
                  x)
              v).1.executed
            ≡ w.executed
      after_lock (raised e) v locked = locked.executed
      after_lock (ok u) v locked =
          let state = load_state rc spec.unit v in
          let same : honor_desired_state state ≡ false =
            same_wanted spec.unit v w locked.state ∙ down in
          rw same
            ((converge-Quiet spec (observe_actual v.pid_file) state v).executed ∙ locked.executed)

  -- Once `set_desired` has returned for "disabled", a reconciliation with the default actions and the
  -- default policy launches nothing.
  pub disabled-Quiet :
      (spec : ProcessSpec) (after : Dict Value) (w w' : World)
      → set_desired rc spec.unit "disabled" w ≡ (ok after, w')
      → (reconcile_unit rt rc spec (λ s. ok (honor_desired_state s)) w').1.executed ≡ w'.executed
  disabled-Quiet spec after w w' e =
      unwanted-Quiet spec w' (set_desired-wanted rc spec.unit "disabled" after w w' e)
