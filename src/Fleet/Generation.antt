-- ===== src/Fleet/Generation.antt =====
-- The generation of a unit under the reconciler: a launch takes the next one, nothing else moves it.
use text.Mathlib.Text.{◌==◌ as str_eq}
use datasource_kit.Prelude.{
  ◌≡◌, ◌⊎◌, sym, ap, ◌∙◌, refl, Bool, true, false, Bool-cases, inl, inr, none, some, String, arith,
  if◌then◌else◌,
}
use datasource_kit.Prelude.Int.{ℤ, pos, ◌+ℤ◌}
use datasource_kit.Prelude.Dict.{Dict, lookup, insert, lookup-insert}
use datasource_kit.Effect.{tombstone_error, Result, ok, raised, Holds, lift, pure, ◌>>=◌, ◌>>◌}
use datasource_kit.Fleet.Json.{Value, str, int, boolean, Runtime, get, as_int, to_int}
use datasource_kit.Fleet.World.{World, ensure_unit_dir, write_state}
use datasource_kit.Fleet.Process.{ProcessSpec, SpawnResult, StopResult}
use datasource_kit.Fleet.State.{
  Reconciler, ReconcileOutcome, load_state, observe_actual, outcome, tombstone_reason, degraded,
  refused, launched, stop_unwanted, after_stop, after_spawn, start_unit, hold_tombstone,
  leave_stopped, converge, lock_unit, reconcile_unit,
}
use datasource_kit.Fleet.Heartbeat.{
  lookup-load_state, load_state-reload, write_state-stored, touch-state,
}

module _ (rt : Runtime) (rc : Reconciler) where
  -- the current generation of a unit, as the supervisor reads it
  abbrev pub generation_of : String → World → Result ℤ
  generation_of unit w = to_int rt (get (load_state rc unit w) "generation")

  -- An outcome that launched nothing: what is stored has the generation of the loaded state.
  record Noop (state : Dict Value) (w' : World) (o : ReconcileOutcome) : Type 0 where
    stored : Dict Value
    found : w'.state ≡ some stored
    same : lookup "generation" stored ≡ lookup "generation" state
    value : to_int rt (get stored "generation") ≡ ok o.generation
    action : o.action ≡ "noop"

  abbrev Settled : Dict Value → ℤ → Result ReconcileOutcome × World → Type 0
  Settled state n out =
      Holds
        (λ o.
          Noop state out.1 o
          ⊎ ((stored : Dict Value) × (out.1.state ≡ some stored)
              × (lookup "generation" stored ≡ some (int (n +ℤ pos 1)))
              × (o.generation ≡ n +ℤ pos 1)
              × (o.action ≡ "spawned")))
        out.0

  save_noop :
      (f : ℤ → ReconcileOutcome)
      → ((m : ℤ) → ((f m).generation ≡ m) × ((f m).action ≡ "noop"))
      → (stored state : Dict Value) (n : ℤ) (w : World)
      → lookup "generation" stored ≡ lookup "generation" state
      → Settled state n (
          (write_state stored >> (lift (to_int rt (get stored "generation")) >>= λ m. pure (f m)))
            w)
  save_noop f fair stored state n w same =
      after_write (write_state stored w).0 (write_state stored w).1 (write_state-stored stored w)
    where
      after_value :
          (g : Result ℤ) (v : World)
          → to_int rt (get stored "generation") ≡ g
          → v.state ≡ some stored
          → Settled state n ((lift g >>= λ m. pure (f m)) v)
      after_value (raised e) v read found = tt
      after_value (ok m) v read found = inl (record {
        stored = stored;
        found = found;
        same = same;
        value = read ∙ ap ok (sym (fair m).0);
        action = (fair m).1;
      })

      after_write :
          (r : Result (Unit {0})) (v : World)
          → Holds (λ u. v.state ≡ some stored) r
          → Settled state n
              ((lift r >>= λ _. lift (to_int rt (get stored "generation")) >>= λ m. pure (f m)) v)
      after_write (raised e) v found = tt
      after_write (ok u) v found = after_value (to_int rt (get stored "generation")) v refl found

  after_stop-same :
      (r : Result StopResult) (state : Dict Value) (w : World)
      → Holds
          (λ s. lookup "generation" s ≡ lookup "generation" state)
          (after_stop rt rc r state w).0
  after_stop-same (ok r) state w = elim (Bool-cases r.signalled) [
    | inl sent ↦ rw sent (lookup-insert "stop_requested" "generation" (boolean true) state)
    | inr silent ↦ rw silent refl
  ]
  after_stop-same (raised e) state w = ground arith

  stop_unwanted-same :
      (wanted : Bool) (state : Dict Value) (w : World)
      → Holds
          (λ s. lookup "generation" s ≡ lookup "generation" state)
          (stop_unwanted rt rc wanted state w).0
  unfolding stop_unwanted
  stop_unwanted-same true state w = refl
  stop_unwanted-same false state w = let (r, v) = rc.stop_action w in after_stop-same r state v

  degraded-same :
      (state : Dict Value) → lookup "generation" (degraded rt rc state) ≡ lookup "generation" state
  degraded-same state =
      lookup-insert "operator_verification_required" "generation" (boolean true)
        (insert "degraded_reason" (str (tombstone_reason rt rc)) state)
      ∙ lookup-insert "degraded_reason" "generation" (str (tombstone_reason rt rc)) state

  hold_tombstone-Settled :
      (unit actual : String) (wanted : Bool) (state : Dict Value) (n : ℤ) (w : World)
      → Settled state n (hold_tombstone rt rc unit actual wanted state w)
  unfolding hold_tombstone
  hold_tombstone-Settled unit actual wanted state n w =
      let (r, v) = stop_unwanted rt rc wanted (degraded rt rc state) w in
      after_unwanted r v (stop_unwanted-same wanted (degraded rt rc state) w)
    where
      after_unwanted :
          (r : Result (Dict Value)) (v : World)
          → Holds (λ s. lookup "generation" s ≡ lookup "generation" (degraded rt rc state)) r
          → Settled state n (
              (lift r >>= λ s.
              write_state s
              >> (lift (to_int rt (get s "generation")) >>= λ m. pure (
                  outcome rt rc s unit "noop" actual m
                    (as_int (get s "pid"))
                    (str_eq actual "running")
                    (some (tombstone_reason rt rc)))))
                v)
      after_unwanted (raised e) v same = tt
      after_unwanted (ok s) v same =
          save_noop
            (λ m.
              outcome rt rc s unit "noop" actual m (as_int (get s "pid")) (str_eq actual "running")
                (some (tombstone_reason rt rc)))
            (λ m. (refl, refl)) s state n v (same ∙ degraded-same state)

  leave_stopped-Settled :
      (unit : String) (state : Dict Value) (n : ℤ) (w : World)
      → Settled state n (leave_stopped rt rc unit state w)
  unfolding leave_stopped
  leave_stopped-Settled unit state n w =
      let s = insert "actual" (str "stopped") state in
      save_noop (λ m. outcome rt rc s unit "noop" "stopped" m none false none) (λ m. (refl, refl)) s
        state n w (lookup-insert "actual" "generation" (str "stopped") state)

  launched_generation :
      (n : ℤ) (r : SpawnResult) (state : Dict Value)
      → lookup "generation" (launched rt rc n r state) ≡ some (int n)
  launched_generation n r state = grind (arith, lookup-insert)

  refused_generation :
      (state : Dict Value) → lookup "generation" (refused rt rc state) ≡ lookup "generation" state
  refused_generation state = grind (arith, lookup-insert)

  launched-Settled :
      (r : SpawnResult) (unit : String) (state : Dict Value) (n : ℤ) (w : World)
      → Settled state n (after_spawn rt rc (ok r) unit (n +ℤ pos 1) state w)
  launched-Settled r unit state n w =
      let s = launched rt rc (n +ℤ pos 1) r state in
      after_write (write_state s w).0 (write_state s w).1 (write_state-stored s w)
    where
      after_write :
          (x : Result (Unit {0})) (v : World)
          → Holds (λ u. v.state ≡ some (launched rt rc (n +ℤ pos 1) r state)) x
          → Settled state n (
              (lift x >>= λ _. pure (
                  outcome rt rc
                    (launched rt rc (n +ℤ pos 1) r state)
                    unit
                    "spawned"
                    (if r.alive then "running" else "unknown")
                    (n +ℤ pos 1)
                    (some (pos r.pid))
                    r.alive
                    (if r.alive
                      then none
                      else some "leader_exited_operator_verification_required")))
                v)
      after_write (raised e) v found = tt
      after_write (ok u) v found = inr (
        launched rt rc (n +ℤ pos 1) r state,
        found,
        launched_generation (n +ℤ pos 1) r state,
        refl,
        refl,
      )

  refused-Settled :
      (unit : String) (state : Dict Value) (n : ℤ) (w : World)
      → Settled state n (after_spawn rt rc (raised tombstone_error) unit (n +ℤ pos 1) state w)
  refused-Settled unit state n w =
      save_noop
        (λ m.
          outcome rt rc (refused rt rc state) unit "noop" "unknown" m none false
            (some (tombstone_reason rt rc)))
        (λ m. (refl, refl)) (refused rt rc state) state n w (refused_generation state)

  after_spawn-Settled :
      (r : Result SpawnResult) (unit : String) (state : Dict Value) (n : ℤ) (w : World)
      → Settled state n (after_spawn rt rc r unit (n +ℤ pos 1) state w)
  after_spawn-Settled (ok r) unit state n w = launched-Settled r unit state n w
  after_spawn-Settled (raised tombstone_error) unit state n w = refused-Settled unit state n w
  after_spawn-Settled (raised e) unit state n w = tt

  start_unit-Settled :
      (spec : ProcessSpec) (state : Dict Value) (n : ℤ) (w : World)
      → to_int rt (get state "generation") ≡ ok n
      → Settled state n (start_unit rt rc spec state w)
  unfolding start_unit
  start_unit-Settled spec state n w read =
      let (r, v) = rc.spawn_action spec (n +ℤ pos 1) w in
      rw read (after_spawn-Settled r spec.unit state n v)

  converge-Settled :
      (spec : ProcessSpec) (wanted : Bool) (actual : String) (state : Dict Value) (n : ℤ)
      (w : World)
      → to_int rt (get state "generation") ≡ ok n
      → Settled (insert "actual" (str actual) state) n (converge rt rc spec wanted actual state w)
  unfolding converge
  converge-Settled spec wanted actual state n w read =
      let labelled = insert "actual" (str actual) state in
      let read' : to_int rt (get labelled "generation") ≡ ok n =
        rw (lookup-insert "actual" "generation" (str actual) state) read in
      elim (Bool-cases (str_eq actual "stopped")) [
        | inr held ↦ rw held (hold_tombstone-Settled spec.unit actual wanted labelled n w)
        | inl stopped ↦ elim (Bool-cases wanted) [
          | inl up ↦ rw (stopped, up) (start_unit-Settled spec labelled n w read')
          | inr down ↦ rw (stopped, down) (leave_stopped-Settled spec.unit labelled n w)
        ]
      ]

  -- The generation that an outcome reports is the current one, and it is the next one after a launch.
  abbrev pub Advanced : String → ℤ → World → ReconcileOutcome → Type 0
  Advanced unit n w o =
      (generation_of unit w ≡ ok o.generation)
      × (o.generation ≡ (if str_eq o.action "spawned" then n +ℤ pos 1 else n))

  ok_injective : {A : Type 0} (a b : A) → ok a ≡ ok b → a ≡ b
  ok_injective a b e = cc

  by_outcome :
      (unit : String) (actual : String) (n : ℤ) (w v : World) (o : ReconcileOutcome)
      → generation_of unit w ≡ ok n
      → Settled (insert "actual" (str actual) (load_state rc unit w)) n (ok o, v)
      → Advanced unit n v o
  unfolding to_int
  by_outcome unit actual n w v o read (inl k) =
      let same : lookup "generation" k.stored ≡ lookup "generation" (load_state rc unit w) =
        k.same ∙ lookup-insert "actual" "generation" (str actual) (load_state rc unit w) in
      let again = load_state-reload rc unit "generation" w v k.stored k.found same in
      let stored_read : to_int rt (get k.stored "generation") ≡ ok n = rw same read in
      let value : o.generation ≡ n = ok_injective _ _ (sym k.value ∙ stored_read) in
      let after : generation_of unit v ≡ ok n = rw again read in
      (after ∙ ap ok (sym value), rw k.action value)
  by_outcome unit actual n w v o read (inr (d, found, next_one, value, action)) =
      let now : lookup "generation" (load_state rc unit v) ≡ some (int (n +ℤ pos 1)) =
        lookup-load_state rc unit "generation" v ∙ rw (found, next_one) refl in
      (rw (now, value) refl, rw action value)

  lock_unit-state : (w : World) → (lock_unit rt rc w).1.state ≡ w.state
  unfolding lock_unit ensure_unit_dir
  lock_unit-state w = grind (arith, touch-state)

  same_generation :
      (unit : String) (v w : World)
      → v.state ≡ w.state
      → generation_of unit v ≡ generation_of unit w
  unfolding load_state
  same_generation unit v w same = rw same refl

  -- Where the current generation reads as an int, a reconciliation that returns, whatever actions are
  -- injected, leaves as current generation the one that it reports: the next one where it launched a
  -- child, and the old one where it did not.
  pub reconcile_unit-Advanced :
      (spec : ProcessSpec) (policy : Dict Value → Result Bool) (n : ℤ) (w w' : World)
      (o : ReconcileOutcome)
      → generation_of spec.unit w ≡ ok n
      → reconcile_unit rt rc spec policy w ≡ (ok o, w')
      → Advanced spec.unit n w' o
  unfolding reconcile_unit
  reconcile_unit-Advanced spec policy n w w' o read e =
      after_lock (lock_unit rt rc w).0 (lock_unit rt rc w).1 (lock_unit-state w) e
    where
      after_policy :
          (r : Result Bool) (v : World)
          → v.state ≡ w.state
          → (lift r >>= λ wanted x.
                converge rt rc spec wanted
                  (observe_actual x.pid_file)
                  (load_state rc spec.unit v)
                  x)
              v
            ≡ (ok o, w')
          → Advanced spec.unit n w' o
      after_policy (raised x) v same eq = absurd (cc)
      after_policy (ok wanted) v same eq =
          let actual = observe_actual v.pid_file in
          let current = same_generation spec.unit v w same ∙ read in
          let settled =
            converge-Settled spec wanted actual (load_state rc spec.unit v) n v current in
          by_outcome spec.unit actual n v w' o current (rw eq at settled)

      after_lock :
          (r : Result (Unit {0})) (v : World)
          → v.state ≡ w.state
          → (lift r >>= λ _ x.
                (lift (policy (load_state rc spec.unit x)) >>= λ wanted y.
                converge rt rc spec wanted
                  (observe_actual y.pid_file)
                  (load_state rc spec.unit x)
                  y)
                  x)
              v
            ≡ (ok o, w')
          → Advanced spec.unit n w' o
      after_lock (raised x) v same eq = absurd (cc)
      after_lock (ok u) v same eq = after_policy (policy (load_state rc spec.unit v)) v same eq
