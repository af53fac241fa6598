-- ===== src/Fleet/Single.antt =====
-- At most one launch for each clearance: every operation of the supervisor and of the operator on a
-- unit keeps the account, whatever fails on the way, and so does every sequence of them.
use datasource_kit.Prelude.{◌+◌, ◌≤◌, ◌≡◌, refl, Bool, true, false, some, String, arith}
use datasource_kit.Prelude.Int.{ℤ}
use datasource_kit.Prelude.Dict.{Dict}
use datasource_kit.Effect.{Result}
use datasource_kit.Fleet.Json.{Value, Runtime}
use datasource_kit.Fleet.World.{absent, World, write_atomic, write_pid, write_state}
use datasource_kit.Fleet.Process.{ProcessSpec, SpawnResult, spawn}
use datasource_kit.Fleet.Stop.{stop, signal, Clearance, unlink_audited, clear_process_tombstone}
use datasource_kit.Fleet.State.{
  Reconciler, set_desired, merge_heartbeat, stop_unwanted, hold_tombstone, after_spawn, start_unit,
  leave_stopped, converge, lock_unit, reconcile_unit,
}
use datasource_kit.Fleet.Fence.{
  fenced, launches, clearances, fenced_bounded, touch-Same, ensure_unit_dir-Same, spawn-Spends,
}

-- Launches are paid for by a tombstone that was not there before, or by an audited clearance.
pub record Accounts (w w' : World) : Type 0 where
  pub paid :
      launches w' + fenced w.pid_file + clearances w
      ≤ launches w + fenced w'.pid_file + clearances w'

pub Accounts-trans : (u v w : World) → Accounts u v → Accounts v w → Accounts u w
Accounts-trans u v w a b = record { paid = omega (arith, a.paid, b.paid) }

write_state-Accounts : (d : Dict Value) (w : World) → Accounts w (write_state d w).1
unfolding write_state write_atomic
write_state-Accounts d w = grind (arith, touch-Same)

set_desired-Accounts :
    (rc : Reconciler) (unit desired : String) (w : World)
    → Accounts w (set_desired rc unit desired w).1
unfolding set_desired
set_desired-Accounts rc unit desired w = grind (arith, write_state-Accounts)

merge_heartbeat-Accounts :
    (rt : Runtime) (rc : Reconciler) (unit : String) (beat : Dict Value) (w : World)
    → Accounts w (merge_heartbeat rt rc unit beat w).1
unfolding merge_heartbeat
merge_heartbeat-Accounts rt rc unit beat w = grind (arith, write_state-Accounts)

pub signal-Same :
    (token recorded : Value) (w : World)
    → ((signal token recorded w).1.executed ≡ w.executed)
      × ((signal token recorded w).1.pid_file ≡ w.pid_file)
      × ((signal token recorded w).1.audit ≡ w.audit)
unfolding signal
signal-Same token recorded w = ground arith

write_pid-Accounts : (d : Dict Value) (w : World) → Accounts w (write_pid d w).1
unfolding write_pid write_atomic
write_pid-Accounts d w = grind (arith, touch-Same, fenced_bounded)

pub stop-Accounts : (rt : Runtime) (w : World) → Accounts w (stop rt w).1
unfolding stop
stop-Accounts rt w = grind (arith, signal-Same, write_pid-Accounts)

unlink_audited-Accounts : (c : Clearance) (w : World) → Accounts w (unlink_audited c w).1
unfolding unlink_audited
unlink_audited-Accounts c w = grind (arith, touch-Same, fenced_bounded)

clear-Accounts : (c : Clearance) (w : World) → Accounts w (clear_process_tombstone c w).1
unfolding clear_process_tombstone
clear-Accounts c w = grind (arith, touch-Same, ensure_unit_dir-Same, unlink_audited-Accounts)

-- A reconciler whose injected actions keep the account, as `spawn` and `stop` do.
pub record Honest (rc : Reconciler) : Type 0 where
  pub spawns :
      (spec : ProcessSpec) (generation : ℤ) (w : World)
      → Accounts w (rc.spawn_action spec generation w).1
  pub stops : (w : World) → Accounts w (rc.stop_action w).1

module _ (rt : Runtime) (rc : Reconciler) (honest : Honest rc) where
  stop_unwanted-Accounts :
      (wanted : Bool) (state : Dict Value) (w : World)
      → Accounts w (stop_unwanted rt rc wanted state w).1
  unfolding stop_unwanted
  stop_unwanted-Accounts true state w = ground arith
  stop_unwanted-Accounts false state w = ground (arith, honest.stops w)

  hold_tombstone-Accounts :
      (unit actual : String) (wanted : Bool) (state : Dict Value) (w : World)
      → Accounts w (hold_tombstone rt rc unit actual wanted state w).1
  unfolding hold_tombstone
  hold_tombstone-Accounts unit actual wanted state w =
      grind (arith, stop_unwanted-Accounts, write_state-Accounts)

  after_spawn-Accounts :
      (r : Result SpawnResult) (unit : String) (generation : ℤ) (state : Dict Value) (w : World)
      → Accounts w (after_spawn rt rc r unit generation state w).1
  after_spawn-Accounts r unit generation state w = grind (arith, write_state-Accounts)

  start_unit-Accounts :
      (spec : ProcessSpec) (state : Dict Value) (w : World)
      → Accounts w (start_unit rt rc spec state w).1
  unfolding start_unit
  start_unit-Accounts spec state w = grind (arith, honest.spawns, after_spawn-Accounts)

  leave_stopped-Accounts :
      (unit : String) (state : Dict Value) (w : World)
      → Accounts w (leave_stopped rt rc unit state w).1
  unfolding leave_stopped
  leave_stopped-Accounts unit state w = grind (arith, write_state-Accounts)

  converge-Accounts :
      (spec : ProcessSpec) (wanted : Bool) (actual : String) (state : Dict Value) (w : World)
      → Accounts w (converge rt rc spec wanted actual state w).1
  unfolding converge
  converge-Accounts spec wanted actual state w =
      grind (arith, hold_tombstone-Accounts, start_unit-Accounts, leave_stopped-Accounts)

  lock_unit-Accounts : (w : World) → Accounts w (lock_unit rt rc w).1
  unfolding lock_unit
  lock_unit-Accounts w = grind (arith, touch-Same, ensure_unit_dir-Same)

  pub reconcile_unit-Accounts :
      (spec : ProcessSpec) (policy : Dict Value → Result Bool) (w : World)
      → Accounts w (reconcile_unit rt rc spec policy w).1
  unfolding reconcile_unit
  reconcile_unit-Accounts spec policy w = grind (arith, lock_unit-Accounts, converge-Accounts)

module _ (rt : Runtime) (zero_time : Value) where
  -- the reconciler with the default actions
  abbrev pub default_reconciler : Value → Reconciler
  default_reconciler version = record {
    schema_version = version;
    spawn_action = λ spec generation. spawn rt zero_time spec (some generation);
    stop_action = stop rt;
  }

  pub default-Honest : (version : Value) → Honest (default_reconciler version)
  default-Honest version = record {
    spawns = λ spec generation w.
        let s = spawn-Spends rt zero_time spec (some generation) w in
        record { paid = omega (arith, s.spent, s.clearances_kept) };
    stops = stop-Accounts rt;
  }

  -- What may happen to a unit, in any order. Between operations the outside world may change what
  -- it likes but pid.json, the audit, and the launches: a supervisor that crashes loses its handles,
  -- processes exit, state.json is edited, the coming faults are any.
  pub data Step (version : Value) (w : World) : World → Type 0 where
    reconcile :
        (spec : ProcessSpec) (policy : Dict Value → Result Bool)
        → Step version w (reconcile_unit rt (default_reconciler version) spec policy w).1
    desire :
        (unit desired : String)
        → Step version w (set_desired (default_reconciler version) unit desired w).1
    report :
        (unit : String) (beat : Dict Value)
        → Step version w (merge_heartbeat rt (default_reconciler version) unit beat w).1
    halt : Step version w (stop rt w).1
    clear : (c : Clearance) → Step version w (clear_process_tombstone c w).1
    outside :
        (w' : World)
        → w'.executed ≡ w.executed
        → w'.pid_file ≡ w.pid_file
        → w'.audit ≡ w.audit
        → Step version w w'

  pub data Steps (version : Value) (w : World) : World → Type 0 where
    done : Steps version w w
    more : (v w' : World) → Steps version w v → Step version v w' → Steps version w w'

  one_account : (version : Value) (w w' : World) → Step version w w' → Accounts w w'
  one_account version w w' (reconcile spec policy) =
      reconcile_unit-Accounts rt (default_reconciler version) (default-Honest version) spec policy w
  one_account version w w' (desire unit desired) =
      set_desired-Accounts (default_reconciler version) unit desired w
  one_account version w w' (report unit beat) =
      merge_heartbeat-Accounts rt (default_reconciler version) unit beat w
  one_account version w w' halt = stop-Accounts rt w
  one_account version w w' (clear c) = clear-Accounts c w
  one_account version w w' (outside _ runs file lines) = ground arith

  pub account_kept : (version : Value) (w w' : World) → Steps version w w' → Accounts w w'
  account_kept version w w' done = ground arith
  account_kept version w w' (more v _ before s) =
      Accounts-trans w v w' (account_kept version w v before) (one_account version v w' s)

  -- From a unit without a tombstone, any sequence of reconciliations, desired states, heartbeats,
  -- stops, clearances, crashes and faults launches at most one consumer more than it has audited
  -- clearances by `clear_process_tombstone`; and where no tombstone stands in the end, at most as many.
  pub launches_bounded :
      (version : Value) (w w' : World)
      → w.pid_file ≡ absent
      → Steps version w w'
      → (launches w' + clearances w ≤ launches w + 1 + clearances w')
        × (w'.pid_file ≡ absent → launches w' + clearances w ≤ launches w + clearances w')
  launches_bounded version w w' free steps =
      let a = account_kept version w w' steps in
      let zero_before : fenced w.pid_file ≡ 0 = rw free refl in
      let b = fenced_bounded w'.pid_file in
      (
        omega (arith, a.paid, zero_before, b),
        λ gone.
            let zero_after : fenced w'.pid_file ≡ 0 = rw gone refl in
            omega (arith, a.paid, zero_before, zero_after),
      )
