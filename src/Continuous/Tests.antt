-- ===== src/Continuous/Tests.antt =====
-- `ContinuousWorkerHost` on a small world, and the theorems at inputs where their conditions hold.
use datasource_kit.Prelude.{ℕ, ◌+◌, ◌≡◌, ◌≢◌, refl, Bool, true, false, none, some}
use datasource_kit.Prelude.Int.{pos}
use datasource_kit.Prelude.Floats.{ticks}
use datasource_kit.Effect.{ok}
use datasource_kit.Threads.{Threads, Sleeper}
use datasource_kit.Continuous.Directive.{
  LoopAction, BoundaryAction, LoopDirective, LoopRun, Returned,
}
use datasource_kit.Continuous.Host.{
  Host, run, loop, iterate, ask_control, stepped, periodic, attempt, try_step, recover, apply,
  settle, rotate_boundary, emit, report, wait_for,
}
use datasource_kit.Continuous.Counters.{RunIsBounded}
use datasource_kit.Continuous.Calls.{CountsSteps}
use datasource_kit.Continuous.Run.{Failed, run-IsBounded, run-sequence, run-lock_held}
use datasource_kit.Continuous.Termination.{AllCounted, run_ends}

-- the calls of the step, the lock and the stop event
record Desk : Type 0 where
  steps : ℕ
  lock : Bool
  stopped : Bool

abbrev desk_threads : Threads Desk
desk_threads = record {
  stop_is_set = λ w. w.stopped;
  lock_held = λ w. w.lock;
  set_lock = λ b w. record w { lock = b };
  lock_held-set_lock = λ b w. refl;
  stop_is_set-set_lock = λ b w. refl;
}

abbrev go_on : LoopDirective ℕ
go_on = record {
  action = LoopAction.continue;
  boundary = BoundaryAction.keep;
  delay = none;
  counted = true;
  reason = "";
}

-- a step that is counted, and rotates the boundary every two attempts
abbrev desk_host : Host ℕ Desk
desk_host = record {
  step = λ ctx w. (ok (Returned.directive go_on), record w { steps = w.steps + 1 });
  control = none;
  rotate = none;
  on_error = none;
  observe = none;
  sleep = Sleeper.injected (λ d w. (ok tt, w));
  rotation_attempts = some (pos 2);
}

abbrev fresh : Desk
fresh = record { steps = 0; lock = false; stopped = false }

abbrev three : LoopRun ℕ
three = record { sequence = 3; counted = 3; attempts_in_boundary = 1; last_directive = some go_on }

three_rounds :
    run ticks desk_threads desk_host 4 (some (pos 3)) fresh
    ≡ some (ok three, record fresh { steps = 3 })
unfolding run loop iterate ask_control stepped periodic attempt try_step recover apply settle
    rotate_boundary emit report wait_for
three_rounds = refl

run-IsBounded_example : RunIsBounded ticks desk_threads desk_host (some (pos 3)) three
run-IsBounded_example =
    run-IsBounded ticks desk_threads desk_host 4 (some (pos 3)) fresh (record fresh { steps = 3 })
      three refl three_rounds

desk-CountsSteps : CountsSteps ticks desk_host (λ w. w.steps)
desk-CountsSteps = record {
  by_step = λ ctx w. refl;
  by_control = λ f ctx w e. cc;
  by_rotate = λ f ctx reason w e. cc;
  by_on_error = λ f x ctx w e. cc;
  by_observe = λ f event ctx d w e. cc;
  by_event_wait = λ f x w e. cc;
  by_sleep = λ f x w e. let same : f ≡ (λ d v. (ok tt, v)) = cc in rw same refl;
}

run-sequence_example : 3 ≡ 0 + three.sequence
run-sequence_example =
    run-sequence ticks desk_threads desk_host (λ w. w.steps) 4 (some (pos 3)) fresh
      (record fresh { steps = 3 }) three desk-CountsSteps (λ b v. refl) three_rounds

run-lock_held_example :
    (false ≡ fresh.lock)
    × (fresh.lock ≡ true → (record fresh { steps = 3 } ≡ fresh) × Failed (ok three))
run-lock_held_example =
    run-lock_held ticks desk_threads desk_host 4 (some (pos 3)) fresh (record fresh { steps = 3 })
      (ok three) three_rounds

desk-AllCounted : AllCounted ticks desk_host
desk-AllCounted = record {
  no_control = refl;
  by_step = λ ctx w. refl;
  by_on_error = λ f x ctx w e. cc;
}

run_ends_example : run ticks desk_threads desk_host 4 (some (pos 3)) fresh ≢ none
run_ends_example = run_ends ticks desk_threads desk_host desk-AllCounted 3 fresh
