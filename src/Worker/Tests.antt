-- ===== src/Worker/Tests.antt =====
-- `WorkerHost` on a small world with counters, and the theorems at inputs where their conditions hold.
use datasource_kit.Prelude.{
  ℕ, ◌+◌, ◌*◌, ◌≤◌, ◌≡◌, ◌≢◌, refl, Bool, false, none, some, if◌then◌else◌, ◌==◌,
}
use datasource_kit.Prelude.Int.{pos}
use datasource_kit.Prelude.Floats.{ticks}
use datasource_kit.Effect.{ok, raised, runtime_error, consumer}
use datasource_kit.Threads.{Threads, Sleeper}
use datasource_kit.Worker.Backoff.{
  BackoffPolicy, delay, uncapped, at_most_maximum, delay-le-maximum,
}
use datasource_kit.Worker.Intent.{WorkDirective, Planned, Intent, CheckpointStore, WorkerRun}
use datasource_kit.Worker.Host.{
  Host, run, main, opening, started, loop, iterate, body, perform, work_round, store_round,
  announce, follow, idle_round, source_step, persist_step, emit, wait_for, finish, back_off,
}
use datasource_kit.Worker.Bounds.{run-WithinIterations, bounded_run_ends}
use datasource_kit.Worker.Durable.{View, Stores}
use datasource_kit.Worker.AtLeastOnce.{run-at_least_once}
use datasource_kit.Worker.Locking.{run-lock_restored, BrokenClock, broken_clock_keeps_lock}

-- the stores, the fetches, and the two synchronisation objects
record Shop : Type 0 where
  view : View ℕ
  fetches : ℕ
  lock : Bool
  stopped : Bool

abbrev shop_threads : Threads Shop
shop_threads = record {
  stop_is_set = λ w. w.stopped;
  lock_held = λ w. w.lock;
  set_lock = λ b w. record w { lock = b };
  lock_held-set_lock = λ b w. refl;
  stop_is_set-set_lock = λ b w. refl;
}

abbrev fresh : Shop
fresh = record {
  view = record { durable = none; saves = 0; persists = 0 };
  fetches = 0;
  lock = false;
  stopped = false;
}

-- a source whose second fetch fails
abbrev shop_intent : Intent ℕ Shop
shop_intent = record {
  plan = λ c w.
      (ok (Planned.decision (record { directive = some WorkDirective.continue; work = 7 })), w);
  fetch = λ plan w. (
    if w.fetches == 1 then raised (consumer 0) else ok plan,
    record w { fetches = w.fetches + 1 },
  );
  transform = λ payload plan w. (ok (payload * 2), w);
  output = none;
  persist = λ result plan w.
      (ok tt, record w { view = record w.view { persists = w.view.persists + 1 } });
  checkpoint = some (λ result plan w. (ok (some result), w));
}

abbrev shop_checkpoints : CheckpointStore ℕ Shop
shop_checkpoints = record {
  load = λ w. (ok w.view.durable, w);
  save =
      λ c w. (ok tt, record w { view = record w.view { durable = c; saves = w.view.saves + 1 } });
}

abbrev policy : BackoffPolicy ℕ
policy = record {
  initial_seconds = 1;
  maximum_seconds = 60;
  multiplier = 2;
  idle_seconds = 30;
  max_consecutive_failures = some (pos 2);
}

abbrev shop_host : Host ℕ ℕ Shop
shop_host = record {
  intent = shop_intent;
  checkpoints = shop_checkpoints;
  backoff = policy;
  heartbeat = none;
  sleep = Sleeper.injected (λ d w. (ok tt, w));
  now = λ w. (ok "t", w);
}

abbrev three : WorkerRun ℕ
three = record { checkpoint = some 14; completed = 2; failures = 1; iterations = 3 }

abbrev after_three : Shop
after_three = record fresh {
  view = record { durable = some 14; saves = 2; persists = 2 };
  fetches = 3;
}

three_iterations :
    run ticks shop_threads shop_host 4 (some (pos 3)) fresh ≡ some (ok three, after_three)
unfolding run main opening started loop iterate body perform work_round store_round announce follow
    idle_round source_step persist_step emit wait_for finish back_off delay uncapped at_most_maximum
three_iterations = refl

run-WithinIterations_example : (2 ≤ 3) × (1 ≤ 3) × (3 ≤ 3)
run-WithinIterations_example =
    run-WithinIterations ticks shop_threads shop_host 4 (some (pos 3)) fresh after_three three
      three_iterations

bounded_run_ends_example : run ticks shop_threads shop_host 4 (some (pos 3)) fresh ≢ none
bounded_run_ends_example = bounded_run_ends ticks shop_threads shop_host 3 fresh

shop-Stores : Stores ticks shop_host (λ w. w.view)
shop-Stores = record {
  by_load = λ w. refl;
  loads = λ w. refl;
  by_save = λ c w. (refl, refl, refl);
  by_persist = λ x p w. (refl, refl, refl);
  by_plan = λ c w. refl;
  by_fetch = λ p w. refl;
  by_transform = λ x p w. refl;
  by_output = λ f x p w e. cc;
  by_checkpoint =
      λ f x p w e. let same : f ≡ (λ result plan v. (ok (some result), v)) = cc in rw same refl;
  by_heartbeat = λ f b w e. cc;
  by_now = λ w. refl;
  by_event_wait = λ f x w e. cc;
  by_sleep = λ f x w e. let same : f ≡ (λ d v. (ok tt, v)) = cc in rw same refl;
}

run-at_least_once_example : (some 14 ≡ after_three.view.durable) × (2 ≡ 0 + 2) × (0 + 2 ≤ 2)
run-at_least_once_example =
    run-at_least_once ticks shop_threads shop_host (λ w. w.view) shop-Stores 4 (some (pos 3)) fresh
      after_three three (λ b v. refl) three_iterations

run-lock_restored_example : false ≡ false
unfolding emit
run-lock_restored_example =
    run-lock_restored ticks shop_threads shop_host 4 (some (pos 3)) fresh after_three (ok three)
      (λ s. refl) three_iterations

-- a heartbeat under a clock that raises
abbrev broken_host : Host ℕ ℕ Shop
broken_host = record shop_host {
  heartbeat = some (λ b w. (ok tt, w));
  now = λ w. (raised (consumer 1), w);
}

broken_host-BrokenClock : BrokenClock ticks shop_threads broken_host (consumer 1)
broken_host-BrokenClock = record {
  beats = ((λ b w. (ok tt, w)), refl);
  raises = λ v. refl;
  keeps = λ v. refl;
  loads = λ v. refl;
}

broken_clock_keeps_lock_example :
    (w' : Shop) × (run ticks shop_threads broken_host 1 none fresh ≡ some (raised (consumer 1), w'))
    × (run ticks shop_threads broken_host 1 none w' ≡ some (raised runtime_error, w'))
broken_clock_keeps_lock_example =
    broken_clock_keeps_lock ticks shop_threads broken_host (consumer 1) broken_host-BrokenClock 1 1
      fresh refl

third_delay : delay ticks policy 3 ≡ ok 4
unfolding delay uncapped at_most_maximum
third_delay = refl

delay-le-maximum_example : ticks.f_lt 60 4 ≡ false
delay-le-maximum_example = delay-le-maximum ticks policy 3 4 third_delay
