-- ===== src/Fetch/IngestTests.antt =====
-- A worker host that ingests three units into a world that is a log, a stored checkpoint and a lock.
use datasource_kit.Prelude.{
  refl, Bool, false, Option, none, some, String, List, [], ◌∷◌, ◌++◌, arith,
}
use datasource_kit.Prelude.Int.{pos}
use datasource_kit.Prelude.Floats.{ticks}
use datasource_kit.Effect.{ok, Action}
use datasource_kit.Threads.{Threads, Sleeper, event_wait}
use datasource_kit.Worker.Backoff.{BackoffPolicy}
use datasource_kit.Worker.Intent.{CheckpointStore}
use datasource_kit.Worker.Host.{run}
use datasource_kit.Fetch.Cursor.{as_dict}
use datasource_kit.Fetch.Resume.{cursor_of}
use datasource_kit.Fetch.Intent.{Obj, atom, mapping}
use datasource_kit.Fetch.Steady.{Seen, Steady, fetch_host}
use datasource_kit.Fetch.Ingest.{Ingested, run_ingests_all, run_ingests_rest}
use datasource_kit.Fetch.Tests.{blank, name, planner, built}

-- a payload is the text of its unit
abbrev Thing : Type 0
Thing = Obj String String

record Site : Type 0 where
  seen : Seen String String
  lock : Bool

abbrev seen_of : Site → Seen String String
seen_of w = w.seen

abbrev threads : Threads Site
threads = record {
  stop_is_set = λ w. false;
  lock_held = λ w. w.lock;
  set_lock = λ b w. record w { lock = b };
  lock_held-set_lock = λ b w. refl;
  stop_is_set-set_lock = λ b w. refl;
}

abbrev ask : String → Site → Site
ask u w = record w {
  seen = record {
    fetches = (w.seen).fetches ++ u ∷ [];
    log = (w.seen).log;
    durable = (w.seen).durable;
  };
}

abbrev fetcher : String → Action Site Thing
fetcher u w = (ok (atom u), ask u w)

abbrev append : Thing → Thing → Site → Site
append x plan w = record w {
  seen = record {
    fetches = (w.seen).fetches;
    log = (w.seen).log ++ x ∷ [];
    durable = (w.seen).durable;
  };
}

abbrev save : Thing → Thing → Action Site (Unit {0})
save x plan w = (ok tt, append x plan w)

abbrev put : Option Thing → Site → Site
put c w = record w { seen = record { fetches = (w.seen).fetches; log = (w.seen).log; durable = c } }

abbrev store : CheckpointStore Thing Site
store = record { load = λ w. (ok (w.seen).durable, w); save = λ c w. (ok tt, put c w) }

abbrev steady : Steady threads fetcher save store seen_of
steady = record {
  read = λ u. atom u;
  touch = ask;
  put = append;
  keep = put;
  look = λ w. w;
  fetched = λ u w. refl;
  saved = λ x plan w. refl;
  kept = λ c w. refl;
  loaded = λ w. refl;
  touch-seen = λ u w. refl;
  put-seen = λ x plan w. refl;
  keep-seen = λ c w. refl;
  look-seen = λ w. refl;
  set_lock-seen = λ b w. refl;
  running = λ w. refl;
}

abbrev backoff : BackoffPolicy (ticks.Float)
backoff = record {
  initial_seconds = 1;
  maximum_seconds = 60;
  multiplier = 2;
  idle_seconds = 30;
  max_consecutive_failures = some (pos 5);
}

abbrev sleeper : Sleeper (ticks.Float) Site
sleeper = event_wait (λ f w. (ok tt, w))

abbrev now : Action Site String
now w = (ok "now", w)

abbrev idle_site : List String → Option Thing → List Thing → Site
idle_site fetches durable log = record {
  seen = record { fetches = fetches; log = log; durable = durable };
  lock = false;
}

run_ingests_all_example :
    Ingested ticks blank threads fetcher save planner store backoff sleeper now seen_of steady
      ("c" ∷ "b" ∷ "a" ∷ [])
      "a"
      (record { fetches = []; log = []; durable = none })
      (run ticks threads
        (fetch_host ticks blank fetcher save planner store backoff sleeper now)
        3
        none
        (idle_site [] none []))
run_ingests_all_example =
    run_ingests_all ticks blank threads fetcher save planner store backoff sleeper now seen_of
      steady ("a" ∷ "b" ∷ "c" ∷ []) "page" "reverse" name 2 3 "a" (idle_site [] none []) built refl
      refl (omega arith) refl refl

run_ingests_rest_example :
    Ingested ticks blank threads fetcher save planner store backoff sleeper now seen_of steady
      ("b" ∷ "a" ∷ [])
      "a"
      (record {
        fetches = "c" ∷ [];
        log = atom "c" ∷ [];
        durable = some (mapping (as_dict (cursor_of blank planner "c")));
      })
      (run ticks threads
        (fetch_host ticks blank fetcher save planner store backoff sleeper now)
        2
        none
        (idle_site
          ("c" ∷ [])
          (some (mapping (as_dict (cursor_of blank planner "c"))))
          (atom "c" ∷ [])))
run_ingests_rest_example =
    run_ingests_rest ticks blank threads fetcher save planner store backoff sleeper now seen_of
      steady ("a" ∷ "b" ∷ "c" ∷ []) "page" "reverse" name 0 1 2 "c" "a"
      (idle_site ("c" ∷ []) (some (mapping (as_dict (cursor_of blank planner "c"))))
        (atom "c" ∷ []))
      built refl refl refl (omega arith) refl refl
