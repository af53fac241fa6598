-- ===== src/Runtime/Tests.antt =====
-- Two windows, one of which fails twice and so is not fetched; the other gives a valid and an invalid
-- record.
use datasource_kit.Prelude.{
  ℕ, zero, suc, ◌+◌, ◌≡◌, refl, Bool, true, false, none, List, [], ◌∷◌, ◌++◌, arith,
}
use datasource_kit.Prelude.Int.{pos}
use datasource_kit.Prelude.Dict.{lookup}
use datasource_kit.Prelude.Floats.{ticks}
use datasource_kit.Effect.{consumer, Result, ok, raised}
use datasource_kit.Retry.{retry, retry_loop, guarded, pause, delay_seconds, capped}
use datasource_kit.Runtime.Ingest.{
  Record, dict, other, Assessment, Providers, Warning, IngestReport, valid_records, is_valid,
  fetch_window, body, window_round, all_windows, persist, assess, conclude, completeness,
  run_ingest,
}
use datasource_kit.Runtime.Report.{Accounted, run_ingest-Accounted}
use datasource_kit.Runtime.Returns.{ordinary, returned, Works, run_ingest_returns}

-- the records of the store, and the seconds slept
record Site : Type 0 where
  stored : List (Record ℕ)
  slept : ℕ

abbrev fetched : ℕ → Result (List (Record ℕ))
fetched zero = raised (consumer 0)
fetched _ = ok (dict (("id", 7) ∷ []) ∷ other 3 ∷ [])

abbrev truth : ℕ → Bool
truth zero = false
truth _ = true

abbrev source : Providers ℕ ℕ ℕ ℕ Site
source = record {
  enumerate = λ w. (ok (0 ∷ 1 ∷ []), w);
  fetcher = λ x w. (fetched x, w);
  mapper = λ rs w. (ok rs, w);
  differ = λ a b w. (ok 1, w);
  assessor = λ rs x w. (ok (record { status = none; count = ok (pos 1) }), w);
  store = record {
    load = λ w. (ok w.stored, w);
    replace_all = λ rs w. (ok tt, record w { stored = rs });
    upsert = none;
    save = λ rs w. (ok tt, record w { stored = w.stored ++ rs });
  };
  replaced = λ d. false;
  truth = truth;
  acquire = λ w. (ok 0, w);
  sleep = λ d w. (ok tt, record w { slept = w.slept + d });
  policy = record {
    retries = pos 2;
    backoff_seconds = 5;
    backoff = "linear";
    max_backoff_seconds = none;
    retry_on = λ e. true;
  };
}

abbrev outcome : IngestReport ℕ ℕ ℕ ℕ
outcome = record {
  status = "partial";
  windows = record { window = 1; fetched = 2; persistable = 1; invalid = 1 } ∷ [];
  windows_processed = 2;
  records_fetched = 1;
  diff = 1;
  completeness = none;
  retries_used = 0;
  rate_limit_waits = 0 ∷ 0 ∷ [];
  warnings = Warning.window_failed 0 (consumer 0) ∷ Warning.invalid_records 1 1 ∷ [];
}

abbrev empty_site : Site
empty_site = record { stored = []; slept = 0 }

ingested :
    run_ingest ticks source [] empty_site
    ≡ (ok outcome, record { stored = dict (("id", 7) ∷ []) ∷ []; slept = 5 })
unfolding run_ingest all_windows window_round body fetch_window retry retry_loop guarded pause
    delay_seconds capped valid_records is_valid conclude persist completeness lookup
ingested = refl

run_ingest-Accounted_example :
    Accounted ticks source empty_site
      (record { stored = dict (("id", 7) ∷ []) ∷ []; slept = 5 })
      outcome
run_ingest-Accounted_example =
    run_ingest-Accounted ticks source [] empty_site
      (record { stored = dict (("id", 7) ∷ []) ∷ []; slept = 5 }) outcome ingested

source-Works : Works ticks source
unfolding persist
source-Works = record {
  acquires = λ w. refl;
  fetches = fetched_ordinary;
  maps = λ rs w. refl;
  sleeps = λ d w. refl;
  loads = λ w. refl;
  enumerates = λ w. refl;
  diffs = λ a b w. refl;
  persists = λ d rs w. refl;
  assesses = assessed;
  counts = counted;
}
  where
    fetched_ordinary : (x : ℕ) (w : Site) → ordinary (fetched x) ≡ true
    fetched_ordinary zero w = refl
    fetched_ordinary (suc x) w = refl

    assessed :
        (rs : List (Record ℕ)) (xs : List ℕ) (w : Site)
        → returned (assess ticks source rs xs w).0 ≡ true
    assessed rs [] w = refl
    assessed rs (x ∷ []) w = refl
    assessed rs (x ∷ y ∷ ys) w = assessed rs (y ∷ ys) w

    counted :
        (rs : List (Record ℕ)) (xs : List ℕ) (w : Site) (a : Assessment)
        → (assess ticks source rs xs w).0 ≡ ok a
        → returned a.count ≡ true
    counted rs [] w a e = ground arith
    counted rs (x ∷ []) w a e = ground arith
    counted rs (x ∷ y ∷ ys) w a e = counted rs (y ∷ ys) w a e

run_ingest_returns_example :
    (report : IngestReport ℕ ℕ ℕ ℕ) × (w' : Site) × (run_ingest ticks source [] empty_site
      ≡ (ok report, w'))
    × Accounted ticks source empty_site w' report
run_ingest_returns_example = run_ingest_returns ticks source [] empty_site source-Works
