-- ===== src/Runtime/Returns.antt =====
-- A `run_ingest` whose windows may fail returns all the same.
use datasource_kit.Prelude.{
  ℕ, zero, suc, ◌+◌, ◌≡◌, refl, ap, Bool, true, false, String, List, [], ◌∷◌, length, arith,
}
use datasource_kit.Prelude.Int.{ℤ, pos_part}
use datasource_kit.Prelude.Floats.{Floats}
use datasource_kit.Effect.{is_exception, Result, ok, raised, lift, pure, ◌>>=◌, ◌>>◌}
use datasource_kit.Retry.{retry, retry_loop, guarded, pause, delay_seconds}
use datasource_kit.Runtime.Ingest.{
  Record, Providers, Assessment, Progress, Run, Counted, IngestReport, fetch_once, counted_sleep,
  fetch_window, body, window_round, all_windows, persist, assess, report_of, conclude, run_ingest,
}
use datasource_kit.Runtime.Report.{Accounted, run_ingest-Accounted}

-- no KeyboardInterrupt and no SystemExit
abbrev pub ordinary : {A : Type 0} → Result A → Bool
ordinary (ok a) = true
ordinary (raised e) = is_exception e

abbrev pub returned : {A : Type 0} → Result A → Bool
returned (ok a) = true
returned (raised e) = false

module _ (fl : Floats) {V X D W : Type 0} (p : Providers (fl.Float) V X D W) where
  open fl use {Float}

  -- What the throttle, the fetcher, the mapper and the sleep raise is an Exception; the store, the
  -- enumerator, the diff and the assessor return, and the assessment has a count.
  pub record Works : Type 0 where
    pub acquires : (w : W) → ordinary (p.acquire w).0 ≡ true
    pub fetches : (x : X) (w : W) → ordinary (p.fetcher x w).0 ≡ true
    pub maps : (rs : List (Record V)) (w : W) → ordinary (p.mapper rs w).0 ≡ true
    pub sleeps : (d : Float) (w : W) → ordinary (p.sleep d w).0 ≡ true
    pub loads : (w : W) → returned (p.store.load w).0 ≡ true
    pub enumerates : (w : W) → returned (p.enumerate w).0 ≡ true
    pub diffs : (a b : List (Record V)) (w : W) → returned (p.differ a b w).0 ≡ true
    pub persists : (d : D) (rs : List (Record V)) (w : W) → returned (persist fl p d rs w).0 ≡ true
    pub assesses :
        (rs : List (Record V)) (xs : List X) (w : W) → returned (assess fl p rs xs w).0 ≡ true
    pub counts :
        (rs : List (Record V)) (xs : List X) (w : W) (a : Assessment)
        → (assess fl p rs xs w).0 ≡ ok a
        → returned a.count ≡ true

  module _ (k : Works) where
    delay-ordinary : (i : ℕ) → ordinary (delay_seconds fl p.policy i) ≡ true
    unfolding delay_seconds
    delay-ordinary i = grind arith

    retry_loop-ordinary :
        (left i : ℕ) (x : X) (s : Counted W)
        → ordinary (retry_loop fl p.policy (counted_sleep fl p) (fetch_once fl p x) left i s).0
          ≡ true
    unfolding retry_loop guarded pause
    retry_loop-ordinary zero i x s = refl
    retry_loop-ordinary (suc left) i x s =
        grind (arith, k.fetches, k.sleeps, delay-ordinary, retry_loop-ordinary left (i + 1) x)

    fetch_window-ordinary : (x : X) (w : W) → ordinary (fetch_window fl p x w).0 ≡ true
    unfolding fetch_window retry
    fetch_window-ordinary x w = grind (arith, retry_loop-ordinary (pos_part (p.policy).retries) 0 x)

    body-ordinary : (x : X) (s : Run Float V X W) → ordinary (body fl p x s).0 ≡ true
    unfolding body
    body-ordinary x s = grind (arith, k.acquires, fetch_window-ordinary, k.maps)

    window_round-returned :
        (x : X) (s : Run Float V X W) → returned (window_round fl p x s).0 ≡ true
    unfolding window_round
    window_round-returned x s = grind (arith, body-ordinary)

    all_windows-returned :
        (xs : List X) (s : Run Float V X W) → returned (all_windows fl p xs s).0 ≡ true
    unfolding all_windows
    all_windows-returned [] s = refl
    all_windows-returned (x ∷ xs) s = grind (arith, window_round-returned, all_windows-returned xs)

    after_count :
        (layers : List String) (n : ℕ) (q : Progress Float V X) (d : D) (a : Assessment) (w : W)
        (r : Result ℤ)
        → returned r ≡ true
        → returned ((lift r >>= λ count. pure (report_of fl p layers n d a count q)) w).0 ≡ true
    after_count layers n q d a w (raised e) h = h
    after_count layers n q d a w (ok count) h = refl

    after_assess :
        (layers : List String) (n : ℕ) (q : Progress Float V X) (d : D) (w : W)
        (r : Result Assessment)
        → returned r ≡ true
        → ((a : Assessment) → r ≡ ok a → returned a.count ≡ true)
        → returned
            ((lift r >>= λ a. lift a.count >>= λ count. pure (report_of fl p layers n d a count q))
              w).0
          ≡ true
    after_assess layers n q d w (raised e) h counted = h
    after_assess layers n q d w (ok a) h counted =
        after_count layers n q d a w a.count (counted a refl)

    after_persist :
        (layers : List String) (xs : List X) (q : Progress Float V X) (d : D) (w : W)
        (r : Result (Unit {0}))
        → returned r ≡ true
        → returned
            ((lift r >>= λ _. assess fl p q.fetched xs >>= λ a.
                lift a.count >>= λ count. pure (report_of fl p layers (length xs) d a count q))
              w).0
          ≡ true
    after_persist layers xs q d w (raised e) h = h
    after_persist layers xs q d w (ok u) h =
        let (r, w') = assess fl p q.fetched xs w in
        after_assess layers (length xs) q d w' r (k.assesses q.fetched xs w)
          (k.counts q.fetched xs w)

    after_differ :
        (layers : List String) (xs : List X) (q : Progress Float V X) (w : W) (r : Result D)
        → returned r ≡ true
        → returned
            ((lift r >>= λ d.
                persist fl p d q.fetched
                >> (assess fl p q.fetched xs >>= λ a.
                    lift a.count >>= λ count. pure (report_of fl p layers (length xs) d a count q)))
              w).0
          ≡ true
    after_differ layers xs q w (raised e) h = h
    after_differ layers xs q w (ok d) h =
        let (r, w') = persist fl p d q.fetched w in
        after_persist layers xs q d w' r (k.persists d q.fetched w)

    conclude-returned :
        (layers : List String) (xs : List X) (stored : List (Record V)) (q : Progress Float V X)
        (w : W)
        → returned (conclude fl p layers xs stored q w).0 ≡ true
    unfolding conclude
    conclude-returned layers xs stored q w =
        let (r, w') = p.differ q.fetched stored w in
        after_differ layers xs q w' r (k.diffs q.fetched stored w)

    run_ingest-returned :
        (layers : List String) (w : W) → returned (run_ingest fl p layers w).0 ≡ true
    unfolding run_ingest
    run_ingest-returned layers w =
        grind (arith, k.loads, k.enumerates, all_windows-returned, conclude-returned)

    value_of : {A : Type 0} (r : Result A) → returned r ≡ true → (a : A) × (r ≡ ok a)
    value_of (ok a) h = (a, refl)
    value_of (raised e) h = absurd cc

  -- Where the throttle, the fetcher, the mapper and the sleep raise nothing but Exceptions, at whatever
  -- windows, and the enumerator, the load and the write of the store, the diff and the assessor return,
  -- with an assessment whose count is a number: the run returns a report, however many windows fail, and
  -- the run and its report are as `Accounted` tells: one round for each enumerated window, in their order
  -- and each from the world that the one before it left, with its calls of the fetcher, its entry or
  -- failure and the records that it kept; one write of the kept records; and the report of these.
  pub run_ingest_returns :
      (layers : List String) (w : W)
      → Works
      → (report : IngestReport Float V X D) × (w' : W) × (run_ingest fl p layers w
          ≡ (ok report, w'))
        × Accounted fl p w w' report
  run_ingest_returns layers w k =
      let (r, w') = run_ingest fl p layers w in
      let (report, e) = value_of k r (run_ingest-returned k layers w) in
      let ended : run_ingest fl p layers w ≡ (ok report, w') = ap (λ x. (x, w')) e in
      (report, w', ended, run_ingest-Accounted fl p layers w w' report ended)
