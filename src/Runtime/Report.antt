-- ===== src/Runtime/Report.antt =====
-- What the report of a `run_ingest` that returned says of the run's calls.
use mathlib.Core.Path.{subst}
use datasource_kit.Prelude.{◌+◌, ◌-◌, ◌*◌, ◌≤◌, ◌≡◌, sym, refl, String, List, length, arith}
use datasource_kit.Prelude.Int.{pos_part}
use datasource_kit.Prelude.Floats.{Floats}
use datasource_kit.Effect.{Result, ok, raised, lift, ◌>>=◌, Holds, Holds-map}
use datasource_kit.Runtime.Ingest.{
  Record, Providers, Progress, Run, IngestReport, fresh, all_windows, conclude, after_loop,
  run_ingest,
}
use datasource_kit.Runtime.Counting.{failures, persistable_total}
use datasource_kit.Runtime.Trace.{Rounds}
use datasource_kit.Runtime.Rounds.{all_windows-Rounds}
use datasource_kit.Runtime.Account.{Counts, Rounds-Counts}
use datasource_kit.Runtime.Conclude.{Concluded, conclude-Concluded}

module _ (fl : Floats) {V X D W : Type 0} (p : Providers (fl.Float) V X D W) where
  open fl use {Float}

  -- The claims on a report, for a run from the world `w` to the world `w'`.
  pub record Accounted (w w' : W) (report : IngestReport Float V X D) : Type 0 where
    pub stored : List (Record V)
    pub windows : List X
    pub locals : Progress Float V X
    pub loaded : W
    pub enumerated : W
    pub looped : W
    pub load : (p.store).load w ≡ (ok stored, loaded)
    pub enumerate : p.enumerate loaded ≡ (ok windows, enumerated)
    pub rounds : Rounds fl p windows fresh enumerated locals looped
    pub concluded : Concluded fl p windows stored locals looped report w'
    pub windows_accounted : length report.windows + failures report.warnings ≡ length windows
    pub records_accounted : persistable_total report.windows ≡ report.records_fetched
    pub retries_bounded : report.retries_used ≤ length windows * (pos_part (p.policy).retries - 1)

  account :
      (w w1 w2 w3 w' : W) (stored : List (Record V)) (xs : List X) (q : Progress Float V X)
      (report : IngestReport Float V X D)
      → (p.store).load w ≡ (ok stored, w1)
      → p.enumerate w1 ≡ (ok xs, w2)
      → Rounds fl p xs fresh w2 q w3
      → Concluded fl p xs stored q w3 report w'
      → Accounted w w' report
  account w w1 w2 w3 w' stored xs q report h1 h2 rounds k =
      let none_yet : Counts fl p 0 fresh = record {
        reported = refl;
        persisted = refl;
        retried = omega arith;
      } in
      let c = Rounds-Counts fl p 0 none_yet rounds in
      let whole : 0 + length xs ≡ length xs = omega arith in
      record {
        stored = stored;
        windows = xs;
        locals = q;
        loaded = w1;
        enumerated = w2;
        looped = w3;
        load = h1;
        enumerate = h2;
        rounds = rounds;
        concluded = k;
        windows_accounted = rw (k.reports, k.warnings) (omega (arith, c.reported));
        records_accounted = rw (k.reports, k.records) c.persisted;
        retries_bounded = rw (k.retries, sym whole) c.retried;
      }

  module _ (layers : List String) (w : W) where
    after_loop-Accounted :
        (w1 w2 : W) (stored : List (Record V)) (xs : List X) (r : Result (Unit {0}))
        (s : Run Float V X W)
        → (p.store).load w ≡ (ok stored, w1)
        → p.enumerate w1 ≡ (ok xs, w2)
        → Holds (λ _. Rounds fl p xs fresh w2 s.progress s.world) r
        → let out = after_loop fl p layers xs stored (r, s) in
          Holds (λ report. Accounted w out.1 report) out.0
    after_loop-Accounted w1 w2 stored xs (raised e) s h1 h2 k = tt
    after_loop-Accounted w1 w2 stored xs (ok u) s h1 h2 rounds =
        let (r, w') = conclude fl p layers xs stored s.progress s.world in
        Holds-map r (λ report. account w w1 w2 s.world w' stored xs s.progress report h1 h2 rounds)
          (conclude-Concluded fl p layers xs stored s.progress s.world)

    after_enumerate :
        (w1 w2 : W) (stored : List (Record V)) (r : Result (List X))
        → (p.store).load w ≡ (ok stored, w1)
        → p.enumerate w1 ≡ (r, w2)
        → let out =
            (lift r >>= λ windows v.
            after_loop fl p layers windows stored
              (all_windows fl p windows (record { world = v; progress = fresh })))
              w2 in
          Holds (λ report. Accounted w out.1 report) out.0
    after_enumerate w1 w2 stored (raised e) h1 h2 = tt
    after_enumerate w1 w2 stored (ok xs) h1 h2 =
        let s : Run Float V X W = record { world = w2; progress = fresh } in
        let (r, t) = all_windows fl p xs s in
        after_loop-Accounted w1 w2 stored xs r t h1 h2 (all_windows-Rounds fl p xs s)

    after_load :
        (w1 : W) (r : Result (List (Record V)))
        → (p.store).load w ≡ (r, w1)
        → let out =
            (lift r >>= λ stored. p.enumerate >>= λ windows v.
            after_loop fl p layers windows stored
              (all_windows fl p windows (record { world = v; progress = fresh })))
              w1 in
          Holds (λ report. Accounted w out.1 report) out.0
    after_load w1 (raised e) h = tt
    after_load w1 (ok stored) h =
        let (r, w2) = p.enumerate w1 in after_enumerate w1 w2 stored r h refl

  -- A run of `run_ingest` that returns a report went as follows. The store was loaded and the windows were
  -- enumerated. Each window had one round, in the list's order and each from the world that the one
  -- before it left: it waited for the throttle, made between one and `retries` calls of the fetcher with
  -- this window, mapped what came back and split it into the records with a true id, which were kept, and
  -- the others, which a warning counts; or an Exception of the throttle, the fetching or the mapper ended
  -- it, and it left a warning and no record. The kept records, in that order, were compared with those
  -- loaded; the store got them in one write, as the diff asks for, which returned; and the assessor was
  -- asked about the last window. The report has these rounds' entries and warnings, the number of
  -- windows and of kept records, the diff, the status, the waits and the retries, so that every window
  -- has an entry or a failure, the entries' records are the records fetched, and at most `retries - 1`
  -- retries are counted per window.
  pub run_ingest-Accounted :
      (layers : List String) (w w' : W) (report : IngestReport Float V X D)
      → run_ingest fl p layers w ≡ (ok report, w')
      → Accounted w w' report
  unfolding run_ingest
  run_ingest-Accounted layers w w' report e =
      let (r, w1) = (p.store).load w in
      let out = run_ingest fl p layers w in
      let k : Holds (λ found. Accounted w out.1 found) out.0 = after_load layers w w1 r refl in
      subst (λ o. Holds (λ found. Accounted w o.1 found) o.0) e k
