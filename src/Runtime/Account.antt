-- ===== src/Runtime/Account.antt =====
-- runtime.py: what the rounds of a run add up to: a report or a failure for each window, and no record
-- that is in no report.
use Prim.Native.Nat.mul
use datasource_kit.Prelude.{
  ℕ, suc, ◌+◌, ◌-◌, ◌*◌, ◌≤◌, ◌≡◌, List, [], ◌∷◌, length, length-append, append-nil, arith,
}
use datasource_kit.Prelude.Int.{pos_part}
use datasource_kit.Prelude.Floats.{Floats}
use datasource_kit.Effect.{Exn, Result}
use datasource_kit.Runtime.Ingest.{Record, Providers, WindowReport, window_failed, Progress}
use datasource_kit.Runtime.Counting.{
  failures, persistable_total, failures-append, persistable-append, failures-complaints,
}
use datasource_kit.Runtime.Trace.{complaints, joined, failure, Fetching, Round, Rounds}

module _ (fl : Floats) {V X D W : Type 0} (p : Providers (fl.Float) V X D W) where
  open fl use {Float}

  abbrev pub most : ℕ
  most = pos_part (p.policy).retries

  -- What the local variables say after a number of windows.
  pub record Counts (done : ℕ) (q : Progress Float V X) : Type 0 where
    pub reported : length q.reports + failures q.warnings ≡ done
    pub persisted : persistable_total q.reports ≡ length q.fetched
    pub retried : q.retries_used ≤ done * (most - 1)

  Fetching-bounded :
      {x : X} {w v : W} {r : Result (List (Record V))} {n : ℕ} → Fetching fl p x w r n v → n ≤ most
  Fetching-bounded (Fetching.not_tried e) = omega arith
  Fetching-bounded (Fetching.tried n r v h1 h2 a) = h2

  step_bound : (done n k : ℕ) → n ≤ done * k → (m : ℕ) → m ≤ k → n + m ≤ suc done * k
  step_bound done n k le m le' = omega (arith, le, le', mul.suc done k)

  failure-Counts :
      (done n : ℕ) (x : X) (e : Exn) (ds : List Float) (q : Progress Float V X)
      → Counts done q
      → n ≤ most - 1
      → Counts (suc done) (joined q (failure x e n ds))
  failure-Counts done n x e ds q c few = record {
    reported = omega (
      arith,
      c.reported,
      length-append q.reports [],
      failures-append q.warnings (window_failed x e ∷ []),
    );
    persisted = rw (append-nil q.reports, append-nil q.fetched) c.persisted;
    retried = step_bound done q.retries_used (most - 1) c.retried n few;
  }

  Round-Counts :
      (done : ℕ) {x : X} {w v : W} (q : Progress Float V X) {a : Progress Float V X}
      → Counts done q
      → Round fl p x w a v
      → Counts (suc done) (joined q a)
  Round-Counts done {x = x} q c
        (Round.reported {valid = valid} {invalid = invalid} d raw mapped n w1 w2 w3 h1 h2 h3 h4) =
      let few = Fetching-bounded h2 in
      let entry : WindowReport X = record {
        window = x;
        fetched = length raw;
        persistable = length valid;
        invalid = invalid;
      } in
      record {
        reported = omega (
          arith,
          c.reported,
          length-append q.reports (entry ∷ []),
          failures-append q.warnings (complaints invalid x),
          failures-complaints invalid x,
        );
        persisted = omega (
          arith,
          c.persisted,
          persistable-append q.reports (entry ∷ []),
          length-append q.fetched valid,
        );
        retried = step_bound done q.retries_used (most - 1) c.retried (n - 1) (omega (arith, few));
      }
  Round-Counts done {x = x} q c (Round.no_turn e w1 h1 h2) =
      failure-Counts done 0 x e [] q c (omega arith)
  Round-Counts done {x = x} q c (Round.no_fetch e d n w1 w2 h1 h2 h3) =
      failure-Counts done 0 x e (d ∷ []) q c (omega arith)
  Round-Counts done {x = x} q c (Round.no_mapping e d raw n w1 w2 w3 h1 h2 h3 h4) =
      let few = Fetching-bounded h3 in
      failure-Counts done (n - 1) x e (d ∷ []) q c (omega (arith, few))

  pub Rounds-Counts :
      (done : ℕ) {xs : List X} {q q' : Progress Float V X} {w v : W}
      → Counts done q
      → Rounds fl p xs q w q' v
      → Counts (done + length xs) q'
  Rounds-Counts done c (Rounds.done q w) = let same : done ≡ done + 0 = omega arith in rw same at c
  Rounds-Counts done c (Rounds.next {xs = xs} {q' = q'} x q a w v round rest) =
      let same : suc done + length xs ≡ done + suc (length xs) = omega arith in
      let k : Counts (suc done + length xs) q' =
        Rounds-Counts (suc done) (Round-Counts done q c round) rest in
      rw same at k
