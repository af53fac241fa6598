-- ===== src/Runtime/Conclude.antt =====
-- runtime.py: the calls behind the loop of `run_ingest`, and what the report tells of them.
use datasource_kit.Prelude.{
  ◌≡◌, refl, ap, false, Bool-cases, inl, inr, Option, none, some, String, List, [], ◌∷◌, length,
}
use datasource_kit.Prelude.Int.{ℤ}
use datasource_kit.Prelude.Floats.{Floats}
use datasource_kit.Effect.{
  Result, ok, raised, is_exception, lift, pure, ◌>>=◌, ◌>>◌, Holds, Holds-map,
}
use datasource_kit.Runtime.Ingest.{
  Record, Providers, Assessment, Warning, Progress, IngestReport, as_step_error, status_or,
  write_all, persist, assess, report_of, conclude,
}
use datasource_kit.Runtime.Trace.{Last, Written, Assessed}

module _ (fl : Floats) {V X D W : Type 0} (p : Providers (fl.Float) V X D W) where
  open fl use {Float}

  after_write :
      (d : D) (rs : List (Record V)) (w w' : W) (r : Result (Unit {0}))
      → (r ≡ ok tt → Written fl p d rs w w')
      → Holds (λ _. Written fl p d rs w w') (as_step_error fl p r)
  after_write d rs w w' (ok u) written = written refl
  after_write d rs w w' (raised e) written = elim (Bool-cases (is_exception e)) [
    | inl ordinary ↦ rw ordinary tt
    | inr severe ↦ rw severe tt
  ]

  persist-Written :
      (d : D) (rs : List (Record V)) (w : W)
      → let out = persist fl p d rs w in Holds (λ _. Written fl p d rs w out.1) out.0
  unfolding persist write_all
  persist-Written d rs w = elim (Bool-cases (p.replaced d)) [
    | inl whole ↦
        let (r, w') = (p.store).replace_all rs w in
        rw whole (after_write d rs w w' r (λ e. Written.replaced whole (ap (λ x. (x, w')) e)))
    | inr part ↦ rw part (by_upsert (p.store).upsert refl part)
  ]
    where
      by_upsert :
          (u : Option (List (Record V) → W → Result (Unit {0}) × W))
          → (p.store).upsert ≡ u
          → p.replaced d ≡ false
          → let write = elim u as (λ _. W → Result (Unit {0}) × W) [
            | some f ↦ f rs
            | none ↦ (p.store).save rs
          ] in
            let out = write w in Holds (λ _. Written fl p d rs w out.1) (as_step_error fl p out.0)
      by_upsert none e part =
          let (r, w') = (p.store).save rs w in
          after_write d rs w w' r (λ h. Written.saved part e (ap (λ x. (x, w')) h))
      by_upsert (some f) e part =
          let (r, w') = f rs w in
          after_write d rs w w' r (λ h. Written.upserted f part e (ap (λ x. (x, w')) h))

  Assessed-more :
      (rs : List (Record V)) (x y : X) (ys : List X) (w w' : W) (a : Assessment)
      → Assessed fl p rs (y ∷ ys) w a w'
      → Assessed fl p rs (x ∷ y ∷ ys) w a w'
  Assessed-more rs x y ys w w' a (Assessed.by_last v v' b last h) =
      Assessed.by_last v v' b (Last.more x last) h

  assess-Assessed :
      (rs : List (Record V)) (xs : List X) (w : W)
      → let out = assess fl p rs xs w in Holds (λ a. Assessed fl p rs xs w a out.1) out.0
  assess-Assessed rs [] w = Assessed.no_windows w
  assess-Assessed rs (x ∷ []) w = let (r, w') = p.assessor rs x w in answered w' r refl
    where
      answered :
          (w' : W) (r : Result Assessment)
          → p.assessor rs x w ≡ (r, w')
          → Holds (λ a. Assessed fl p rs (x ∷ []) w a w') r
      answered w' (raised e) h = tt
      answered w' (ok a) h = Assessed.by_last w w' a (Last.one x) h
  assess-Assessed rs (x ∷ y ∷ ys) w =
      let (r, w') = assess fl p rs (y ∷ ys) w in
      Holds-map r (λ a k. Assessed-more rs x y ys w w' a k) (assess-Assessed rs (y ∷ ys) w)

  -- The status is the assessment's; where it has none, "partial" if there is a warning, else "ok".
  abbrev pub StatusIs : Option String → List (Warning X) → String → Type 0
  StatusIs (some s) warnings status = status ≡ s
  StatusIs none [] status = status ≡ "ok"
  StatusIs none (x ∷ warnings) status = status ≡ "partial"

  -- What a report tells of the local variables that the loop over the windows left in a world, and of the
  -- calls behind the loop, which lead from that world to the one that the run leaves.
  pub record Concluded (windows : List X) (stored : List (Record V)) (q : Progress Float V X)
      (w : W) (report : IngestReport Float V X D) (w' : W) : Type 0 where
    pub compared : W
    pub kept : W
    pub assessment : Assessment
    pub diffed : p.differ q.fetched stored w ≡ (ok report.diff, compared)
    pub written : Written fl p report.diff q.fetched compared kept
    pub assessed : Assessed fl p q.fetched windows kept assessment w'
    pub status : StatusIs assessment.status q.warnings report.status
    pub reports : report.windows ≡ q.reports
    pub warnings : report.warnings ≡ q.warnings
    pub processed : report.windows_processed ≡ length windows
    pub records : report.records_fetched ≡ length q.fetched
    pub retries : report.retries_used ≡ q.retries_used
    pub waits : report.rate_limit_waits ≡ q.waits

  status_or-StatusIs :
      (s : Option String) (ws : List (Warning X)) → StatusIs s ws (status_or fl p s ws)
  status_or-StatusIs (some s) ws = refl
  status_or-StatusIs none [] = refl
  status_or-StatusIs none (x ∷ ws) = refl

  module _ (layers : List String) (xs : List X) (stored : List (Record V)) (q : Progress Float V X)
      (w : W) where
    abbrev finish : D → Assessment → ℤ → IngestReport Float V X D
    finish d a count = report_of fl p layers (length xs) d a count q

    after_count :
        (d : D) (a : Assessment) (u v w' : W) (r : Result ℤ)
        → p.differ q.fetched stored w ≡ (ok d, u)
        → Written fl p d q.fetched u v
        → Assessed fl p q.fetched xs v a w'
        → let out = (lift r >>= λ count. pure (finish d a count)) w' in
          Holds (λ report. Concluded xs stored q w report out.1) out.0
    after_count d a u v w' (raised e) h1 h2 h3 = tt
    after_count d a u v w' (ok count) h1 h2 h3 = record {
      compared = u;
      kept = v;
      assessment = a;
      diffed = h1;
      written = h2;
      assessed = h3;
      status = status_or-StatusIs a.status q.warnings;
      reports = refl;
      warnings = refl;
      processed = refl;
      records = refl;
      retries = refl;
      waits = refl;
    }

    after_assess :
        (d : D) (u v w' : W) (r : Result Assessment)
        → p.differ q.fetched stored w ≡ (ok d, u)
        → Written fl p d q.fetched u v
        → Holds (λ a. Assessed fl p q.fetched xs v a w') r
        → let out = (lift r >>= λ a. lift a.count >>= λ count. pure (finish d a count)) w' in
          Holds (λ report. Concluded xs stored q w report out.1) out.0
    after_assess d u v w' (raised e) h1 h2 h3 = tt
    after_assess d u v w' (ok a) h1 h2 h3 = after_count d a u v w' a.count h1 h2 h3

    after_persist :
        (d : D) (u v : W) (r : Result (Unit {0}))
        → p.differ q.fetched stored w ≡ (ok d, u)
        → Holds (λ _. Written fl p d q.fetched u v) r
        → let out =
            (lift r >>= λ _.
            assess fl p q.fetched xs >>= λ a. lift a.count >>= λ count. pure (finish d a count))
              v in
          Holds (λ report. Concluded xs stored q w report out.1) out.0
    after_persist d u v (raised e) h1 h2 = tt
    after_persist d u v (ok t) h1 h2 =
        let (r, w') = assess fl p q.fetched xs v in
        after_assess d u v w' r h1 h2 (assess-Assessed q.fetched xs v)

    after_differ :
        (u : W) (r : Result D)
        → p.differ q.fetched stored w ≡ (r, u)
        → let out =
            (lift r >>= λ d.
            persist fl p d q.fetched
            >> (assess fl p q.fetched xs >>= λ a.
                lift a.count >>= λ count. pure (finish d a count)))
              u in
          Holds (λ report. Concluded xs stored q w report out.1) out.0
    after_differ u (raised e) h = tt
    after_differ u (ok d) h =
        let (r, v) = persist fl p d q.fetched u in
        after_persist d u v r h (persist-Written d q.fetched u)

    pub conclude-Concluded :
        let out = conclude fl p layers xs stored q w in
        Holds (λ report. Concluded xs stored q w report out.1) out.0
    unfolding conclude
    conclude-Concluded = let (r, u) = p.differ q.fetched stored w in after_differ u r refl
