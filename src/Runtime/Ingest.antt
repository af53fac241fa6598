-- ===== src/Runtime/Ingest.antt =====
-- runtime.py: `run_ingest`, from the enumeration of the windows on. The providers are arguments, and so
-- are the clock and the throttle. The local variables of the loop outlive an exception, so they stand
-- beside the world.
use datasource_kit.Prelude.{
  ℕ, suc, leb, ◌+◌, ◌-◌, Bool, false, Option, none, some, String, List, [], ◌∷◌, ◌++◌, length,
  if◌then◌else◌,
}
use datasource_kit.Prelude.Int.{ℤ, pos}
use datasource_kit.Prelude.Floats.{Floats}
use datasource_kit.Prelude.Dict.{Dict, lookup, insert}
use datasource_kit.Effect.{
  Exn, runtime_step_error, Result, ok, raised, Action, pure, raise, lift, is_exception, ◌>>=◌, ◌>>◌,
}
use datasource_kit.Retry.{RetryPolicy, retry}

-- a record: a dict, or any other object
pub data Record (V : Type 0) : Type 0 where
  dict : Dict V → Record V
  other : ℕ → Record V

-- what an assessment holds under "status" and "count"
pub record Assessment : Type 0 where
  pub status : Option String
  pub count : Result ℤ

-- `upsert` is looked up by `hasattr`
pub record Store (V W : Type 0) : Type 0 where
  pub load : Action W (List (Record V))
  pub replace_all : List (Record V) → Action W (Unit {0})
  pub upsert : Option (List (Record V) → Action W (Unit {0}))
  pub save : List (Record V) → Action W (Unit {0})

-- The providers with their policies. `replaced` is `"replaced" in diff_result`, `truth` is bool(...).
pub record Providers (F V X D W : Type 0) : Type 0 where
  pub enumerate : Action W (List X)
  pub fetcher : X → Action W (List (Record V))
  pub mapper : List (Record V) → Action W (List (Record V))
  pub differ : List (Record V) → List (Record V) → Action W D
  pub assessor : List (Record V) → X → Action W Assessment
  pub store : Store V W
  pub replaced : D → Bool
  pub truth : V → Bool
  pub acquire : Action W F
  pub sleep : F → Action W (Unit {0})
  pub policy : RetryPolicy F

pub record WindowReport (X : Type 0) : Type 0 where
  pub window : X
  pub fetched : ℕ
  pub persistable : ℕ
  pub invalid : ℕ

pub data Warning (X : Type 0) : Type 0 where
  invalid_records : ℕ → X → Warning X
  window_failed : X → Exn → Warning X

-- the local variables of the loop; `waits` are the summands of `rate_limit_waits`, the last one first
pub record Progress (F V X : Type 0) : Type 0 where
  pub warnings : List (Warning X)
  pub reports : List (WindowReport X)
  pub fetched : List (Record V)
  pub retries_used : ℕ
  pub waits : List F

abbrev pub fresh : {F V X : Type 0} → Progress F V X
fresh = record { warnings = []; reports = []; fetched = []; retries_used = 0; waits = [] }

-- the world and the local variables
pub record Run (F V X W : Type 0) : Type 0 where
  pub world : W
  pub progress : Progress F V X

-- the world and the counter of a window's attempts
pub record Counted (W : Type 0) : Type 0 where
  pub world : W
  pub count : ℕ

pub record LayerCoverage : Type 0 where
  pub truth_count : ℤ
  pub present_count : ℤ

pub record CompletenessReport : Type 0 where
  pub layers : Dict LayerCoverage
  pub present : ℤ
  pub truth : ℤ

-- the comprehension over the layers
abbrev pub layers_of : List String → ℤ → Dict LayerCoverage → Dict LayerCoverage
layers_of [] count d = d
layers_of (l ∷ ls) count d =
    layers_of ls count (insert l (record { truth_count = count; present_count = count }) d)

-- `_completeness`
unfoldable pub completeness : List String → ℤ → Option CompletenessReport
completeness [] count = none
completeness (l ∷ ls) count =
    some (record { layers = layers_of (l ∷ ls) count []; present = count; truth = count })

pub record IngestReport (F V X D : Type 0) : Type 0 where
  pub status : String
  pub windows : List (WindowReport X)
  pub windows_processed : ℕ
  pub records_fetched : ℕ
  pub diff : D
  pub completeness : Option CompletenessReport
  pub retries_used : ℕ
  pub rate_limit_waits : List F
  pub warnings : List (Warning X)

abbrev pub or_false : {V : Type 0} → (V → Bool) → Option V → Bool
or_false truth none = false
or_false truth (some v) = truth v

-- `isinstance(record, dict) and record.get("id")`
unfoldable pub is_valid : {V : Type 0} → (V → Bool) → Record V → Bool
is_valid truth (dict d) = or_false truth (lookup "id" d)
is_valid truth (other n) = false

-- `_valid_records`: the valid ones, and how many are not
unfoldable pub valid_records : {V : Type 0} → (V → Bool) → List (Record V) → List (Record V) × ℕ
valid_records truth [] = ([], 0)
valid_records truth (r ∷ rs) =
    let (valid, invalid) = valid_records truth rs in
    if is_valid truth r then (r ∷ valid, invalid) else (valid, suc invalid)

abbrev pub warned : {X : Type 0} → ℕ → X → List (Warning X) → List (Warning X)
warned invalid x warnings =
    if leb invalid 0 then warnings else warnings ++ invalid_records invalid x ∷ []

module _ (fl : Floats) {V X D W : Type 0} (p : Providers (fl.Float) V X D W) where
  open fl use {Float}

  -- `fetch_once`
  abbrev pub fetch_once : X → Action (Counted W) (List (Record V))
  fetch_once x s =
      let (r, w) = p.fetcher x s.world in (r, record { world = w; count = s.count + 1 })

  abbrev pub counted_sleep : Float → Action (Counted W) (Unit {0})
  counted_sleep d s = let (r, w) = p.sleep d s.world in (r, record s { world = w })

  abbrev pub with_count : Result (List (Record V)) → ℕ → Result (List (Record V) × ℕ)
  with_count (raised e) n = raised e
  with_count (ok raw) n = ok (raw, n)

  -- `retry(fetch_once, **retry_policy)`, with the attempts that it took
  unfoldable pub fetch_window : X → Action W (List (Record V) × ℕ)
  fetch_window x w =
      let (r, s) =
        retry fl p.policy counted_sleep (fetch_once x) (record { world = w; count = 0 }) in
      (with_count r s.count, s.world)

  abbrev pub lift_world : {A : Type 0} → Action W A → Action (Run Float V X W) A
  lift_world m s = let (r, w) = m s.world in (r, record s { world = w })

  abbrev pub update :
      (Progress Float V X → Progress Float V X) → Action (Run Float V X W) (Unit {0})
  update f s = (ok tt, record s { progress = f s.progress })

  abbrev pub add_wait : Float → Progress Float V X → Progress Float V X
  add_wait d q = record q { waits = d ∷ q.waits }

  -- `retries_used += max(attempts["count"] - 1, 0)`
  abbrev pub add_retries : ℕ → Progress Float V X → Progress Float V X
  add_retries n q = record q { retries_used = q.retries_used + (n - 1) }

  -- what a window has given
  abbrev pub account : X → ℕ → List (Record V) × ℕ → Progress Float V X → Progress Float V X
  account x raw (valid, invalid) q = record q {
    warnings = warned invalid x q.warnings;
    fetched = q.fetched ++ valid;
    reports =
        q.reports
        ++ record { window = x; fetched = raw; persistable = length valid; invalid = invalid } ∷ [];
  }

  -- the body of the `try`
  unfoldable pub body : X → Action (Run Float V X W) (Unit {0})
  body x = do
    waited ← lift_world p.acquire
    update (add_wait waited)
    got ← lift_world (fetch_window x)
    update (add_retries got.1)
    mapped ← lift_world (p.mapper got.0)
    update (account x (length got.0) (valid_records p.truth mapped))

  abbrev pub note_failure : X → Exn → Progress Float V X → Progress Float V X
  note_failure x e q = record q { warnings = q.warnings ++ window_failed x e ∷ [] }

  -- `except Exception`
  abbrev pub caught : X → Result (Unit {0}) → Action (Run Float V X W) (Unit {0})
  caught x (ok u) = pure tt
  caught x (raised e) = if is_exception e then update (note_failure x e) else raise e

  unfoldable pub window_round : X → Action (Run Float V X W) (Unit {0})
  window_round x s = let (r, s') = body x s in caught x r s'

  -- `for window in windows`
  unfoldable pub all_windows : List X → Action (Run Float V X W) (Unit {0})
  all_windows [] = pure tt
  all_windows (x ∷ xs) = window_round x >> all_windows xs

  unfoldable pub write_all : List (Record V) → Action W (Unit {0})
  write_all records = elim p.store.upsert [ some f ↦ f records | none ↦ p.store.save records ]

  abbrev pub as_step_error : Result (Unit {0}) → Result (Unit {0})
  as_step_error (ok u) = ok tt
  as_step_error (raised e) = if is_exception e then raised runtime_step_error else raised e

  -- the one write of the store, in its `try`
  unfoldable pub persist : D → List (Record V) → Action W (Unit {0})
  unfolding write_all
  persist d records w =
      let (r, w') = (if p.replaced d then p.store.replace_all records w else write_all records w) in
      (as_step_error r, w')

  -- `assessor(...) if windows else {}`, with the last window
  abbrev pub assess : List (Record V) → List X → Action W Assessment
  assess records [] = pure (record { status = none; count = ok (pos 0) })
  assess records (x ∷ []) = p.assessor records x
  assess records (x ∷ y ∷ ys) = assess records (y ∷ ys)

  abbrev pub status_or : Option String → List (Warning X) → String
  status_or (some s) warnings = s
  status_or none [] = "ok"
  status_or none (w ∷ ws) = "partial"

  abbrev pub report_of :
      List String → ℕ → D → Assessment → ℤ → Progress Float V X → IngestReport Float V X D
  report_of layers windows d a count q = record {
    status = status_or a.status q.warnings;
    windows = q.reports;
    windows_processed = windows;
    records_fetched = length q.fetched;
    diff = d;
    completeness = completeness layers count;
    retries_used = q.retries_used;
    rate_limit_waits = q.waits;
    warnings = q.warnings;
  }

  -- everything behind the loop
  unfoldable pub conclude :
      List String
      → List X
      → List (Record V)
      → Progress Float V X
      → Action W (IngestReport Float V X D)
  conclude layers windows stored q = do
    d ← p.differ q.fetched stored
    persist d q.fetched
    a ← assess q.fetched windows
    count ← lift a.count
    pure (report_of layers (length windows) d a count q)

  abbrev pub after_loop :
      List String
      → List X
      → List (Record V)
      → Result (Unit {0}) × Run Float V X W
      → Result (IngestReport Float V X D) × W
  after_loop layers windows stored (raised e, s) = (raised e, s.world)
  after_loop layers windows stored (ok _, s) = conclude layers windows stored s.progress s.world

  -- `run_ingest`; `layers` are the completeness layers of the profile
  unfoldable pub run_ingest : List String → Action W (IngestReport Float V X D)
  run_ingest layers = do
    stored ← p.store.load
    windows ← p.enumerate
    (λ w.
        after_loop layers windows stored
          (all_windows windows (record { world = w; progress = fresh })))
