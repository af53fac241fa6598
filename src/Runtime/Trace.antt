-- ===== src/Runtime/Trace.antt =====
-- runtime.py: what a run of `run_ingest` does to the world, window by window, told by the calls of the
-- providers alone.
use datasource_kit.Prelude.{
  ℕ, zero, suc, ◌+◌, ◌-◌, ◌≤◌, ◌≡◌, Bool, true, false, none, some, List, [], ◌∷◌, ◌++◌, length,
}
use datasource_kit.Prelude.Int.{pos, pos_part}
use datasource_kit.Prelude.Dict.{Dict, lookup}
use datasource_kit.Prelude.Floats.{Floats}
use datasource_kit.Effect.{Exn, assertion_error, Result, ok, raised, is_exception}
use datasource_kit.Retry.Outcome.{Attempts}
use datasource_kit.Runtime.Ingest.{
  Record, dict, other, Assessment, Providers, Warning, invalid_records, window_failed, Progress,
}

-- The records split in two: those that are a dict with a true value under "id", in their order, and the
-- number of the rest.
pub data Split {V : Type 0} (truth : V → Bool)
    : List (Record V) → List (Record V) → ℕ → Type 0 where
  empty : Split truth [] [] 0
  valid :
      {rs kept : List (Record V)} {n : ℕ} (d : Dict V) (v : V)
      → lookup "id" d ≡ some v
      → truth v ≡ true
      → Split truth rs kept n
      → Split truth (dict d ∷ rs) (dict d ∷ kept) n
  false_id :
      {rs kept : List (Record V)} {n : ℕ} (d : Dict V) (v : V)
      → lookup "id" d ≡ some v
      → truth v ≡ false
      → Split truth rs kept n
      → Split truth (dict d ∷ rs) kept (suc n)
  no_id :
      {rs kept : List (Record V)} {n : ℕ} (d : Dict V)
      → lookup "id" d ≡ none
      → Split truth rs kept n
      → Split truth (dict d ∷ rs) kept (suc n)
  no_dict :
      {rs kept : List (Record V)} {n : ℕ} (k : ℕ)
      → Split truth rs kept n
      → Split truth (other k ∷ rs) kept (suc n)

-- the warning on a window's invalid records, if there are any
abbrev pub complaints : {X : Type 0} → ℕ → X → List (Warning X)
complaints zero x = []
complaints (suc n) x = invalid_records (suc n) x ∷ []

-- the local variables, with what one window adds to them
abbrev pub joined : {F V X : Type 0} → Progress F V X → Progress F V X → Progress F V X
joined q a = record {
  warnings = q.warnings ++ a.warnings;
  reports = q.reports ++ a.reports;
  fetched = q.fetched ++ a.fetched;
  retries_used = q.retries_used + a.retries_used;
  waits = a.waits ++ q.waits;
}

-- what a window adds that failed, after some retries and waits
abbrev pub failure : {F V X : Type 0} → X → Exn → ℕ → List F → Progress F V X
failure x e retries waits = record {
  warnings = window_failed x e ∷ [];
  reports = [];
  fetched = [];
  retries_used = retries;
  waits = waits;
}

-- the last window
pub data Last {X : Type 0} : List X → X → Type 0 where
  one : (x : X) → Last (x ∷ []) x
  more : {xs : List X} {z : X} (x : X) → Last xs z → Last (x ∷ xs) z

module _ (fl : Floats) {V X D W : Type 0} (p : Providers (fl.Float) V X D W) where
  open fl use {Float}

  -- A window is fetched: some number of calls of the fetcher with this window, at least one and at most
  -- `retries`, as `Attempts` tells of them; or none, where `retries` is below one.
  pub data Fetching (x : X) (w : W) : Result (List (Record V)) → ℕ → W → Type 0 where
    not_tried : pos_part (p.policy).retries ≡ 0 → Fetching x w (raised assertion_error) 0 w
    tried :
        (n : ℕ) (r : Result (List (Record V))) (v : W)
        → 1 ≤ n
        → n ≤ pos_part (p.policy).retries
        → Attempts fl p.policy p.sleep (p.fetcher x) 0 n w (r, v)
        → Fetching x w r n v

  -- One window, from a world to the next one, and what it adds to the local variables.
  pub data Round (x : X) (w : W) : Progress Float V X → W → Type 0 where
    reported :
        {valid : List (Record V)} {invalid : ℕ} (d : Float) (raw mapped : List (Record V)) (n : ℕ)
        (w1 w2 w3 : W)
        → p.acquire w ≡ (ok d, w1)
        → Fetching x w1 (ok raw) n w2
        → p.mapper raw w2 ≡ (ok mapped, w3)
        → Split p.truth mapped valid invalid
        → Round x w
            (record {
              warnings = complaints invalid x;
              reports =
                  record {
                    window = x;
                    fetched = length raw;
                    persistable = length valid;
                    invalid = invalid;
                  }
                  ∷ [];
              fetched = valid;
              retries_used = n - 1;
              waits = d ∷ [];
            })
            w3
    no_turn :
        (e : Exn) (w1 : W)
        → is_exception e ≡ true
        → p.acquire w ≡ (raised e, w1)
        → Round x w (failure x e 0 []) w1
    no_fetch :
        (e : Exn) (d : Float) (n : ℕ) (w1 w2 : W)
        → is_exception e ≡ true
        → p.acquire w ≡ (ok d, w1)
        → Fetching x w1 (raised e) n w2
        → Round x w (failure x e 0 (d ∷ [])) w2
    no_mapping :
        (e : Exn) (d : Float) (raw : List (Record V)) (n : ℕ) (w1 w2 w3 : W)
        → is_exception e ≡ true
        → p.acquire w ≡ (ok d, w1)
        → Fetching x w1 (ok raw) n w2
        → p.mapper raw w2 ≡ (raised e, w3)
        → Round x w (failure x e (n - 1) (d ∷ [])) w3

  -- The windows of a list, one round for each of them, in the list's order.
  pub data Rounds : List X → Progress Float V X → W → Progress Float V X → W → Type 0 where
    done : (q : Progress Float V X) (w : W) → Rounds [] q w q w
    next :
        {xs : List X} {q' : Progress Float V X} {w' : W} (x : X) (q a : Progress Float V X)
        (w v : W)
        → Round x w a v
        → Rounds xs (joined q a) v q' w'
        → Rounds (x ∷ xs) q w q' w'

  -- The one write of the store, which returned: `replace_all` where the diff says so, else `upsert` where
  -- the store has it, else `save`.
  pub data Written (d : D) (records : List (Record V)) (before after : W) : Type 0 where
    replaced :
        p.replaced d ≡ true
        → (p.store).replace_all records before ≡ (ok tt, after)
        → Written d records before after
    upserted :
        (f : List (Record V) → W → Result (Unit {0}) × W)
        → p.replaced d ≡ false
        → (p.store).upsert ≡ some f
        → f records before ≡ (ok tt, after)
        → Written d records before after
    saved :
        p.replaced d ≡ false
        → (p.store).upsert ≡ none
        → (p.store).save records before ≡ (ok tt, after)
        → Written d records before after

  -- The assessor's answer on the last window; without windows it is not called.
  pub data Assessed (records : List (Record V)) : List X → W → Assessment → W → Type 0 where
    no_windows : (w : W) → Assessed records [] w (record { status = none; count = ok (pos 0) }) w
    by_last :
        {xs : List X} {x : X} (w w' : W) (a : Assessment)
        → Last xs x
        → p.assessor records x w ≡ (ok a, w')
        → Assessed records xs w a w'
