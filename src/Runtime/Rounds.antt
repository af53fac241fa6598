-- ===== src/Runtime/Rounds.antt =====
-- runtime.py: the loop of `run_ingest` makes one round for each window, in their order.
use mathlib.Core.Path.{subst}
use datasource_kit.Prelude.{
  ℕ, zero, suc, ◌+◌, ◌-◌, ◌≡◌, sym, refl, true, Option, none, some, Bool-cases, inl, inr, Bool,
  List, [], ◌∷◌, ◌++◌, append-nil, length, arith, if◌then◌else◌,
}
use datasource_kit.Prelude.Floats.{Floats}
use datasource_kit.Prelude.Dict.{lookup}
use datasource_kit.Effect.{
  Exn, Result, ok, raised, is_exception, lift, ◌>>=◌, ◌>>◌, Holds, Holds-map,
}
use datasource_kit.Runtime.Ingest.{
  Record, dict, other, Providers, Warning, Progress, Run, is_valid, or_false, valid_records, warned,
  account, fetch_window, body, caught, window_round, all_windows, add_wait, add_retries, update,
  note_failure, lift_world,
}
use datasource_kit.Runtime.Trace.{Split, complaints, joined, failure, Fetching, Round, Rounds}
use datasource_kit.Runtime.Fetched.{FetchedAs, fetch_window-FetchedAs}

valid_records-Split :
    {V : Type 0} (truth : V → Bool) (rs : List (Record V))
    → Split truth rs (valid_records truth rs).0 (valid_records truth rs).1
unfolding valid_records is_valid
valid_records-Split truth [] = Split.empty
valid_records-Split truth (other k ∷ rs) = Split.no_dict k (valid_records-Split truth rs)
valid_records-Split {V = V} truth (dict d ∷ rs) =
    by_id (lookup "id" d) refl (valid_records truth rs).0 (valid_records truth rs).1
      (valid_records-Split truth rs)
  where
    by_id :
        (v : Option V)
        → lookup "id" d ≡ v
        → (kept : List (Record V)) (n : ℕ) → Split truth rs kept n
        → let out : List (Record V) × ℕ =
            if or_false truth v then (dict d ∷ kept, n) else (kept, suc n) in
          Split truth (dict d ∷ rs) out.0 out.1
    by_id none e kept n s = Split.no_id d e s
    by_id (some v) e kept n s = elim (Bool-cases (truth v)) [
      | inl holds ↦ rw holds (Split.valid d v e holds s)
      | inr fails ↦ rw fails (Split.false_id d v e fails s)
    ]

warned-complaints :
    {X : Type 0} (n : ℕ) (x : X) (ws : List (Warning X)) → warned n x ws ≡ ws ++ complaints n x
warned-complaints zero x ws = sym (append-nil ws)
warned-complaints (suc n) x ws = ground arith

zero_more : (n : ℕ) → n + 0 ≡ n
zero_more n = omega arith

module _ (fl : Floats) {V X D W : Type 0} (p : Providers (fl.Float) V X D W) where
  open fl use {Float}

  -- One round leads from a world and the local variables to others.
  abbrev Follows : X → Run Float V X W → Run Float V X W → Type 0
  Follows x s s' =
      (a : Progress Float V X) × Round fl p x s.world a s'.world
      × (s'.progress ≡ joined s.progress a)

  -- where the body raised an Exception, the round ends when the failure is noted
  abbrev After : X → Run Float V X W → Result (Unit {0}) → Run Float V X W → Type 0
  After x s (ok u) s' = Follows x s s'
  After x s (raised e) s' =
      is_exception e ≡ true
      → Follows x s (record { world = s'.world; progress = note_failure fl p x e s'.progress })

  failure-joined :
      (x : X) (e : Exn) (n : ℕ) (ds : List Float) (q q' : Progress Float V X)
      → q' ≡ record q { retries_used = q.retries_used + n; waits = ds ++ q.waits }
      → note_failure fl p x e q' ≡ joined q (failure x e n ds)
  failure-joined x e n ds q q' same = rw (same, append-nil q.reports, append-nil q.fetched) refl

  after_map :
      (x : X) (d : Float) (raw : List (Record V)) (n : ℕ) (s : Run Float V X W) (w1 w2 v : W)
      (r : Result (List (Record V)))
      → p.acquire s.world ≡ (ok d, w1)
      → Fetching fl p x w1 (ok raw) n w2
      → p.mapper raw w2 ≡ (r, v)
      → let t : Run Float V X W = record {
        world = v;
        progress = add_retries fl p n (add_wait fl p d s.progress);
      } in
        let out =
          (lift r >>= λ mapped.
          update fl p (account fl p x (length raw) (valid_records p.truth mapped)))
            t in
        After x s out.0 out.1
  after_map x d raw n s w1 w2 v (raised e) h1 h2 h3 = λ exception. (
    failure x e (n - 1) (d ∷ []),
    Round.no_mapping e d raw n w1 w2 v exception h1 h2 h3,
    failure-joined x e (n - 1) (d ∷ []) s.progress (add_retries fl p n (add_wait fl p d s.progress))
        refl,
  )
  after_map x d raw n s w1 w2 v (ok mapped) h1 h2 h3 =
      let (valid, invalid) = valid_records p.truth mapped in
      (
        record {
          warnings = complaints invalid x;
          reports =
              record {
                window = x;
                fetched = length raw;
                persistable = length valid;
                invalid = invalid;
              }
              ∷ [];
          fetched = valid;
          retries_used = n - 1;
          waits = d ∷ [];
        },
        Round.reported d raw mapped n w1 w2 v h1 h2 h3 (valid_records-Split p.truth mapped),
        rw (warned-complaints invalid x (s.progress).warnings) refl,
      )

  after_fetch :
      (x : X) (d : Float) (s : Run Float V X W) (w1 v : W) (r : Result (List (Record V) × ℕ))
      → p.acquire s.world ≡ (ok d, w1)
      → FetchedAs fl p x w1 r v
      → let t : Run Float V X W = record { world = v; progress = add_wait fl p d s.progress } in
        let out =
          (lift r >>= λ got.
          update fl p (add_retries fl p got.1)
          >> (lift_world fl p (p.mapper got.0) >>= λ mapped.
              update fl p (account fl p x (length got.0) (valid_records p.truth mapped))))
            t in
        After x s out.0 out.1
  after_fetch x d s w1 v (raised e) h (n, f) = λ exception. (
    failure x e 0 (d ∷ []),
    Round.no_fetch e d n w1 v exception h f,
    failure-joined x e 0 (d ∷ []) s.progress (add_wait fl p d s.progress)
        (rw (zero_more (s.progress).retries_used) refl),
  )
  after_fetch x d s w1 v (ok (raw, n)) h f =
      let (r, u) = p.mapper raw v in after_map x d raw n s w1 v u r h f refl

  after_acquire :
      (x : X) (s : Run Float V X W) (v : W) (r : Result Float)
      → p.acquire s.world ≡ (r, v)
      → let t : Run Float V X W = record { world = v; progress = s.progress } in
        let out =
          (lift r >>= λ waited.
          update fl p (add_wait fl p waited)
          >> (lift_world fl p (fetch_window fl p x) >>= λ got.
              update fl p (add_retries fl p got.1)
              >> (lift_world fl p (p.mapper got.0) >>= λ mapped.
                  update fl p (account fl p x (length got.0) (valid_records p.truth mapped)))))
            t in
        After x s out.0 out.1
  after_acquire x s v (raised e) h = λ exception. (
    failure x e 0 [],
    Round.no_turn e v exception h,
    failure-joined x e 0 [] s.progress s.progress (rw (zero_more (s.progress).retries_used) refl),
  )
  after_acquire x s v (ok d) h =
      let (r, u) = fetch_window fl p x v in
      after_fetch x d s v u r h (fetch_window-FetchedAs fl p x v)

  body-After : (x : X) (s : Run Float V X W) → After x s (body fl p x s).0 (body fl p x s).1
  unfolding body
  body-After x s = let (r, v) = p.acquire s.world in after_acquire x s v r refl

  caught-Follows :
      (x : X) (s s' : Run Float V X W) (r : Result (Unit {0}))
      → After x s r s'
      → let out = caught fl p x r s' in Holds (λ _. Follows x s out.1) out.0
  caught-Follows x s s' (ok u) k = k
  caught-Follows x s s' (raised e) k = elim (Bool-cases (is_exception e)) [
    | inl ordinary ↦ rw ordinary (k ordinary)
    | inr severe ↦ rw severe tt
  ]

  window_round-Follows :
      (x : X) (s : Run Float V X W)
      → let out = window_round fl p x s in Holds (λ _. Follows x s out.1) out.0
  unfolding window_round
  window_round-Follows x s = let (r, s') = body fl p x s in caught-Follows x s s' r (body-After x s)

  abbrev Loops : List X → Run Float V X W → Run Float V X W → Type 0
  Loops xs s s' = Rounds fl p xs s.progress s.world s'.progress s'.world

  after_round :
      (x : X) (xs : List X) (s t : Run Float V X W) (r : Result (Unit {0}))
      → Holds (λ _. Follows x s t) r
      → ((u : Run Float V X W)
          → let out = all_windows fl p xs u in Holds (λ _. Loops xs u out.1) out.0)
      → let out = (lift r >>= λ _. all_windows fl p xs) t in
        Holds (λ _. Loops (x ∷ xs) s out.1) out.0
  after_round x xs s t (raised e) k ih = tt
  after_round x xs s t (ok u) (a, round, same) ih =
      let (r, v) = all_windows fl p xs t in
      Holds-map r
        (λ _ loop.
          Rounds.next x s.progress a s.world t.world round
            (subst (λ q. Rounds fl p xs q t.world v.progress v.world) same loop))
        (ih t)

  -- The loop, unless what ends it is no Exception, has made a round for every window.
  pub all_windows-Rounds :
      (xs : List X) (s : Run Float V X W)
      → let out = all_windows fl p xs s in Holds (λ _. Loops xs s out.1) out.0
  unfolding all_windows
  all_windows-Rounds [] s = Rounds.done s.progress s.world
  all_windows-Rounds (x ∷ xs) s =
      let (r, t) = window_round fl p x s in
      after_round x xs s t r (window_round-Follows x s) (λ u. all_windows-Rounds xs u)
