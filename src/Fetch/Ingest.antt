-- ===== src/Fetch/Ingest.antt =====
-- A worker host that drives a `FetchIntent` over a `SequencePlanner`: worker.py and fetch.py together,
-- with a consumer whose callbacks return.
use datasource_kit.Prelude.{
  ℕ, zero, suc, ◌+◌, ◌<◌, ◌≡◌, refl, sym, ap, ◌∙◌, Bool, true, false, Option, none, some, String,
  List, [], ◌∷◌, ◌++◌, arith, length, get_elem?, map, append_assoc,
}
use datasource_kit.Prelude.Floats.{Floats}
use datasource_kit.Effect.{Result, ok, Action}
use datasource_kit.Threads.{Threads, Sleeper}
use datasource_kit.Worker.Backoff.{BackoffPolicy}
use datasource_kit.Worker.Intent.{CheckpointStore, WorkerRun}
use datasource_kit.Worker.Host.{
  Host, Run, Flow, next, break, iterate, body, perform, work_round, source_step, persist_step,
  store_round, announce, follow, emit, loop, run, main, opening, started, finish,
}
use datasource_kit.Fetch.Cursor.{Cursor, make_cursor, as_dict, from_mapping-as_dict}
use datasource_kit.Fetch.Sequence.{
  FetchPlan, SequencePlanner, plan, fetch, checkpoint_after, make_planner,
}
use datasource_kit.Fetch.Walk.{Placed}
use datasource_kit.Fetch.Resume.{
  cursor_of, drop, drop_step, drop_all, elem_at, make_planner-Built, plan_next, first_plan,
}
use datasource_kit.Fetch.Intent.{
  Obj, mapping, cursor_from_checkpoint, intent_plan, intent_fetch, intent_output, intent_persist,
}
use datasource_kit.Fetch.Steady.{
  Seen, Steady, fetch_host, checkpoint_after_more, checkpoint_after_last,
}

module _ (fl : Floats) (is_blank : String → Bool) {U D W : Type 0} where
  open fl use {Float}

  module _ (t : Threads W) (fetcher : U → Action W (Obj U D))
      (save : Obj U D → Obj U D → Action W (Unit {0})) (p : SequencePlanner U)
      (store : CheckpointStore (Obj U D) W) (backoff : BackoffPolicy Float)
      (sleep : Sleeper Float W) (now : Action W String) (seen : W → Seen U D)
      (c : Steady t fetcher save store seen) where
    abbrev host : Host Float (Obj U D) W
    host = fetch_host fl is_blank fetcher save p store backoff sleep now

    abbrev named : U → Cursor
    named u = cursor_of is_blank p u

    abbrev planned : U → FetchPlan U
    planned u = record { ref = u; cursor = named u }

    abbrev checkpoint_of : U → Option (Obj U D)
    checkpoint_of u = some (mapping (as_dict (named u)))

    -- the run once the unit is fetched, persisted and its checkpoint stored
    abbrev worked : U → Run (Obj U D) W → Run (Obj U D) W
    worked u s = record {
      world =
          c.keep (checkpoint_of u)
            (c.put (c.read u) (Obj.fetch_plan (planned u)) (c.touch u s.world));
      checkpoint = checkpoint_of u;
      completed = s.completed + 1;
      failures = s.failures;
      consecutive = 0;
      iterations = s.iterations + 1;
    }

    abbrev flow_of : Option Cursor → Flow
    flow_of none = break
    flow_of (some _) = next

    iterate_lem :
        (s : Run (Obj U D) W) (cur : Option Cursor) (u : U) (after : Option Cursor)
        → cursor_from_checkpoint is_blank s.checkpoint ≡ ok cur
        → plan is_blank p cur ≡ ok (fetch (planned u))
        → checkpoint_after is_blank p (planned u) ≡ ok after
        → ((d : Cursor) → after ≡ some d → d ≡ named u)
        → iterate fl t host s ≡ (ok (flow_of after), worked u s)
    unfolding iterate body perform work_round source_step persist_step store_round announce follow
        emit intent_plan intent_fetch intent_output intent_persist
    iterate_lem s cur u none e1 e2 e3 k = rw (e1, e2, c.fetched, e3, c.saved, c.kept) refl
    iterate_lem s cur u (some d) e1 e2 e3 k =
        rw (e1, e2, c.fetched, e3, c.saved, k d refl, c.kept) refl

    -- The state after the units of a list were fetched and persisted, the last of them `z`.
    record Worked (us : List U) (z : U) (s s' : Run (Obj U D) W) : Type 0 where
      seen_after : seen s'.world ≡ record {
        fetches = (seen s.world).fetches ++ us;
        log = (seen s.world).log ++ map c.read us;
        durable = checkpoint_of z;
      }
      checkpoint_after : s'.checkpoint ≡ checkpoint_of z
      completed_after : s'.completed ≡ s.completed + length us
      failures_after : s'.failures ≡ s.failures
      iterations_after : s'.iterations ≡ s.iterations + length us

    worked-seen :
        (u : U) (s : Run (Obj U D) W)
        → seen (worked u s).world ≡ record {
          fetches = (seen s.world).fetches ++ u ∷ [];
          log = (seen s.world).log ++ c.read u ∷ [];
          durable = checkpoint_of u;
        }
    worked-seen u s = let w = c.touch u s.world in rw (c.keep-seen, c.put-seen, c.touch-seen) refl

    worked-Worked : (u : U) (s : Run (Obj U D) W) → Worked (u ∷ []) u s (worked u s)
    worked-Worked u s = record {
      seen_after = worked-seen u s;
      checkpoint_after = refl;
      completed_after = refl;
      failures_after = refl;
      iterations_after = refl;
    }

    -- what was seen once the units of a list are done, the last of them `z`
    abbrev after_units : List U → U → Seen U D → Seen U D
    after_units us z v = record {
      fetches = v.fetches ++ us;
      log = v.log ++ map c.read us;
      durable = checkpoint_of z;
    }

    cong_seen :
        (z : U) {a a' : List U} {b b' : List (Obj U D)}
        → a ≡ a'
        → b ≡ b'
        → ◌≡◌ {A = Seen U D}
            (record { fetches = a; log = b; durable = checkpoint_of z })
            (record { fetches = a'; log = b'; durable = checkpoint_of z })
    cong_seen z e f = rw (e, f) refl

    Worked-cons :
        (u z : U) (us : List U) (s s' : Run (Obj U D) W)
        → Worked us z (worked u s) s'
        → Worked (u ∷ us) z s s'
    Worked-cons u z us s s' k = record {
      seen_after =
          k.seen_after
          ∙ ap (after_units us z) (worked-seen u s)
          ∙ cong_seen z (append_assoc (seen s.world).fetches (u ∷ []) us)
              (append_assoc (seen s.world).log (c.read u ∷ []) (map c.read us));
      checkpoint_after = k.checkpoint_after;
      completed_after = omega (arith, k.completed_after);
      failures_after = k.failures_after;
      iterations_after = omega (arith, k.iterations_after);
    }

    resumed_from :
        (u : U)
        → make_cursor is_blank p.kind (p.encode u) ≡ ok (named u)
        → cursor_from_checkpoint is_blank (checkpoint_of u) ≡ ok (some (named u))
    unfolding cursor_from_checkpoint
    resumed_from u valid =
        rw (from_mapping-as_dict is_blank p.kind (p.encode u) (named u) valid) refl

    -- The loop from before the unit `u` at place k: it fetches and persists the units from there on.
    loop_lem :
        (m k fuel : ℕ) (s : Run (Obj U D) W) (cur : Option Cursor) (u z : U)
        → ((j : ℕ) (x : U)
            → get_elem? p.units j ≡ some x
            → Placed is_blank p.kind p.encode p.index j x)
        → cursor_from_checkpoint is_blank s.checkpoint ≡ ok cur
        → plan is_blank p cur ≡ ok (fetch (planned u))
        → get_elem? p.units k ≡ some u
        → get_elem? p.units (k + m) ≡ some z
        → k + 1 + m ≡ length p.units
        → m < fuel
        → (s' : Run (Obj U D) W) × (loop fl t host fuel none s ≡ some (ok tt, s'))
          × Worked (drop k p.units) z s s'
    unfolding loop
    loop_lem m k zero s cur u z placed e1 e2 at last end more = absurd (omega arith)
    loop_lem zero k (suc fuel) s cur u z placed e1 e2 at last end more =
        let finished = checkpoint_after_last is_blank p k u (placed k u at) (omega arith) in
        let done = iterate_lem s cur u none e1 e2 finished (λ d e. cc) in
        let same : u ≡ z = ground arith in
        let ending : suc k ≡ length p.units = omega arith in
        let none_left : drop (suc k) p.units ≡ [] = rw ending (drop_all p.units) in
        let rest : drop k p.units ≡ u ∷ [] =
          drop_step k p.units u at ∙ ap (λ xs. u ∷ xs) none_left in
        (worked u s, rw (loop, c.running, done) refl, rw (rest, sym same) (worked-Worked u s))
    loop_lem (suc m) k (suc fuel) s cur u z placed e1 e2 at last end more =
        let unfinished = checkpoint_after_more is_blank p k u (placed k u at) (omega arith) in
        let done = iterate_lem s cur u (some (named u)) e1 e2 unfinished (λ d e. cc) in
        let (v, at') = elem_at p.units (k + 1) (omega arith) in
        let behind =
          plan_next is_blank p k u v (placed k u at) (placed (k + 1) v at') at' (omega arith) in
        let place : k + 1 + m ≡ k + suc m = omega arith in
        let (s', ran, w) =
          loop_lem m (k + 1) fuel (worked u s) (some (named u)) v z placed
            (resumed_from u (placed k u at).valid) behind at' (rw place last) (omega arith)
            (omega arith) in
        let place' : suc k ≡ k + 1 = omega arith in
        (
          s',
          rw (loop, c.running, done) ran,
          rw (drop_step k p.units u at, place') (Worked-cons u z (drop (k + 1) p.units) s s' w),
        )

    -- what the run hands back, and the world it leaves
    pub record Ingested (us : List U) (z : U) (v : Seen U D)
        (out : Option (Result (WorkerRun (Obj U D)) × W)) : Type 0 where
      pub left : W
      pub returned :
          out
          ≡ some (
            ok (record {
              checkpoint = checkpoint_of z;
              completed = length us;
              failures = 0;
              iterations = length us;
            }),
            left,
          )
      pub seen_left : seen left ≡ record {
        fetches = v.fetches ++ us;
        log = v.log ++ map c.read us;
        durable = checkpoint_of z;
      }

    -- a run that loads a checkpoint and then has the units of a list to do
    run_lem :
        (k m fuel : ℕ) (cur : Option Cursor) (u z : U) (w : W)
        → ((j : ℕ) (x : U)
            → get_elem? p.units j ≡ some x
            → Placed is_blank p.kind p.encode p.index j x)
        → cursor_from_checkpoint is_blank (seen w).durable ≡ ok cur
        → plan is_blank p cur ≡ ok (fetch (planned u))
        → get_elem? p.units k ≡ some u
        → get_elem? p.units (k + m) ≡ some z
        → k + 1 + m ≡ length p.units
        → m < fuel
        → t.lock_held w ≡ false
        → Ingested (drop k p.units) z (seen w) (run fl t host fuel none w)
    unfolding run main opening started emit finish
    run_lem k m fuel cur u z w placed e1 e2 at last end more unlocked =
        let locked = t.set_lock true w in
        let before : Run (Obj U D) W = record {
          world = c.look locked;
          checkpoint = (seen locked).durable;
          completed = 0;
          failures = 0;
          consecutive = 0;
          iterations = 0;
        } in
        let seen_before : seen (c.look locked) ≡ seen w =
          c.look-seen locked ∙ c.set_lock-seen true w in
        let same : (seen locked).durable ≡ (seen w).durable =
          ap (λ v. v.durable) (c.set_lock-seen true w) in
        let (s', ran, d) =
          loop_lem m k fuel before cur u z placed (rw same e1) e2 at last end more in
        let from_zero : 0 + length (drop k p.units) ≡ length (drop k p.units) = omega arith in
        record {
          left = t.set_lock false s'.world;
          returned =
              rw
                (
                  unlocked, c.loaded, ran, d.checkpoint_after, d.completed_after, d.failures_after,
                  d.iterations_after, from_zero,
                )
                refl;
          seen_left =
              c.set_lock-seen false s'.world
              ∙ d.seen_after
              ∙ ap (after_units (drop k p.units) z) seen_before;
        }

    zero_add : (m : ℕ) → 0 + m ≡ m
    zero_add m = omega arith

    -- A host without a heartbeat, over an intent whose directive for a source without a next unit is
    -- STOP; a planner that `make_planner` built of at least one unit; a fetcher and a save
    -- callback that always return and record what they were called with; a store that always returns and
    -- keeps the last checkpoint; a stop event that is never set; no
    -- limit on the iterations, and fuel for as many rounds as there are units; a store without a
    -- checkpoint and a run lock that is free. Then the run calls the fetcher with every unit of the walk
    -- exactly once, in the walk's order, and with nothing else; it persists what each fetch read, in that
    -- order; the stored checkpoint is the last unit's cursor; and it returns with that checkpoint, one
    -- completed step and one iteration per unit, and no failure.
    pub run_ingests_all :
        (units : List U) (kind order : String) (encode : U → String) (m fuel : ℕ) (z : U) (w : W)
        → make_planner is_blank units kind encode order ≡ ok p
        → get_elem? p.units m ≡ some z
        → suc m ≡ length p.units
        → m < fuel
        → (seen w).durable ≡ none
        → t.lock_held w ≡ false
        → Ingested p.units z (seen w) (run fl t host fuel none w)
    unfolding cursor_from_checkpoint
    run_ingests_all units kind order encode m fuel z w e last end more empty unlocked =
        let b = make_planner-Built is_blank units kind order encode p e in
        let (u, at) = elem_at p.units 0 (omega arith) in
        run_lem 0 m fuel none u z w b.placed (rw empty refl)
          (first_plan is_blank p u (drop 1 p.units) (drop_step 0 p.units u at) (b.placed 0 u at)) at
          (rw (zero_add m) last) (omega arith) more unlocked

    -- A host without a heartbeat, over an intent whose directive for a source without a next unit is
    -- STOP; a planner that `make_planner` built; a fetcher and a save callback that always return and
    -- record what they were called with; a store that always returns and keeps the last checkpoint; a stop
    -- event that is never set; no limit on the iterations,
    -- and fuel for as many rounds as there are units left; a run lock that is free; and a stored
    -- checkpoint that is the cursor of the unit at place k, which is not the last one. Then the run calls
    -- the fetcher with every unit behind place k exactly once, in the walk's order, and with nothing
    -- else; it persists what each fetch read, in that order; the stored checkpoint is the last unit's
    -- cursor; and it returns with that checkpoint, one completed step and one iteration for each unit
    -- behind place k, and no failure.
    pub run_ingests_rest :
        (units : List U) (kind order : String) (encode : U → String) (k m fuel : ℕ) (u z : U)
        (w : W)
        → make_planner is_blank units kind encode order ≡ ok p
        → get_elem? p.units k ≡ some u
        → get_elem? p.units (k + 1 + m) ≡ some z
        → k + 1 + suc m ≡ length p.units
        → m < fuel
        → (seen w).durable ≡ some (mapping (as_dict (cursor_of is_blank p u)))
        → t.lock_held w ≡ false
        → Ingested (drop (k + 1) p.units) z (seen w) (run fl t host fuel none w)
    run_ingests_rest units kind order encode k m fuel u z w e at last end more found unlocked =
        let b = make_planner-Built is_blank units kind order encode p e in
        let (v, at') = elem_at p.units (k + 1) (omega arith) in
        run_lem (k + 1) m fuel (some (named u)) v z w b.placed
          (rw found (resumed_from u (b.placed k u at).valid))
          (plan_next is_blank p k u v (b.placed k u at) (b.placed (k + 1) v at') at' (omega arith))
          at' last (omega arith) more unlocked
