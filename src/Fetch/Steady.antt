-- ===== src/Fetch/Steady.antt =====
-- A worker host for a `FetchIntent` over a `SequencePlanner`: worker.py and fetch.py together, with a
-- consumer whose callbacks return.
use text.Mathlib.Text.{◌==◌ as str_eq}
use text.Mathlib.TextEquality.{eq_iff}
use datasource_kit.Prelude.{
  ℕ, ◌+◌, ◌<◌, ◌≡◌, refl, Bool, true, false, Option, none, some, String, List, [], ◌∷◌, ◌++◌, arith,
  length, leb,
}
use datasource_kit.Prelude.Floats.{Floats}
use datasource_kit.Effect.{ok, Action}
use datasource_kit.Threads.{Threads, Sleeper}
use datasource_kit.Worker.Backoff.{BackoffPolicy}
use datasource_kit.Worker.Intent.{WorkDirective, CheckpointStore}
use datasource_kit.Worker.Host.{Host}
use datasource_kit.Fetch.Sequence.{SequencePlanner, checkpoint_after}
use datasource_kit.Fetch.Walk.{Placed}
use datasource_kit.Fetch.Resume.{cursor_of}
use datasource_kit.Fetch.Planner.{sequence_planner}
use datasource_kit.Fetch.Intent.{Obj, fetch_intent}

-- The units that were handed to the fetcher and what the consumer has persisted, both oldest first, and
-- the checkpoint that is stored.
pub record Seen (U D : Type 0) : Type 0 where
  pub fetches : List U
  pub log : List (Obj U D)
  pub durable : Option (Obj U D)

-- The consumer's callbacks and the store return: a fetch reads its unit and notes that it was asked for
-- it, `save` appends to the log, the store keeps what it is given, and the stop event is never set.
pub record Steady {U D W : Type 0} (t : Threads W) (fetcher : U → Action W (Obj U D))
    (save : Obj U D → Obj U D → Action W (Unit {0})) (store : CheckpointStore (Obj U D) W)
    (seen : W → Seen U D) : Type 0 where
  pub read : U → Obj U D
  pub touch : U → W → W
  pub put : Obj U D → Obj U D → W → W
  pub keep : Option (Obj U D) → W → W
  pub look : W → W
  pub fetched : (u : U) (w : W) → fetcher u w ≡ (ok (read u), touch u w)
  pub saved : (x plan : Obj U D) (w : W) → save x plan w ≡ (ok tt, put x plan w)
  pub kept : (c : Option (Obj U D)) (w : W) → store.save c w ≡ (ok tt, keep c w)
  pub loaded : (w : W) → store.load w ≡ (ok (seen w).durable, look w)
  pub touch-seen :
      (u : U) (w : W)
      → seen (touch u w) ≡ record {
        fetches = (seen w).fetches ++ u ∷ [];
        log = (seen w).log;
        durable = (seen w).durable;
      }
  pub put-seen :
      (x plan : Obj U D) (w : W)
      → seen (put x plan w) ≡ record {
        fetches = (seen w).fetches;
        log = (seen w).log ++ x ∷ [];
        durable = (seen w).durable;
      }
  pub keep-seen :
      (c : Option (Obj U D)) (w : W)
      → seen (keep c w) ≡ record { fetches = (seen w).fetches; log = (seen w).log; durable = c }
  pub look-seen : (w : W) → seen (look w) ≡ seen w
  pub set_lock-seen : (b : Bool) (w : W) → seen (t.set_lock b w) ≡ seen w
  pub running : (w : W) → t.stop_is_set w ≡ false

module _ (is_blank : String → Bool) {U : Type 0} where
  pub checkpoint_after_more :
      (p : SequencePlanner U) (k : ℕ) (u : U)
      → Placed is_blank p.kind p.encode p.index k u
      → k + 1 < length p.units
      → checkpoint_after is_blank p (record { ref = u; cursor = cursor_of is_blank p u })
        ≡ ok (some (cursor_of is_blank p u))
  unfolding checkpoint_after
  checkpoint_after_more p k u here room =
      let same : str_eq p.kind p.kind ≡ true = (eq_iff p.kind p.kind).1 refl in
      let more : leb (length p.units) (k + 1) ≡ false = ground arith in
      rw (same, here.found, more) refl

  pub checkpoint_after_last :
      (p : SequencePlanner U) (k : ℕ) (u : U)
      → Placed is_blank p.kind p.encode p.index k u
      → k + 1 ≡ length p.units
      → checkpoint_after is_blank p (record { ref = u; cursor = cursor_of is_blank p u }) ≡ ok none
  unfolding checkpoint_after
  checkpoint_after_last p k u here end =
      let same : str_eq p.kind p.kind ≡ true = (eq_iff p.kind p.kind).1 refl in
      let over : leb (length p.units) (k + 1) ≡ true = ground arith in
      rw (same, here.found, over) refl

module _ (fl : Floats) (is_blank : String → Bool) {U D W : Type 0} where
  open fl use {Float}

  -- `WorkerHost(FetchIntent(fetcher, save, planner), store, ...)` without a heartbeat
  abbrev pub fetch_host :
      (U → Action W (Obj U D))
      → (Obj U D → Obj U D → Action W (Unit {0}))
      → SequencePlanner U
      → CheckpointStore (Obj U D) W
      → BackoffPolicy Float
      → Sleeper Float W
      → Action W String
      → Host Float (Obj U D) W
  fetch_host fetcher save p store backoff sleep now = record {
    intent = fetch_intent is_blank (record {
      fetcher = fetcher;
      save = save;
      planner = sequence_planner is_blank p;
      exhausted = WorkDirective.stop;
    });
    checkpoints = store;
    backoff = backoff;
    heartbeat = none;
    sleep = sleep;
    now = now;
  }
