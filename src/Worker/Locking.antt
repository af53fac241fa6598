-- ===== src/Worker/Locking.antt =====
-- The run lock of `WorkerHost`. The `finally` of `run` announces "stopped" before it releases the
-- lock, so the release depends on that announcement.
use datasource_kit.Prelude.{
  ℕ, ◌≡◌, ◌∙◌, refl, sym, ap, true, false, Option, none, some, String, arith, Bool-cases, inl, inr,
}
use datasource_kit.Prelude.Int.{ℤ}
use datasource_kit.Prelude.Floats.{Floats}
use datasource_kit.Effect.{Exn, value_error, runtime_error, Result, ok, raised, Action, lift, ◌>>=◌}
use datasource_kit.Threads.{Threads}
use datasource_kit.Worker.Intent.{WorkerRun, WorkerHeartbeat}
use datasource_kit.Worker.Host.{
  Host, Run, begin, negative, emit, finish, opening, started, main, run,
}

module _ (fl : Floats) where
  open fl use {Float}

  module _ {O W : Type 0} (t : Threads W) (h : Host Float O W) where
    finish-lock_held :
        (ended : Option (Result (Unit {0}) × Run O W)) (r : Result (WorkerRun O)) (w' : W)
        → ((s : Run O W) → (emit fl t h "stopped" none none s).0 ≡ ok tt)
        → finish fl t h ended ≡ some (r, w')
        → t.lock_held w' ≡ false
    unfolding finish
    finish-lock_held none r w' quiet e = cc
    finish-lock_held (some (ok u, s)) r w' quiet e =
        ground
          (arith, quiet s, t.lock_held-set_lock false ((emit fl t h "stopped" none none s).1).world)
    finish-lock_held (some (raised x, s)) r w' quiet e =
        ground
          (arith, quiet s, t.lock_held-set_lock false ((emit fl t h "stopped" none none s).1).world)

    -- Where the last heartbeat goes through (no heartbeat raises more than an Exception and the clock
    -- does not raise), however a run ends, the run lock is as it was at the call.
    pub run-lock_restored :
        (fuel : ℕ) (most : Option ℤ) (w w' : W) (r : Result (WorkerRun O))
        → ((s : Run O W) → (emit fl t h "stopped" none none s).0 ≡ ok tt)
        → run fl t h fuel most w ≡ some (r, w')
        → t.lock_held w' ≡ t.lock_held w
    unfolding run
    run-lock_restored fuel most w w' r quiet e = elim (Bool-cases (negative most)) [
      | inl bad ↦ same_world value_error (rw bad at e)
      | inr fine ↦ elim (Bool-cases (t.lock_held w)) [
        | inl held ↦ same_world runtime_error (rw (fine, held) at e)
        | inr free ↦ finish-lock_held _ r w' quiet (rw (fine, free) at e) ∙ sym free
      ]
    ]
      where
        same_world :
            (x : Exn)
            → ◌≡◌ {A = Option (Result (WorkerRun O) × W)} (some (raised x, w)) (some (r, w'))
            → t.lock_held w' ≡ t.lock_held w
        same_world x eq = let same : w' ≡ w = ground arith in ap t.lock_held same

    -- A clock that raises, under a configured heartbeat, with nothing else that moves the lock.
    pub record BrokenClock (x : Exn) : Type 0 where
      pub beats : (f : WorkerHeartbeat Float O → Action W Unit) × (h.heartbeat ≡ some f)
      pub raises : (v : W) → (h.now v).0 ≡ raised x
      pub keeps : (v : W) → t.lock_held (h.now v).1 ≡ t.lock_held v
      pub loads : (v : W) → t.lock_held (h.checkpoints.load v).1 ≡ t.lock_held v

    module _ (x : Exn) (b : BrokenClock x) where
      emit_raises :
          (event : String) (e : Option Exn) (d : Option Float) (s : Run O W)
          → ((emit fl t h event e d s).0 ≡ raised x)
            × (t.lock_held ((emit fl t h event e d s).1).world ≡ t.lock_held s.world)
      unfolding emit
      emit_raises event e d s =
          let (f, set) = b.beats in ground (arith, set, b.raises s.world, b.keeps s.world)

      after_load :
          (r : Result (Option O)) (s : Run O W)
          → let out = (lift r >>= started fl t h) s in
            (y : Exn) × (out.0 ≡ raised y) × (t.lock_held (out.1).world ≡ t.lock_held s.world)
      unfolding started
      after_load (raised e) s = (e, refl, refl)
      after_load (ok loaded) s =
          let k = emit_raises "starting" none none (record s { checkpoint = loaded }) in
          (x, ground (arith, k), ground (arith, k))

      opening_raises :
          (s : Run O W)
          → (y : Exn) × ((opening fl t h s).0 ≡ raised y)
            × (t.lock_held ((opening fl t h s).1).world ≡ t.lock_held s.world)
      unfolding opening
      opening_raises s =
          let (r, w) = h.checkpoints.load s.world in
          let (y, e, k) = after_load r (record s { world = w }) in (y, e, k ∙ b.loads s.world)

      -- Where a heartbeat is configured, the clock raises, and neither it nor the load of the
      -- checkpoint moves the lock: a run of a free host ends by the clock's exception and leaves the
      -- lock held, and the next run is refused as already running.
      pub broken_clock_keeps_lock :
          (fuel fuel' : ℕ) (w : W)
          → t.lock_held w ≡ false
          → (w' : W) × (run fl t h fuel none w ≡ some (raised x, w'))
            × (run fl t h fuel' none w' ≡ some (raised runtime_error, w'))
      unfolding run finish main
      broken_clock_keeps_lock fuel fuel' w free =
          let s : Run O W = begin (t.set_lock true w) in
          let (y, e, k) = opening_raises s in
          let s' = (opening fl t h s).1 in
          let (e', k') = emit_raises "stopped" none none s' in
          let held = k' ∙ k ∙ t.lock_held-set_lock true w in
          (((emit fl t h "stopped" none none s').1).world, rw (free, e, e'), rw held)
