-- ===== src/Worker/Bounds.antt =====
-- The bounds on what `WorkerHost.run` reports, and its end under a limit.
use datasource_kit.Prelude.{
  ℕ, zero, suc, ◌+◌, ◌≤◌, ◌<◌, ◌≡◌, ◌≢◌, refl, ◌&&◌, not, Bool, true, false, Option, none, some,
  arith, Bool-cases, inl, inr,
}
use datasource_kit.Prelude.Int.{ℤ, pos, Within, Within-zero}
use datasource_kit.Prelude.Floats.{Floats}
use datasource_kit.Effect.{Result, ok, raised}
use datasource_kit.Threads.{Threads}
use datasource_kit.Worker.Intent.{WorkerRun}
use datasource_kit.Worker.Host.{
  Host, Run, Flow, next, break, begin, below, negative, iterate, proceed, loop, started, opening,
  after_opening, main, finish, run,
}
use datasource_kit.Worker.Progress.{iterate-IsRound, emit-SameLocals}
use datasource_kit.Worker.Run.{Holds-all, run_inversion, main_inv}

module _ (fl : Floats) where
  open fl use {Float}

  module _ {O W : Type 0} (t : Threads W) (h : Host Float O W) where
    -- The counters of a run, at every moment.
    pub record IsBounded (most : Option ℤ) (s : Run O W) : Type 0 where
      pub completed_bounded : s.completed ≤ s.iterations
      pub failures_bounded : s.failures ≤ s.iterations
      pub consecutive_bounded : s.consecutive ≤ s.failures
      pub iterations_bounded : Within most s.iterations

    iterate-IsBounded :
        (most : Option ℤ) (s : Run O W)
        → below most s.iterations ≡ true
        → IsBounded most s
        → IsBounded most (iterate fl t h s).1
    iterate-IsBounded none s room b =
        let c = iterate-IsRound fl t h s in
        record {
          completed_bounded = omega arith;
          failures_bounded = omega arith;
          consecutive_bounded = omega arith;
          iterations_bounded = tt;
        }
    iterate-IsBounded (some m) s room b =
        let c = iterate-IsRound fl t h s in
        record {
          completed_bounded = omega arith;
          failures_bounded = omega arith;
          consecutive_bounded = omega arith;
          iterations_bounded = ground arith;
        }

    -- Before the loop only the checkpoint and the world change.
    record Unstarted (s : Run O W) : Type 0 where
      completed : s.completed ≡ 0
      failures : s.failures ≡ 0
      consecutive : s.consecutive ≡ 0
      iterations : s.iterations ≡ 0

    opening-Unstarted : (w : W) → Unstarted (opening fl t h (begin w)).1
    unfolding opening started
    opening-Unstarted w = grind (arith, emit-SameLocals)

    opening-IsBounded : (most : Option ℤ) (w : W) → IsBounded most (opening fl t h (begin w)).1
    opening-IsBounded most w =
        let z = opening-Unstarted w in
        record {
          completed_bounded = omega arith;
          failures_bounded = omega arith;
          consecutive_bounded = omega arith;
          iterations_bounded = Within-zero most _ z.iterations;
        }

    -- When `run` returns, the completed and the failed iterations are each at most the iterations,
    -- which are at most `max_iterations` (if set).
    pub run-WithinIterations :
        (fuel : ℕ) (most : Option ℤ) (w w' : W) (r : WorkerRun O)
        → run fl t h fuel most w ≡ some (ok r, w')
        → (r.completed ≤ r.iterations) × (r.failures ≤ r.iterations) × Within most r.iterations
    run-WithinIterations fuel most w w' r e =
        let begun = begin (t.set_lock true w) in
        let done =
          run_inversion fl t h (IsBounded most) fuel most w w' r
            (main_inv fl t h (IsBounded most) most (iterate-IsBounded most) fuel begun
              (Holds-all (opening fl t h begun).0 (opening-IsBounded most (t.set_lock true w))))
            e in
        let quiet = emit-SameLocals fl t h "stopped" none none done.final in
        let bound = done.holds in
        rw (done.reported, quiet.completed, quiet.failures, quiet.iterations)
          (bound.completed_bounded, bound.failures_bounded, bound.iterations_bounded)

    iterations_by_one : (s : Run O W) → ((iterate fl t h s).1).iterations ≡ s.iterations + 1
    iterations_by_one s = (iterate-IsRound fl t h s).iterations_by_one

    next_le :
        (m : ℕ) (s : Run O W) (b : Bool)
        → (b && below (some (pos m)) s.iterations) ≡ true
        → s.iterations + 1 ≤ m
    next_le m s b more = ground arith

    proceed_ends :
        (r : Result Flow) (s : Run O W) (rest : Run O W → Option (Result (Unit {0}) × Run O W))
        → rest s ≢ none
        → proceed fl t h r s rest ≢ none
    proceed_ends (raised e) s rest k = λ eq. cc
    proceed_ends (ok break) s rest k = λ eq. cc
    proceed_ends (ok next) s rest k = k

    loop_ends :
        (fuel m : ℕ) (s : Run O W)
        → s.iterations ≤ m
        → m < fuel + s.iterations
        → loop fl t h fuel (some (pos m)) s ≢ none
    unfolding loop
    loop_ends zero m s le lt = absurd (omega arith)
    loop_ends (suc fuel) m s le lt =
        elim (Bool-cases (not (t.stop_is_set s.world) && below (some (pos m)) s.iterations)) [
          | inl more ↦
              let (r, s') = iterate fl t h s in
              let fits = next_le m s _ more in
              let step = iterations_by_one s in
              rw (more, loop)
                (proceed_ends r s' (loop fl t h fuel (some (pos m)))
                  (loop_ends fuel m s' (omega arith) (omega arith)))
          | inr done ↦ rw (done, loop) (λ eq. cc)
        ]

    after_opening_ends :
        (r : Result (Unit {0})) (s : Run O W)
        (rest : Run O W → Option (Result (Unit {0}) × Run O W))
        → rest s ≢ none
        → after_opening fl t h r s rest ≢ none
    after_opening_ends (raised e) s rest k = λ eq. cc
    after_opening_ends (ok u) s rest k = k

    main_ends : (m : ℕ) (w : W) → main fl t h (suc m) (some (pos m)) (begin w) ≢ none
    unfolding main
    main_ends m w =
        let (r, s) = opening fl t h (begin w) in
        let z = opening-Unstarted w in
        after_opening_ends r s (loop fl t h (suc m) (some (pos m)))
          (loop_ends (suc m) m s (omega arith) (omega arith))

    finish_ends :
        (ended : Option (Result (Unit {0}) × Run O W)) → ended ≢ none → finish fl t h ended ≢ none
    unfolding finish
    finish_ends none k = absurd (k refl)
    finish_ends (some (r, s)) k = λ eq. cc

    -- A run with `max_iterations` = m has a result after at most m + 1 tests of its loop, whatever
    -- the callbacks do.
    pub bounded_run_ends : (m : ℕ) (w : W) → run fl t h (suc m) (some (pos m)) w ≢ none
    unfolding run
    bounded_run_ends m w =
        let fine : negative (some (pos m)) ≡ false = ground arith in
        let ends = finish_ends _ (main_ends m (t.set_lock true w)) in
        elim (Bool-cases (t.lock_held w)) [
          | inl held ↦ rw (fine, held) (λ eq. cc)
          | inr free ↦ rw (fine, free) ends
        ]
