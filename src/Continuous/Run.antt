-- ===== src/Continuous/Run.antt =====
-- `ContinuousWorkerHost.run` as a whole: its report, its exclusion of a second run, and its end.
use datasource_kit.Prelude.{
  ℕ, ◌+◌, ◌≡◌, ap, sym, ◌∙◌, Bool, true, false, Option, none, some, arith, Bool-cases, inl, inr,
}
use datasource_kit.Prelude.Int.{ℤ}
use datasource_kit.Prelude.Floats.{Floats}
use datasource_kit.Effect.{Exn, value_error, runtime_error, Result, ok, raised, Holds}
use datasource_kit.Threads.{Threads}
use datasource_kit.Continuous.Directive.{LoopRun}
use datasource_kit.Continuous.Host.{
  Host, LoopState, start, bad_rotation, negative, loop, report, finish, run,
}
use datasource_kit.Continuous.Loop.{LoopEnds, loop_inv}
use datasource_kit.Continuous.Counters.{IsBounded, RunIsBounded, iterate-IsBounded, start-IsBounded}
use datasource_kit.Continuous.Calls.{CountsSteps, iterate-Counted, report-calls}

value_ne :
    {A B : Type 0} {x : Exn} {a : A} {w w' : B}
    → ◌≡◌ {A = Option (Result A × B)} (some (raised x, w)) (some (ok a, w'))
    → ⊥
value_ne e = cc

bool_ne : false ≡ true → ⊥
bool_ne e = cc

-- The call raised.
abbrev pub Failed : {A : Type 0} → Result A → Type 0
Failed (ok _) = ⊥
Failed (raised _) = Unit

module _ (fl : Floats) where
  open fl use {Float}

  module _ {W : Type 0} (t : Threads W) (h : Host Float W) where
    abbrev Reports : LoopState Float → LoopRun Float → Type 0
    Reports s r =
        (r.sequence ≡ s.sequence)
        × (r.counted ≡ s.counted)
        × (r.attempts_in_boundary ≡ s.attempts)
        × (r.last_directive ≡ s.last)

    report_fields : (s : LoopState Float) (w : W) → Holds (Reports s) (report fl t h s w).0
    unfolding report
    report_fields s w = ground arith

    -- A run that returned had an end of its loop, whose variables it reports.
    record Returns (P : LoopState Float → W → Type 0) (r : LoopRun Float) (w' : W) : Type 0 where
      final : LoopState Float
      world : W
      holds : P final world
      reported : Reports final r
      left : w' ≡ t.set_lock false (report fl t h final world).1

    finish_inversion :
        (P : LoopState Float → W → Type 0) (body : Option (Result (LoopState Float) × W)) (w' : W)
        (r : LoopRun Float)
        → LoopEnds fl t h P body
        → finish fl t h body ≡ some (ok r, w')
        → Returns P r w'
    finish_inversion P none w' r p e = cc
    finish_inversion P (some (raised x, v)) w' r p e = cc
    finish_inversion P (some (ok s, v)) w' r p e = record {
      final = s;
      world = v;
      holds = p;
      reported = ground (arith, report_fields s v);
      left = ground arith;
    }

    run_inversion :
        (P : LoopState Float → W → Type 0) (fuel : ℕ) (most : Option ℤ) (w w' : W)
        (r : LoopRun Float)
        → LoopEnds fl t h P (loop fl t h fuel most start (t.set_lock true w))
        → run fl t h fuel most w ≡ some (ok r, w')
        → Returns P r w'
    unfolding run
    run_inversion P fuel most w w' r p e = elim (Bool-cases (negative fl t h most)) [
      | inl bad ↦ absurd (value_ne (rw bad at e))
      | inr fine ↦ elim (Bool-cases (t.lock_held w)) [
        | inl held ↦ absurd (value_ne (rw (fine, held) at e))
        | inr free ↦ finish_inversion P _ w' r p (rw (fine, free) at e)
      ]
    ]

    reported_bounds :
        (most : Option ℤ) (r : LoopRun Float) (s : LoopState Float)
        → IsBounded fl t h most s
        → Reports s r
        → RunIsBounded fl t h most r
    reported_bounds most r s b (e1, e2, e3, _) =
        rw (e1, e2, e3) (b.attempts_bounded, b.within_boundary, b.counted_bounded)

    -- When `run` returns from a host that `__init__` accepts, the attempts in the open boundary are at
    -- most `rotation_attempts` (if set) and at most the sequence, and the counted directives are at most
    -- `max_counted` (if set).
    pub run-IsBounded :
        (fuel : ℕ) (most : Option ℤ) (w w' : W) (r : LoopRun Float)
        → bad_rotation h.rotation_attempts ≡ false
        → run fl t h fuel most w ≡ some (ok r, w')
        → RunIsBounded fl t h most r
    run-IsBounded fuel most w w' r valid e =
        let done =
          run_inversion (λ s _. IsBounded fl t h most s) fuel most w w' r
            (loop_inv fl t h (λ s _. IsBounded fl t h most s) most
              (λ s v room b. iterate-IsBounded fl t h most s v valid room b) fuel start
              (t.set_lock true w) (start-IsBounded fl t h most))
            e in
        reported_bounds most r done.final done.holds done.reported

    -- A count that only the consumer's step moves, by one a call, has grown by the reported sequence
    -- when `run` returns: every call of the step is in the sequence, also one that raised.
    pub run-sequence :
        (calls : W → ℕ) (fuel : ℕ) (most : Option ℤ) (w w' : W) (r : LoopRun Float)
        → CountsSteps fl h calls
        → ((b : Bool) (v : W) → calls (t.set_lock b v) ≡ calls v)
        → run fl t h fuel most w ≡ some (ok r, w')
        → calls w' ≡ calls w + r.sequence
    run-sequence calls fuel most w w' r c quiet e =
        let base = calls (t.set_lock true w) in
        let P : LoopState Float → W → Type 0 = λ s v. calls v ≡ base + s.sequence in
        let done =
          run_inversion P fuel most w w' r
            (loop_inv fl t h P most (λ s v _ p. iterate-Counted fl t h calls c base s v p) fuel
              start (t.set_lock true w) (omega arith))
            e in
        let after = report-calls fl t h calls c done.final done.world in
        let released = quiet false (report fl t h done.final done.world).1 in
        rw done.left (omega (arith, done.holds, done.reported, after, released, quiet true w))

    finish-lock_held :
        (body : Option (Result (LoopState Float) × W)) (r : Result (LoopRun Float)) (w' : W)
        → finish fl t h body ≡ some (r, w')
        → t.lock_held w' ≡ false
    finish-lock_held none r w' e = cc
    finish-lock_held (some (ok s, v)) r w' e =
        ground (arith, t.lock_held-set_lock false (report fl t h s v).1)
    finish-lock_held (some (raised x, v)) r w' e = ground (arith, t.lock_held-set_lock false v)

    unchanged :
        (w w' : W) (x : Exn) (r : Result (LoopRun Float))
        → ◌≡◌ {A = Option (Result (LoopRun Float) × W)} (some (raised x, w)) (some (r, w'))
        → (t.lock_held w' ≡ t.lock_held w) × (t.lock_held w ≡ true → (w' ≡ w) × (Failed r))
    unchanged w w' x (ok r) e = absurd (value_ne e)
    unchanged w w' x (raised y) e =
        let same : w' ≡ w = ground arith in (ap t.lock_held same, λ _. (same, tt))

    -- However `run` ends, with a report or an exception, the run lock is as it was at the call: it is
    -- released by a run that took it, and a run that finds it held raises and changes nothing.
    pub run-lock_held :
        (fuel : ℕ) (most : Option ℤ) (w w' : W) (r : Result (LoopRun Float))
        → run fl t h fuel most w ≡ some (r, w')
        → (t.lock_held w' ≡ t.lock_held w) × (t.lock_held w ≡ true → (w' ≡ w) × (Failed r))
    unfolding run
    run-lock_held fuel most w w' r e = elim (Bool-cases (negative fl t h most)) [
      | inl bad ↦ unchanged w w' value_error r (rw bad at e)
      | inr fine ↦ elim (Bool-cases (t.lock_held w)) [
        | inl held ↦ unchanged w w' runtime_error r (rw (fine, held) at e)
        | inr free ↦ (
          finish-lock_held _ r w' (rw (fine, free) at e) ∙ sym free,
          λ held. absurd (bool_ne (sym free ∙ held)),
        )
      ]
    ]
