-- ===== src/Continuous/Termination.antt =====
-- A `max_counted` ends the run: with no control hook, and a step (and mapper) whose directives are all
-- counted, every round that does not raise counts, so `max_counted` + 1 rounds of fuel are enough.
use datasource_kit.Prelude.{
  ℕ, zero, suc, ◌+◌, ◌≤◌, ◌<◌, ◌≡◌, refl, ◌≢◌, ◌&&◌, not, Bool, true, false, Option, none, some,
  arith, Bool-cases, Option-cases, inl, inr,
}
use datasource_kit.Prelude.Int.{pos}
use datasource_kit.Prelude.Floats.{Floats}
use datasource_kit.Effect.{Exn, Result, ok, raised, Action, Holds}
use datasource_kit.Threads.{Threads}
use datasource_kit.Continuous.Directive.{LoopDirective, LoopContext, Returned, directive}
use datasource_kit.Continuous.Host.{
  Host, LoopState, start, below, attempt, try_step, recover, ask_control, stepped, iterate, proceed,
  loop, negative, finish, run,
}
use datasource_kit.Continuous.Counters.{apply_fields}

-- The directive that a callback handed back is counted.
abbrev pub CountedReply : {F : Type 0} → Returned F → Type 0
CountedReply (directive d) = d.counted ≡ true
CountedReply _ = Unit

module _ (fl : Floats) where
  open fl use {Float}

  pub record AllCounted {W : Type 0} (h : Host Float W) : Type 0 where
    pub no_control : h.control ≡ none
    pub by_step : (ctx : LoopContext) (w : W) → Holds CountedReply (h.step ctx w).0
    pub by_on_error :
        (f : Exn → LoopContext → Action W (Returned Float)) (e : Exn) (ctx : LoopContext) (w : W)
        → h.on_error ≡ some f
        → Holds CountedReply (f e ctx w).0

  module _ {W : Type 0} (t : Threads W) (h : Host Float W) (c : AllCounted h) where
    abbrev Counts : Result (LoopDirective Float × Bool) → Type 0
    Counts r = Holds (λ out. (out.0).counted ≡ true) r

    try_step-Counts : (ctx : LoopContext) (w : W) → Counts (try_step fl t h ctx w).0
    unfolding try_step
    try_step-Counts ctx w = grind (arith, c.by_step)

    recover-Counts : (e : Exn) (ctx : LoopContext) (w : W) → Counts (recover fl t h e ctx w).0
    unfolding recover
    recover-Counts e ctx w = elim (Option-cases h.on_error) [
      | inl unmapped ↦ ground arith
      | inr (f, mapped) ↦ ground (arith, c.by_on_error f e ctx w mapped)
    ]

    attempt-Counts : (ctx : LoopContext) (w : W) → Counts (attempt fl t h ctx w).0
    unfolding attempt
    attempt-Counts ctx w = grind (arith, try_step-Counts, recover-Counts)

    stepped_counts :
        (s : LoopState Float) (w : W)
        → Holds (λ out. (out.0).counted ≡ s.counted + 1) (stepped fl t h s w).0
    unfolding stepped
    stepped_counts s w = grind (arith, attempt-Counts, apply_fields)

    no_directive : (ctx : LoopContext) (w : W) → ask_control fl t h ctx w ≡ (ok none, w)
    unfolding ask_control
    no_directive ctx w = ground (arith, c.no_control)

    iterate_counts :
        (s : LoopState Float) (w : W)
        → Holds (λ out. (out.0).counted ≡ s.counted + 1) (iterate fl t h s w).0
    unfolding iterate
    iterate_counts s w = rw no_directive (stepped_counts s w)

    proceed_ends :
        (m : ℕ) (r : Result (LoopState Float × Bool)) (w : W)
        (rest : LoopState Float → W → Option (Result (LoopState Float) × W))
        → Holds (λ out. (out.0).counted ≡ m) r
        → ((s : LoopState Float) (v : W) → s.counted ≡ m → rest s v ≢ none)
        → proceed fl t h r w rest ≢ none
    proceed_ends m (raised e) w rest p k = λ eq. cc
    proceed_ends m (ok (s, true)) w rest p k = λ eq. cc
    proceed_ends m (ok (s, false)) w rest p k = k s w p

    next_le :
        (m : ℕ) (s s' : LoopState Float) (b : Bool)
        → (b && below (some (pos m)) s.counted) ≡ true
        → s'.counted ≡ s.counted + 1
        → s'.counted ≤ m
    next_le m s s' b more e = ground arith

    loop_ends :
        (fuel m : ℕ) (s : LoopState Float) (w : W)
        → s.counted ≤ m
        → m < fuel + s.counted
        → loop fl t h fuel (some (pos m)) s w ≢ none
    unfolding loop
    loop_ends zero m s w le lt = absurd (omega arith)
    loop_ends (suc fuel) m s w le lt =
        elim (Bool-cases (not (t.stop_is_set w) && below (some (pos m)) s.counted)) [
          | inl more ↦
              let (r, w') = iterate fl t h s w in
              rw (more, loop)
                (proceed_ends (s.counted + 1) r w' (loop fl t h fuel (some (pos m)))
                  (iterate_counts s w)
                  (λ s' v e. loop_ends fuel m s' v (next_le m s s' _ more e) (omega arith)))
          | inr done ↦ rw (done, loop) (λ eq. cc)
        ]

    finish_ends :
        (body : Option (Result (LoopState Float) × W)) → body ≢ none → finish fl t h body ≢ none
    finish_ends none h' = absurd (h' refl)
    finish_ends (some (ok s, w)) h' = λ eq. cc
    finish_ends (some (raised e, w)) h' = λ eq. cc

    -- With no control hook and only counted directives, a run bounded by `max_counted` = m ends: it has
    -- a result within m + 1 rounds.
    pub run_ends : (m : ℕ) (w : W) → run fl t h (suc m) (some (pos m)) w ≢ none
    unfolding run
    run_ends m w =
        let fine : negative fl t h (some (pos m)) ≡ false = ground arith in
        let ends =
          finish_ends _
            (loop_ends (suc m) m start (t.set_lock true w) (omega arith) (omega arith)) in
        elim (Bool-cases (t.lock_held w)) [
          | inl held ↦ rw (fine, held) (λ eq. cc)
          | inr free ↦ rw (fine, free) ends
        ]
