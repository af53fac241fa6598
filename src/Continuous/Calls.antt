-- ===== src/Continuous/Calls.antt =====
-- `ContinuousWorkerHost.run` counts the calls of the consumer's step: any count that only the step
-- moves, and moves by one, grows by exactly the sequence that is reported.
use datasource_kit.Prelude.{ℕ, ◌+◌, ◌≡◌, ◌∙◌, Bool, Option, none, some, String, arith}
use datasource_kit.Prelude.Floats.{Floats}
use datasource_kit.Effect.{Exn, Result, ok, raised, Action, lift, ◌>>=◌}
use datasource_kit.Threads.{Threads, event_wait, injected}
use datasource_kit.Continuous.Directive.{LoopDirective, LoopContext, Returned}
use datasource_kit.Continuous.Host.{
  Host, LoopState, emit, rotate_boundary, wait_for, settle, apply, ask_control, recover, try_step,
  attempt, context, periodic, controlled, stepped, after_control, iterate, report,
}
use datasource_kit.Continuous.Loop.{RoundEnds}

module _ (fl : Floats) where
  open fl use {Float}

  -- `calls` is moved by the step alone.
  pub record CountsSteps {W : Type 0} (h : Host Float W) (calls : W → ℕ) : Type 0 where
    pub by_step : (ctx : LoopContext) (w : W) → calls (h.step ctx w).1 ≡ calls w + 1
    pub by_control :
        (f : LoopContext → Action W (Returned Float)) (ctx : LoopContext) (w : W)
        → h.control ≡ some f
        → calls (f ctx w).1 ≡ calls w
    pub by_rotate :
        (f : LoopContext → String → Action W Unit) (ctx : LoopContext) (reason : String) (w : W)
        → h.rotate ≡ some f
        → calls (f ctx reason w).1 ≡ calls w
    pub by_on_error :
        (f : Exn → LoopContext → Action W (Returned Float)) (e : Exn) (ctx : LoopContext) (w : W)
        → h.on_error ≡ some f
        → calls (f e ctx w).1 ≡ calls w
    pub by_observe :
        (f : String → LoopContext → Option (LoopDirective Float) → Action W Unit) (event : String)
        (ctx : LoopContext) (d : Option (LoopDirective Float)) (w : W)
        → h.observe ≡ some f
        → calls (f event ctx d w).1 ≡ calls w
    pub by_event_wait :
        (f : Float → Action W Unit) (x : Float) (w : W)
        → h.sleep ≡ event_wait f
        → calls (f x w).1 ≡ calls w
    pub by_sleep :
        (f : Float → Action W Unit) (x : Float) (w : W)
        → h.sleep ≡ injected f
        → calls (f x w).1 ≡ calls w

  module _ {W : Type 0} (t : Threads W) (h : Host Float W) (calls : W → ℕ)
      (c : CountsSteps h calls) where
    emit-calls :
        (event : String) (ctx : LoopContext) (d : Option (LoopDirective Float)) (w : W)
        → calls (emit fl t h event ctx d w).1 ≡ calls w
    unfolding emit
    emit-calls event ctx d w = grind (arith, c.by_observe)

    rotate_boundary-calls :
        (ctx : LoopContext) (reason : String) (w : W)
        → calls (rotate_boundary fl t h ctx reason w).1 ≡ calls w
    unfolding rotate_boundary
    rotate_boundary-calls ctx reason w = grind (arith, c.by_rotate, emit-calls)

    wait_for-calls : (x : Float) (w : W) → calls (wait_for fl t h x w).1 ≡ calls w
    unfolding wait_for
    wait_for-calls x w = grind (arith, c.by_event_wait, c.by_sleep)

    settle-calls :
        (d : LoopDirective Float) (n m : ℕ) (b : Bool) (w : W)
        → calls (settle fl t h d n m b w).1 ≡ calls w
    unfolding settle
    settle-calls d n m b w = grind (arith, wait_for-calls)

    apply-calls :
        (d : LoopDirective Float) (ctx : LoopContext) (n m : ℕ) (b : Bool) (w : W)
        → calls (apply fl t h d ctx n m b w).1 ≡ calls w
    unfolding apply
    apply-calls d ctx n m b w = grind (arith, rotate_boundary-calls, settle-calls)

    ask_control-calls : (ctx : LoopContext) (w : W) → calls (ask_control fl t h ctx w).1 ≡ calls w
    unfolding ask_control
    ask_control-calls ctx w = grind (arith, c.by_control)

    try_step-calls : (ctx : LoopContext) (w : W) → calls (try_step fl t h ctx w).1 ≡ calls w + 1
    unfolding try_step
    try_step-calls ctx w = grind (arith, c.by_step, emit-calls)

    recover-calls :
        (e : Exn) (ctx : LoopContext) (w : W) → calls (recover fl t h e ctx w).1 ≡ calls w
    unfolding recover
    recover-calls e ctx w = grind (arith, c.by_on_error, emit-calls)

    attempt-calls : (ctx : LoopContext) (w : W) → calls (attempt fl t h ctx w).1 ≡ calls w + 1
    unfolding attempt
    attempt-calls ctx w = grind (arith, try_step-calls, recover-calls)

    periodic-calls : (s : LoopState Float) (w : W) → calls (periodic fl t h s w).1 ≡ calls w
    unfolding periodic
    periodic-calls s w = grind (arith, rotate_boundary-calls)

    -- calls so far, against the sequence
    abbrev Counted : ℕ → LoopState Float → W → Type 0
    Counted base s w = calls w ≡ base + s.sequence

    stepped-Counted :
        (base : ℕ) (s : LoopState Float) (w : W)
        → Counted base s w
        → RoundEnds fl t h (Counted base) (stepped fl t h s w)
    unfolding stepped
    stepped-Counted base s w p = grind (arith, periodic-calls, attempt-calls, apply-calls)

    controlled-Counted :
        (base : ℕ) (d : LoopDirective Float) (s : LoopState Float) (w : W)
        → Counted base s w
        → RoundEnds fl t h (Counted base) (controlled fl t h d s w)
    unfolding controlled
    controlled-Counted base d s w p = grind (arith, emit-calls, apply-calls)

    after_ask :
        (base : ℕ) (s : LoopState Float) (r : Result (Option (LoopDirective Float))) (w : W)
        → Counted base s w
        → RoundEnds fl t h (Counted base) ((lift r >>= (λ asked. after_control fl t h asked s)) w)
    after_ask base s (raised e) w p = tt
    after_ask base s (ok none) w p = stepped-Counted base s w p
    after_ask base s (ok (some d)) w p = controlled-Counted base d s w p

    pub iterate-Counted :
        (base : ℕ) (s : LoopState Float) (w : W)
        → Counted base s w
        → RoundEnds fl t h (Counted base) (iterate fl t h s w)
    unfolding iterate
    iterate-Counted base s w p =
        let (r, w') = ask_control fl t h (context s) w in
        after_ask base s r w' (ask_control-calls (context s) w ∙ p)

    pub report-calls : (s : LoopState Float) (w : W) → calls (report fl t h s w).1 ≡ calls w
    unfolding report
    report-calls s w = grind (arith, emit-calls)
