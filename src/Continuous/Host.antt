-- ===== src/Continuous/Host.antt =====
-- continuous.py: `ContinuousWorkerHost` and its `run`. Each method is an action on the world `W`.
use datasource_kit.Prelude.{
  ℕ, zero, suc, ◌+◌, Bool, true, false, ◌||◌, ◌&&◌, not, Option, none, some, String, if◌then◌else◌,
}
use datasource_kit.Prelude.Int.{ℤ, pos, ltb_ℤ, leb_ℤ}
use datasource_kit.Prelude.Floats.{Floats}
use datasource_kit.Effect.{
  Exn, type_error, value_error, runtime_error, Result, ok, raised, Action, pure, raise, lift,
  swallow, catch_any, ◌>>=◌, ◌>>◌,
}
use datasource_kit.Threads.{Threads, Sleeper, event_wait, injected}
use datasource_kit.Continuous.Directive.{
  LoopDirective, LoopContext, LoopRun, Returned, directive, nothing, other, is_rotate, is_wait,
  is_stop,
}

-- the attributes that `__init__` stores
pub record Host (F W : Type 0) : Type 0 where
  pub step : LoopContext → Action W (Returned F)
  pub control : Option (LoopContext → Action W (Returned F))
  pub rotate : Option (LoopContext → String → Action W Unit)
  pub on_error : Option (Exn → LoopContext → Action W (Returned F))
  pub observe : Option (String → LoopContext → Option (LoopDirective F) → Action W Unit)
  pub sleep : Sleeper F W
  pub rotation_attempts : Option ℤ

-- `rotation_attempts is not None and rotation_attempts < 1`
abbrev pub bad_rotation : Option ℤ → Bool
bad_rotation none = false
bad_rotation (some r) = ltb_ℤ r (pos 1)

-- `ContinuousWorkerHost(...)`
unfoldable pub make_host : {F W : Type 0} → Host F W → Result (Host F W)
make_host h = if bad_rotation h.rotation_attempts then raised value_error else ok h

-- the local variables of `run`
pub record LoopState (F : Type 0) : Type 0 where
  pub sequence : ℕ
  pub counted : ℕ
  pub attempts : ℕ
  pub repeated_wait : Bool
  pub last : Option (LoopDirective F)

-- the tuple that `_apply` returns
pub record Applied : Type 0 where
  pub counted : ℕ
  pub attempts : ℕ
  pub repeated_wait : Bool
  pub should_stop : Bool

abbrev pub start : {F : Type 0} → LoopState F
start = record { sequence = 0; counted = 0; attempts = 0; repeated_wait = false; last = none }

abbrev pub context : {F : Type 0} → LoopState F → LoopContext
context s = record {
  sequence = s.sequence;
  counted = s.counted;
  attempts_in_boundary = s.attempts;
  repeated_wait = s.repeated_wait;
}

-- `_require_directive`
abbrev pub require_directive : {F : Type 0} → Returned F → Result (LoopDirective F)
require_directive (directive d) = ok d
require_directive nothing = raised type_error
require_directive other = raised type_error

-- `max_counted is None or counted < max_counted`
abbrev pub below : Option ℤ → ℕ → Bool
below none counted = true
below (some most) counted = ltb_ℤ (pos counted) most

-- `rotation_attempts is not None and attempts >= rotation_attempts`
abbrev pub rotation_due : Option ℤ → ℕ → Bool
rotation_due none attempts = false
rotation_due (some r) attempts = leb_ℤ r (pos attempts)

module _ (fl : Floats) where
  open fl use {Float, f_zero}

  module _ {W : Type 0} (t : Threads W) (h : Host Float W) where
    -- `_observe`
    unfoldable pub emit : String → LoopContext → Option (LoopDirective Float) → Action W Unit
    emit event ctx d = elim h.observe [
      | none ↦ pure tt
      | some f ↦ λ w. let (r, w') = f event ctx d w in swallow r w'
    ]

    -- `_rotate`
    unfoldable pub rotate_boundary : LoopContext → String → Action W Unit
    unfolding emit
    rotate_boundary ctx reason =
        let call : Action W Unit = elim h.rotate [ none ↦ pure tt | some f ↦ f ctx reason ] in
        call >> emit "rotate" ctx none

    -- `_wait`
    unfoldable pub wait_for : Float → Action W Unit
    wait_for seconds w = elim h.sleep [
      | event_wait f ↦ f seconds w
      | injected f ↦ if t.stop_is_set w then (ok tt, w) else f seconds w
    ]

    abbrev delay_or_zero : Option Float → Float
    delay_or_zero none = f_zero
    delay_or_zero (some d) = d

    -- the tail of `_apply`, once the boundary is settled
    unfoldable pub settle : LoopDirective Float → ℕ → ℕ → Bool → Action W Applied
    unfolding wait_for
    settle d counted attempts from_error =
        let applied : Bool → Applied = λ b. record {
          counted = counted;
          attempts = attempts;
          repeated_wait = from_error || is_wait d.action;
          should_stop = b;
        } in
        if is_stop d.action
        then pure (applied true)
        else if is_wait d.action
        then (wait_for (delay_or_zero d.delay) >> pure (applied false))
        else pure (applied false)

    -- `_apply`
    unfoldable pub apply : LoopDirective Float → LoopContext → ℕ → ℕ → Bool → Action W Applied
    apply d ctx counted attempts from_error =
        let counted' = if d.counted then counted + 1 else counted in
        if is_rotate d.boundary
        then (rotate_boundary ctx d.reason >> settle d counted' 0 from_error)
        else settle d counted' attempts from_error

    -- the call of `control`, if there is one; `none` when the loop goes on to a step
    control_reply : Returned Float → Action W (Option (LoopDirective Float))
    control_reply nothing = pure none
    control_reply (directive d) = pure (some d)
    control_reply other = raise type_error

    unfoldable pub ask_control : LoopContext → Action W (Option (LoopDirective Float))
    unfolding control_reply
    ask_control ctx = elim h.control [ none ↦ pure none | some f ↦ f ctx >>= control_reply ]

    -- the body of the `try` around the step
    unfoldable pub try_step : LoopContext → Action W (LoopDirective Float × Bool)
    unfolding emit
    try_step ctx = do
      r ← h.step ctx
      d ← lift (require_directive r)
      emit "step" ctx (some d)
      pure (d, false)

    -- `except BaseException as exc`
    unfoldable pub recover : Exn → LoopContext → Action W (LoopDirective Float × Bool)
    unfolding emit
    recover e ctx = elim h.on_error [
      | none ↦ raise e
      | some f ↦ do
        r ← f e ctx
        d ← lift (require_directive r)
        emit "error" ctx (some d)
        pure (d, true)
    ]

    unfoldable pub attempt : LoopContext → Action W (LoopDirective Float × Bool)
    attempt ctx = catch_any (try_step ctx) (λ e. recover e ctx)

    -- the periodic rotation: the attempts that are left in the boundary
    unfoldable pub periodic : LoopState Float → Action W ℕ
    periodic s =
        if rotation_due h.rotation_attempts s.attempts
        then (rotate_boundary (context s) "attempt-limit" >> pure 0)
        else pure s.attempts

    abbrev pub after : LoopState Float → LoopDirective Float → Applied → LoopState Float × Bool
    after s d a = (
      record s {
        counted = a.counted;
        attempts = a.attempts;
        repeated_wait = a.repeated_wait;
        last = some d;
      },
      a.should_stop,
    )

    -- an iteration that ends at the control hook, and one that makes a step
    unfoldable pub controlled :
        LoopDirective Float → LoopState Float → Action W (LoopState Float × Bool)
    controlled d s = do
      emit "control" (context s) (some d)
      a ← apply d (context s) s.counted s.attempts false
      pure (after s d a)

    unfoldable pub stepped : LoopState Float → Action W (LoopState Float × Bool)
    stepped s = do
      attempts ← periodic s
      let begun = record s { sequence = s.sequence + 1; attempts = attempts + 1 }
      outcome ← attempt (context begun)
      a ← apply outcome.0 (context begun) begun.counted begun.attempts outcome.1
      pure (after begun outcome.0 a)

    -- `if directive is not None: ... continue`
    abbrev pub after_control :
        Option (LoopDirective Float) → LoopState Float → Action W (LoopState Float × Bool)
    after_control (some d) s = controlled d s
    after_control none s = stepped s

    -- one round of the `while`: the new variables, and whether it breaks
    unfoldable pub iterate : LoopState Float → Action W (LoopState Float × Bool)
    iterate s = do asked ← ask_control (context s); after_control asked s

    -- after a round: propagate an exception, break, or go on
    abbrev pub proceed :
        Result (LoopState Float × Bool)
        → W
        → (LoopState Float → W → Option (Result (LoopState Float) × W))
        → Option (Result (LoopState Float) × W)
    proceed (raised e) w rest = some (raised e, w)
    proceed (ok (s, true)) w rest = some (ok s, w)
    proceed (ok (s, false)) w rest = rest s w

    -- the `while` on fuel; `none` is a loop that has not ended yet
    unfoldable pub loop : ℕ → Option ℤ → LoopState Float → W → Option (Result (LoopState Float) × W)
    loop zero most s w = none
    loop (suc fuel) most s w = elim (not (t.stop_is_set w) && below most s.counted) [
      | false ↦ some (ok s, w)
      | true ↦ let (r, w') = iterate s w in proceed r w' (loop fuel most)
    ]

    -- what follows the loop inside the `try`
    unfoldable pub report : LoopState Float → Action W (LoopRun Float)
    unfolding emit
    report s = do
      emit "stopped" (context s) s.last
      pure (record {
        sequence = s.sequence;
        counted = s.counted;
        attempts_in_boundary = s.attempts;
        last_directive = s.last;
      })

    -- `finally: self._run_lock.release()`
    abbrev pub release : Result (LoopRun Float) × W → Result (LoopRun Float) × W
    release (r, w) = (r, t.set_lock false w)

    abbrev pub finish : Option (Result (LoopState Float) × W) → Option (Result (LoopRun Float) × W)
    finish none = none
    finish (some (ok s, w)) = some (release (report s w))
    finish (some (raised e, w)) = some (release (raised e, w))

    abbrev pub negative : Option ℤ → Bool
    negative none = false
    negative (some most) = ltb_ℤ most (pos 0)

    unfoldable pub run : ℕ → Option ℤ → W → Option (Result (LoopRun Float) × W)
    run fuel most w =
        let body = loop fuel most start (t.set_lock true w) in
        if negative most
        then some (raised value_error, w)
        else if t.lock_held w
        then some (raised runtime_error, w)
        else finish body
