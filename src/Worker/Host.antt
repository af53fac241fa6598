-- ===== src/Worker/Host.antt =====
-- worker.py: `WorkerHost.run`. The local variables of `run` outlive an exception (the handler and the
-- `finally` read them), so they stand beside the world in the state that an action passes on.
use datasource_kit.Prelude.{
  ℕ, zero, suc, ◌+◌, Bool, true, false, ◌&&◌, not, Option, none, some, String, if◌then◌else◌,
}
use datasource_kit.Prelude.Int.{ℤ, pos, ltb_ℤ, leb_ℤ}
use datasource_kit.Prelude.Floats.{Floats}
use datasource_kit.Effect.{
  Exn, type_error, value_error, runtime_error, Result, ok, raised, Action, pure, raise, lift,
  is_exception, swallow, ◌>>=◌, ◌>>◌,
}
use datasource_kit.Threads.{Threads, Sleeper, event_wait, injected}
use datasource_kit.Worker.Backoff.{BackoffPolicy, delay}
use datasource_kit.Worker.Intent.{
  WorkDirective, SourceOutput, Planned, OutputReply, Intent, CheckpointStore, WorkerHeartbeat,
  WorkerRun,
}

-- the attributes that `__init__` stores; `now` gives the formatted timestamp
pub record Host (F O W : Type 0) : Type 0 where
  pub intent : Intent O W
  pub checkpoints : CheckpointStore O W
  pub backoff : BackoffPolicy F
  pub heartbeat : Option (WorkerHeartbeat F O → Action W Unit)
  pub sleep : Sleeper F W
  pub now : Action W String

-- the world and the local variables of `run`
pub record Run (O W : Type 0) : Type 0 where
  pub world : W
  pub checkpoint : Option O
  pub completed : ℕ
  pub failures : ℕ
  pub consecutive : ℕ
  pub iterations : ℕ

-- how a pass through the loop's body ends
pub data Flow : Type 0 where
  next break : Flow

-- `legacy_checkpoint`; `missing` is `_MISSING`
pub data Legacy (O : Type 0) : Type 0 where
  missing : Legacy O
  carried : Option O → Legacy O

abbrev pub begin : {O W : Type 0} → W → Run O W
begin w = record {
  world = w;
  checkpoint = none;
  completed = 0;
  failures = 0;
  consecutive = 0;
  iterations = 0;
}

-- What the loop's body does with a plan.
pub data Decision (O : Type 0) : Type 0 where
  idle stop : Decision O
  work : O → Legacy O → Decision O

-- a call that touches the world and no local variable
abbrev pub lift_world : {O W A : Type 0} → Action W A → Action (Run O W) A
lift_world m s = let (r, w) = m s.world in (r, record s { world = w })

abbrev pub update : {O W : Type 0} → (Run O W → Run O W) → Action (Run O W) (Unit {0})
update f s = (ok tt, f s)

-- the tests on `decision.directive`
abbrev pub decide : {O : Type 0} → Option WorkDirective → O → Legacy O → Result (Decision O)
decide none plan legacy = raised type_error
decide (some WorkDirective.continue) plan legacy = ok (work plan legacy)
decide (some WorkDirective.idle) plan legacy = ok idle
decide (some WorkDirective.stop) plan legacy = ok stop

-- the tests on what `intent.plan` handed back
abbrev pub interpret : {O : Type 0} → Planned O → Result (Decision O)
interpret Planned.nothing = ok idle
interpret (Planned.legacy step) =
    decide (some WorkDirective.continue) step.plan (carried step.checkpoint)
interpret (Planned.decision d) = decide d.directive d.work missing
interpret Planned.other = raised type_error

abbrev require_directive :
    {O : Type 0} → SourceOutput O → Option WorkDirective → Result (SourceOutput O × WorkDirective)
require_directive o none = raised type_error
require_directive o (some d) = ok (o, d)

-- the three tests on what `intent.output` handed back
abbrev pub require_output : {O : Type 0} → OutputReply O → Result (SourceOutput O × WorkDirective)
require_output OutputReply.other = raised type_error
require_output (OutputReply.output o) =
    if o.has_mapping then require_directive o o.directive else raised type_error

-- the checkpoint that an old step carries
abbrev pub carried_checkpoint : {O : Type 0} → Legacy O → Result (Option O)
carried_checkpoint missing = raised type_error
carried_checkpoint (carried c) = ok c

-- `max_iterations is None or iterations < max_iterations`
abbrev pub below : Option ℤ → ℕ → Bool
below none iterations = true
below (some most) iterations = ltb_ℤ (pos iterations) most

-- `limit is not None and consecutive >= limit`
abbrev pub exhausted : Option ℤ → ℕ → Bool
exhausted none consecutive = false
exhausted (some limit) consecutive = leb_ℤ limit (pos consecutive)

abbrev pub negative : Option ℤ → Bool
negative none = false
negative (some most) = ltb_ℤ most (pos 0)

module _ (fl : Floats) where
  open fl use {Float}

  module _ {O W : Type 0} (t : Threads W) (h : Host Float O W) where
    abbrev heartbeat_of :
        String → Option Exn → Option Float → String → Run O W → WorkerHeartbeat Float O
    heartbeat_of event error retry_in stamp s = record {
      state = event;
      timestamp = stamp;
      checkpoint = s.checkpoint;
      completed = s.completed;
      failures = s.failures;
      consecutive_failures = s.consecutive;
      error = error;
      retry_in = retry_in;
    }

    -- `try: self.heartbeat(event) except Exception: pass`
    unfoldable pub beat :
        (WorkerHeartbeat Float O → Action W Unit) → WorkerHeartbeat Float O → Action W (Unit {0})
    beat f event w = let (r, w') = f event w in swallow r w'

    -- `_emit`: the clock is read outside the `try`
    unfoldable pub emit : String → Option Exn → Option Float → Action (Run O W) (Unit {0})
    unfolding beat
    emit event error retry_in = elim h.heartbeat [
      | none ↦ pure tt
      | some f ↦ λ s.
          (do
            stamp ← lift_world h.now
            lift_world (beat f (heartbeat_of event error retry_in stamp s)))
            s
    ]

    -- `_wait`
    unfoldable pub wait_for : Float → Action W (Unit {0})
    wait_for seconds w = elim h.sleep [
      | event_wait f ↦ f seconds w
      | injected f ↦ if t.stop_is_set w then (ok tt, w) else f seconds w
    ]

    -- persist, and the next checkpoint, through `output` or through the older protocol
    next_by_method : O → O → Legacy O → Action W (Option O)
    next_by_method transformed plan legacy = elim h.intent.checkpoint [
      | some f ↦ f transformed plan
      | none ↦ lift (carried_checkpoint legacy)
    ]

    unfoldable pub persist_step : O → O → Legacy O → Action W (Option O × WorkDirective)
    unfolding next_by_method
    persist_step transformed plan legacy = elim h.intent.output [
      | some f ↦ do
        reply ← f transformed plan
        accepted ← lift (require_output reply)
        h.intent.persist (accepted.0).result plan
        pure ((accepted.0).checkpoint, accepted.1)
      | none ↦ do
        h.intent.persist transformed plan
        following ← next_by_method transformed plan legacy
        pure (following, WorkDirective.continue)
    ]

    -- fetch, transform, persist: everything before the checkpoint is saved
    unfoldable pub source_step : O → Legacy O → Action W (Option O × WorkDirective)
    unfolding persist_step
    source_step plan legacy = do
      payload ← h.intent.fetch plan
      transformed ← h.intent.transform payload plan
      persist_step transformed plan legacy

    -- `emit idle` and the idle wait
    unfoldable pub idle_round : Action (Run O W) Flow
    idle_round = do emit "idle" none none; lift_world (wait_for h.backoff.idle_seconds); pure next

    -- what the directive of an output asks for, after its checkpoint is stored
    unfoldable pub follow : WorkDirective → Action (Run O W) Flow
    follow WorkDirective.stop = pure break
    follow WorkDirective.idle = idle_round
    follow WorkDirective.continue = pure next

    -- the variables once the checkpoint is stored
    abbrev pub stored : Option O → Run O W → Run O W
    stored checkpoint s = record s {
      checkpoint = checkpoint;
      completed = s.completed + 1;
      consecutive = 0;
    }

    unfoldable pub announce : Option O → WorkDirective → Action (Run O W) Flow
    announce checkpoint directive = do
      update (stored checkpoint)
      emit "checkpointed" none none
      follow directive

    unfoldable pub store_round : Option O × WorkDirective → Action (Run O W) Flow
    store_round outcome = do lift_world (h.checkpoints.save outcome.0); announce outcome.0 outcome.1

    unfoldable pub work_round : O → Legacy O → Action (Run O W) Flow
    work_round plan legacy = do
      emit "working" none none
      outcome ← lift_world (source_step plan legacy)
      store_round outcome

    abbrev pub reset_consecutive : Run O W → Run O W
    reset_consecutive s = record s { consecutive = 0 }

    unfoldable pub perform : Decision O → Action (Run O W) Flow
    perform stop = do update reset_consecutive; pure break
    perform idle = do update reset_consecutive; idle_round
    perform (work plan legacy) = work_round plan legacy

    -- the body of the `try`
    unfoldable pub body : Action (Run O W) Flow
    body s =
        (do
          planned ← lift_world (h.intent.plan s.checkpoint)
          decision ← lift (interpret planned)
          perform decision)
          s

    -- `except Exception as exc`
    unfoldable pub back_off : Exn → Action (Run O W) Flow
    back_off e s =
        let s' = record s { failures = s.failures + 1; consecutive = s.consecutive + 1 } in
        if exhausted h.backoff.max_consecutive_failures s'.consecutive
        then (emit "failed" (some e) none >> raise e) s'
        else (do
          d ← lift (delay fl h.backoff s'.consecutive)
          emit "backoff" (some e) (some d)
          lift_world (wait_for d)
          pure next)
            s'

    abbrev pub handle : Result Flow → Action (Run O W) Flow
    handle (ok flow) = pure flow
    handle (raised e) = if is_exception e then back_off e else raise e

    -- one round of the `while`
    unfoldable pub iterate : Action (Run O W) Flow
    iterate s = let (r, s') = body (record s { iterations = s.iterations + 1 }) in handle r s'

    -- after a round: propagate an exception, break, or go on; the variables stay readable
    abbrev pub proceed :
        Result Flow
        → Run O W
        → (Run O W → Option (Result (Unit {0}) × Run O W))
        → Option (Result (Unit {0}) × Run O W)
    proceed (raised e) s rest = some (raised e, s)
    proceed (ok break) s rest = some (ok tt, s)
    proceed (ok next) s rest = rest s

    -- the `while` on fuel; `none` is a loop that has not ended yet
    unfoldable pub loop : ℕ → Option ℤ → Run O W → Option (Result (Unit {0}) × Run O W)
    loop zero most s = none
    loop (suc fuel) most s = elim (not (t.stop_is_set s.world) && below most s.iterations) [
      | false ↦ some (ok tt, s)
      | true ↦ let (r, s') = iterate s in proceed r s' (loop fuel most)
    ]

    abbrev pub summary : Run O W → WorkerRun O
    summary s = record {
      checkpoint = s.checkpoint;
      completed = s.completed;
      failures = s.failures;
      iterations = s.iterations;
    }

    -- `finally`: an exception of the last heartbeat replaces the outcome and skips the release
    abbrev pub released : Result (Unit {0}) → Result (Unit {0}) → Run O W → Result (WorkerRun O) × W
    released r (raised x) s = (raised x, s.world)
    released (raised e) (ok _) s = (raised e, t.set_lock false s.world)
    released (ok _) (ok _) s = (ok (summary s), t.set_lock false s.world)

    unfoldable pub finish : Option (Result (Unit {0}) × Run O W) → Option (Result (WorkerRun O) × W)
    finish none = none
    finish (some (r, s)) = let (x, s') = emit "stopped" none none s in some (released r x s')

    unfoldable pub started : Option O → Action (Run O W) (Unit {0})
    started loaded = do update (λ s. record s { checkpoint = loaded }); emit "starting" none none

    -- the `try`: load, announce, loop
    unfoldable pub opening : Action (Run O W) (Unit {0})
    opening = do loaded ← lift_world h.checkpoints.load; started loaded

    -- the loop runs once the opening is through
    abbrev pub after_opening :
        Result (Unit {0})
        → Run O W
        → (Run O W → Option (Result (Unit {0}) × Run O W))
        → Option (Result (Unit {0}) × Run O W)
    after_opening (raised e) s rest = some (raised e, s)
    after_opening (ok _) s rest = rest s

    unfoldable pub main : ℕ → Option ℤ → Run O W → Option (Result (Unit {0}) × Run O W)
    main fuel most s = let (r, s') = opening s in after_opening r s' (loop fuel most)

    unfoldable pub run : ℕ → Option ℤ → W → Option (Result (WorkerRun O) × W)
    run fuel most w =
        let ended = finish (main fuel most (begin (t.set_lock true w))) in
        if negative most
        then some (raised value_error, w)
        else if t.lock_held w
        then some (raised runtime_error, w)
        else ended
