-- ===== src/Worker/Progress.antt =====
-- `WorkerHost.run`: its counters, the limit on consecutive failures, and its end.
use datasource_kit.Prelude.{◌+◌, ◌≤◌, ◌≡◌, false, Option, none, String, arith, Bool-cases, inl, inr}
use datasource_kit.Prelude.Floats.{Floats}
use datasource_kit.Effect.{Exn, Result, ok, raised, Holds, is_exception}
use datasource_kit.Threads.{Threads}
use datasource_kit.Worker.Intent.{WorkDirective}
use datasource_kit.Worker.Host.{
  Host, Run, Flow, Decision, Legacy, exhausted, emit, idle_round, follow, store_round, announce,
  work_round, perform, body, back_off, handle, iterate,
}

module _ (fl : Floats) where
  open fl use {Float}

  module _ {O W : Type 0} (t : Threads W) (h : Host Float O W) where
    -- What the body of the `try` may do to the counters, whether it returns or raises.
    pub record Advances (s s' : Run O W) : Type 0 where
      pub completed_grows : s.completed ≤ s'.completed
      pub completed_by_one : s'.completed ≤ s.completed + 1
      pub failures_kept : s'.failures ≡ s.failures
      pub consecutive_falls : s'.consecutive ≤ s.consecutive
      pub iterations_kept : s'.iterations ≡ s.iterations

    -- Only the world changes.
    pub record SameLocals (s s' : Run O W) : Type 0 where
      pub checkpoint : s'.checkpoint ≡ s.checkpoint
      pub completed : s'.completed ≡ s.completed
      pub failures : s'.failures ≡ s.failures
      pub consecutive : s'.consecutive ≡ s.consecutive
      pub iterations : s'.iterations ≡ s.iterations

    pub emit-SameLocals :
        (event : String) (e : Option Exn) (d : Option Float) (s : Run O W)
        → SameLocals s (emit fl t h event e d s).1
    unfolding emit
    emit-SameLocals event e d s = ground arith

    pub idle_round-SameLocals : (s : Run O W) → SameLocals s (idle_round fl t h s).1
    unfolding idle_round
    idle_round-SameLocals s = ground (arith, emit-SameLocals "idle" none none s)

    follow-SameLocals : (d : WorkDirective) (s : Run O W) → SameLocals s (follow fl t h d s).1
    unfolding follow
    follow-SameLocals WorkDirective.stop s = ground arith
    follow-SameLocals WorkDirective.idle s = idle_round-SameLocals s
    follow-SameLocals WorkDirective.continue s = ground arith

    store_round-Advances :
        (outcome : Option O × WorkDirective) (s : Run O W)
        → Advances s (store_round fl t h outcome s).1
    unfolding store_round announce
    store_round-Advances outcome s = grind (arith, emit-SameLocals, follow-SameLocals)

    work_round-Advances :
        (plan : O) (legacy : Legacy O) (s : Run O W)
        → Advances s (work_round fl t h plan legacy s).1
    unfolding work_round
    work_round-Advances plan legacy s = grind (arith, emit-SameLocals, store_round-Advances)

    perform-Advances : (d : Decision O) (s : Run O W) → Advances s (perform fl t h d s).1
    unfolding perform
    perform-Advances Decision.stop s = ground arith
    perform-Advances Decision.idle s = grind (arith, idle_round-SameLocals)
    perform-Advances (Decision.work plan legacy) s = work_round-Advances plan legacy s

    body-Advances : (s : Run O W) → Advances s (body fl t h s).1
    unfolding body
    body-Advances s = grind (arith, perform-Advances)

    -- What the handler does to the counters.
    pub record BacksOff (s : Run O W) (r : Result Flow) (s' : Run O W) : Type 0 where
      pub checkpoint : s'.checkpoint ≡ s.checkpoint
      pub completed : s'.completed ≡ s.completed
      failures : s'.failures ≡ s.failures + 1
      consecutive : s'.consecutive ≡ s.consecutive + 1
      iterations : s'.iterations ≡ s.iterations
      tolerated :
          Holds (λ flow. exhausted h.backoff.max_consecutive_failures s'.consecutive ≡ false) r

    pub back_off-BacksOff :
        (e : Exn) (s : Run O W) → BacksOff s (back_off fl t h e s).0 (back_off fl t h e s).1
    unfolding back_off
    back_off-BacksOff e s = grind (arith, emit-SameLocals)

    abbrev Tolerable : Run O W → Type 0
    Tolerable s = exhausted h.backoff.max_consecutive_failures s.consecutive ≡ false

    -- What one round does to the counters: `iterations` always grows by one.
    pub record IsRound (s : Run O W) (r : Result Flow) (s' : Run O W) : Type 0 where
      pub iterations_by_one : s'.iterations ≡ s.iterations + 1
      pub completed_grows : s.completed ≤ s'.completed
      pub completed_by_one : s'.completed ≤ s.completed + 1
      pub failures_by_one : s'.failures ≤ s.failures + 1
      pub consecutive_with_failures : s'.consecutive + s.failures ≤ s.consecutive + s'.failures
      pub tolerated : Tolerable s → Holds (λ flow. Tolerable s') r

    fewer-Tolerable : (s s' : Run O W) → s'.consecutive ≤ s.consecutive → Tolerable s → Tolerable s'
    fewer-Tolerable s s' le h' = ground arith

    handle-IsRound :
        (s s' : Run O W) (r : Result Flow)
        → Advances (record s { iterations = s.iterations + 1 }) s'
        → IsRound s (handle fl t h r s').0 (handle fl t h r s').1
    handle-IsRound s s' (ok flow) a = record {
      iterations_by_one = omega arith;
      completed_grows = a.completed_grows;
      completed_by_one = a.completed_by_one;
      failures_by_one = omega arith;
      consecutive_with_failures = omega arith;
      tolerated = fewer-Tolerable s s' a.consecutive_falls;
    }
    handle-IsRound s s' (raised e) a = elim (Bool-cases (is_exception e)) [
      | inl caught ↦
          let b = back_off-BacksOff e s' in
          rw caught (record {
            iterations_by_one = omega arith;
            completed_grows = omega arith;
            completed_by_one = omega arith;
            failures_by_one = omega arith;
            consecutive_with_failures = omega arith;
            tolerated = λ _. b.tolerated;
          })
      | inr passed ↦ rw passed (record {
        iterations_by_one = omega arith;
        completed_grows = omega arith;
        completed_by_one = omega arith;
        failures_by_one = omega arith;
        consecutive_with_failures = omega arith;
        tolerated = λ _. tt;
      })
    ]

    pub iterate-IsRound : (s : Run O W) → IsRound s (iterate fl t h s).0 (iterate fl t h s).1
    unfolding iterate
    iterate-IsRound s =
        let begun = record s { iterations = s.iterations + 1 } in
        let (r, s') = body fl t h begun in handle-IsRound s s' r (body-Advances begun)
