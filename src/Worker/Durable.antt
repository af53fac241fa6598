-- ===== src/Worker/Durable.antt =====
-- The at-least-once contract of `WorkerHost.run`: a unit's checkpoint is stored only after its persist
-- succeeded, and the checkpoint in memory is the stored one. What is durable is read off the world
-- by a view, and the named conditions say which callback may move it.
use datasource_kit.Prelude.{ℕ, ◌+◌, ◌≤◌, ◌≡◌, sym, ◌∙◌, refl, Option, none, some, String, arith}
use datasource_kit.Prelude.Floats.{Floats}
use datasource_kit.Effect.{Exn, Result, ok, raised, Action, Holds, lift, ◌>>=◌}
use datasource_kit.Threads.{Threads, event_wait, injected}
use datasource_kit.Worker.Intent.{OutputReply, WorkDirective, WorkerHeartbeat}
use datasource_kit.Worker.Host.{
  Host, Run, Decision, Legacy, emit, wait_for, persist_step, source_step, idle_round, follow,
  lift_world, stored, announce, store_round, work_round, perform,
}
use datasource_kit.Worker.Progress.{emit-SameLocals, idle_round-SameLocals}

-- What the stores hold: the stored checkpoint, and how often a save and a persist have succeeded.
pub record View (O : Type 0) : Type 0 where
  pub durable : Option O
  pub saves : ℕ
  pub persists : ℕ

-- `save` is atomic: it stores the checkpoint, or raises and leaves the old one.
abbrev pub Saved : {O : Type 0} → Option O → View O → Result (Unit {0}) → View O → Type 0
Saved c v (ok _) v' = (v'.durable ≡ c) × (v'.saves ≡ v.saves + 1) × (v'.persists ≡ v.persists)
Saved c v (raised e) v' = v' ≡ v

-- `persist` counts once it returns.
abbrev pub Persisted : {O : Type 0} → View O → Result (Unit {0}) → View O → Type 0
Persisted v (ok _) v' =
    (v'.durable ≡ v.durable) × (v'.saves ≡ v.saves) × (v'.persists ≡ v.persists + 1)
Persisted v (raised e) v' = v' ≡ v

module _ (fl : Floats) where
  open fl use {Float}

  -- Only `save` moves the stored checkpoint, and only `persist` the persisted units.
  pub record Stores {O W : Type 0} (h : Host Float O W) (view : W → View O) : Type 0 where
    pub by_load : (w : W) → view (h.checkpoints.load w).1 ≡ view w
    pub loads : (w : W) → Holds (λ c. c ≡ (view w).durable) (h.checkpoints.load w).0
    pub by_save :
        (c : Option O) (w : W)
        → Saved c (view w) (h.checkpoints.save c w).0 (view (h.checkpoints.save c w).1)
    pub by_persist :
        (x p : O) (w : W)
        → Persisted (view w) (h.intent.persist x p w).0 (view (h.intent.persist x p w).1)
    pub by_plan : (c : Option O) (w : W) → view (h.intent.plan c w).1 ≡ view w
    pub by_fetch : (p : O) (w : W) → view (h.intent.fetch p w).1 ≡ view w
    pub by_transform : (x p : O) (w : W) → view (h.intent.transform x p w).1 ≡ view w
    pub by_output :
        (f : O → O → Action W (OutputReply O)) (x p : O) (w : W)
        → h.intent.output ≡ some f
        → view (f x p w).1 ≡ view w
    pub by_checkpoint :
        (f : O → O → Action W (Option O)) (x p : O) (w : W)
        → h.intent.checkpoint ≡ some f
        → view (f x p w).1 ≡ view w
    pub by_heartbeat :
        (f : WorkerHeartbeat Float O → Action W Unit) (b : WorkerHeartbeat Float O) (w : W)
        → h.heartbeat ≡ some f
        → view (f b w).1 ≡ view w
    pub by_now : (w : W) → view (h.now w).1 ≡ view w
    pub by_event_wait :
        (f : Float → Action W Unit) (x : Float) (w : W)
        → h.sleep ≡ event_wait f
        → view (f x w).1 ≡ view w
    pub by_sleep :
        (f : Float → Action W Unit) (x : Float) (w : W)
        → h.sleep ≡ injected f
        → view (f x w).1 ≡ view w

  module _ {O W : Type 0} (t : Threads W) (h : Host Float O W) (view : W → View O)
      (c : Stores h view) where
    pub emit-view :
        (event : String) (e : Option Exn) (d : Option Float) (s : Run O W)
        → view ((emit fl t h event e d s).1).world ≡ view s.world
    unfolding emit
    emit-view event e d s = grind (arith, c.by_heartbeat, c.by_now)

    pub wait_for-view : (x : Float) (w : W) → view (wait_for fl t h x w).1 ≡ view w
    unfolding wait_for
    wait_for-view x w = grind (arith, c.by_event_wait, c.by_sleep)

    idle_round-view : (s : Run O W) → view ((idle_round fl t h s).1).world ≡ view s.world
    unfolding idle_round
    idle_round-view s = grind (arith, emit-view, wait_for-view)

    follow-view :
        (d : WorkDirective) (s : Run O W) → view ((follow fl t h d s).1).world ≡ view s.world
    unfolding follow
    follow-view WorkDirective.stop s = refl
    follow-view WorkDirective.idle s = idle_round-view s
    follow-view WorkDirective.continue s = refl

    -- A step that returned has persisted once; one that raised may have persisted before that.
    abbrev Stepped : {A : Type 0} → View O → Result A → View O → Type 0
    Stepped v (ok _) v' =
        (v'.durable ≡ v.durable) × (v'.saves ≡ v.saves) × (v'.persists ≡ v.persists + 1)
    Stepped v (raised _) v' =
        (v'.durable ≡ v.durable) × (v'.saves ≡ v.saves) × (v.persists ≤ v'.persists)

    persist_step-view :
        (x p : O) (legacy : Legacy O) (w : W)
        → Stepped
            (view w)
            (persist_step fl t h x p legacy w).0
            (view (persist_step fl t h x p legacy w).1)
    unfolding persist_step
    persist_step-view x p legacy w = grind (arith, c.by_persist, c.by_output, c.by_checkpoint)

    source_step-view :
        (p : O) (legacy : Legacy O) (w : W)
        → Stepped
            (view w)
            (source_step fl t h p legacy w).0
            (view (source_step fl t h p legacy w).1)
    unfolding source_step
    source_step-view p legacy w = grind (arith, c.by_fetch, c.by_transform, persist_step-view)

    -- The checkpoint in memory is the stored one, every completed unit was saved once, and no more
    -- units were saved than persisted since the counts were `base`.
    pub record InSync (base : View O) (s : Run O W) : Type 0 where
      pub checkpoint_stored : s.checkpoint ≡ (view s.world).durable
      pub saved_once : (view s.world).saves ≡ base.saves + s.completed
      pub persisted_first : base.persists + s.completed ≤ (view s.world).persists

    -- The variables and the view are as they were.
    pub record Still (s s' : Run O W) : Type 0 where
      pub seen : view s'.world ≡ view s.world
      pub checkpoint : s'.checkpoint ≡ s.checkpoint
      pub completed : s'.completed ≡ s.completed

    pub Still-InSync :
        (base : View O) (s s' : Run O W) → Still s s' → InSync base s → InSync base s'
    Still-InSync base s s' k i = ground arith

    emit-Still :
        (event : String) (e : Option Exn) (d : Option Float) (s : Run O W)
        → Still s (emit fl t h event e d s).1
    emit-Still event e d s =
        let k = emit-SameLocals fl t h event e d s in
        record { seen = emit-view event e d s; checkpoint = k.checkpoint; completed = k.completed }

    pub emit-InSync :
        (base : View O) (event : String) (e : Option Exn) (d : Option Float) (s : Run O W)
        → InSync base s
        → InSync base (emit fl t h event e d s).1
    emit-InSync base event e d s i = Still-InSync base s _ (emit-Still event e d s) i

    idle_round-InSync :
        (base : View O) (s : Run O W) → InSync base s → InSync base (idle_round fl t h s).1
    idle_round-InSync base s i =
        let k = idle_round-SameLocals fl t h s in
        Still-InSync base s _
          (record { seen = idle_round-view s; checkpoint = k.checkpoint; completed = k.completed })
          i

    follow-InSync :
        (base : View O) (d : WorkDirective) (s : Run O W)
        → InSync base s
        → InSync base (follow fl t h d s).1
    unfolding follow
    follow-InSync base WorkDirective.stop s i = i
    follow-InSync base WorkDirective.idle s i = idle_round-InSync base s i
    follow-InSync base WorkDirective.continue s i = i

    -- A unit is persisted, and its checkpoint is not stored yet.
    record Pending (base : View O) (s : Run O W) : Type 0 where
      checkpoint_stored : s.checkpoint ≡ (view s.world).durable
      saved_once : (view s.world).saves ≡ base.saves + s.completed
      persisted_more : base.persists + s.completed + 1 ≤ (view s.world).persists

    announce-InSync :
        (base : View O) (k : Option O) (d : WorkDirective) (s : Run O W)
        → InSync base (stored fl t h k s)
        → InSync base (announce fl t h k d s).1
    unfolding announce
    announce-InSync base k d s i =
        let (r, s') = emit fl t h "checkpointed" none none (stored fl t h k s) in
        after_emit r s' (emit-InSync base "checkpointed" none none (stored fl t h k s) i)
      where
        after_emit :
            (r : Result Unit) (s' : Run O W)
            → InSync base s'
            → InSync base ((lift r >>= λ _. follow fl t h d) s').1
        after_emit (raised e) s' j = j
        after_emit (ok u) s' j = follow-InSync base d s' j

    after_save :
        (base : View O) (k : Option O) (d : WorkDirective) (s : Run O W) (r : Result (Unit {0}))
        (w : W)
        → Pending base s
        → Saved k (view s.world) r (view w)
        → InSync base ((lift r >>= λ _. announce fl t h k d) (record s { world = w })).1
    after_save base k d s (raised e) w p saved = record {
      checkpoint_stored = ground (arith, p.checkpoint_stored);
      saved_once = ground (arith, p.saved_once);
      persisted_first = ground (arith, p.persisted_more);
    }
    after_save base k d s (ok u) w p saved =
        announce-InSync base k d (record s { world = w })
          (record {
            checkpoint_stored = sym saved.0;
            saved_once = omega (arith, p.saved_once, saved.1);
            persisted_first = omega (arith, p.persisted_more, saved.2);
          })

    after_step :
        (base : View O) (s : Run O W) (r : Result (Option O × WorkDirective)) (w : W)
        → InSync base s
        → Stepped (view s.world) r (view w)
        → InSync base ((lift r >>= store_round fl t h) (record s { world = w })).1
    unfolding store_round
    after_step base s (raised e) w i stepped = record {
      checkpoint_stored = i.checkpoint_stored ∙ sym stepped.0;
      saved_once = omega (arith, i.saved_once, stepped.1);
      persisted_first = omega (arith, i.persisted_first, stepped.2);
    }
    after_step base s (ok (k, d)) w i stepped =
        let (r, w') = h.checkpoints.save k w in
        after_save base k d (record s { world = w }) r w'
          (record {
            checkpoint_stored = i.checkpoint_stored ∙ sym stepped.0;
            saved_once = omega (arith, i.saved_once, stepped.1);
            persisted_more = omega (arith, i.persisted_first, stepped.2);
          })
          (c.by_save k w)

    after_working :
        (base : View O) (plan : O) (legacy : Legacy O) (r : Result (Unit {0})) (s : Run O W)
        → InSync base s
        → InSync base
            ((lift r >>= λ _. lift_world (source_step fl t h plan legacy) >>= store_round fl t h)
              s).1
    after_working base plan legacy (raised e) s i = i
    after_working base plan legacy (ok u) s i =
        let (r, w) = source_step fl t h plan legacy s.world in
        after_step base s r w i (source_step-view plan legacy s.world)

    work_round-InSync :
        (base : View O) (plan : O) (legacy : Legacy O) (s : Run O W)
        → InSync base s
        → InSync base (work_round fl t h plan legacy s).1
    unfolding work_round
    work_round-InSync base plan legacy s i =
        let (r, s') = emit fl t h "working" none none s in
        after_working base plan legacy r s' (emit-InSync base "working" none none s i)

    pub perform-InSync :
        (base : View O) (d : Decision O) (s : Run O W)
        → InSync base s
        → InSync base (perform fl t h d s).1
    unfolding perform
    perform-InSync base Decision.stop s i = ground arith
    perform-InSync base Decision.idle s i =
        idle_round-InSync base (record s { consecutive = 0 }) (ground arith)
    perform-InSync base (Decision.work plan legacy) s i = work_round-InSync base plan legacy s i
