-- ===== src/Worker/AtLeastOnce.antt =====
-- `WorkerHost.run` keeps memory and store in step, through every iteration and every exception.
use datasource_kit.Prelude.{
  ℕ, ◌+◌, ◌≤◌, ◌≡◌, ap, ◌∙◌, refl, sym, Bool, true, false, Option, none, some, arith, Bool-cases,
  inl, inr,
}
use datasource_kit.Prelude.Int.{ℤ}
use datasource_kit.Prelude.Floats.{Floats}
use datasource_kit.Effect.{Exn, Result, ok, raised, Holds, Holds-map, is_exception, lift, ◌>>=◌}
use datasource_kit.Threads.{Threads}
use datasource_kit.Worker.Intent.{WorkerRun, Planned}
use datasource_kit.Worker.Host.{
  Host, Run, Flow, Decision, begin, interpret, emit, perform, body, back_off, handle, iterate,
  started, opening, run,
}
use datasource_kit.Worker.Progress.{back_off-BacksOff}
use datasource_kit.Worker.Durable.{
  View, Stores, InSync, Still-InSync, emit-InSync, emit-view, wait_for-view, perform-InSync,
}
use datasource_kit.Worker.Run.{run_inversion, main_inv, Holds-all}

module _ (fl : Floats) where
  open fl use {Float}

  module _ {O W : Type 0} (t : Threads W) (h : Host Float O W) (view : W → View O)
      (c : Stores fl h view) where
    abbrev Sync : View O → Run O W → Type 0
    Sync base s = InSync fl t h view c base s

    same_view :
        (base : View O) (s : Run O W) (w : W)
        → view w ≡ view s.world
        → Sync base s
        → Sync base (record s { world = w })
    same_view base s w e i =
        Still-InSync fl t h view c base s (record s { world = w })
          (record { seen = e; checkpoint = refl; completed = refl }) i

    after_interpret :
        (base : View O) (r : Result (Decision O)) (s : Run O W)
        → Sync base s
        → Sync base ((lift r >>= perform fl t h) s).1
    after_interpret base (raised e) s i = i
    after_interpret base (ok d) s i = perform-InSync fl t h view c base d s i

    after_plan :
        (base : View O) (r : Result (Planned O)) (s : Run O W)
        → Sync base s
        → Sync base ((lift r >>= λ planned. lift (interpret planned) >>= perform fl t h) s).1
    after_plan base (raised e) s i = i
    after_plan base (ok planned) s i = after_interpret base (interpret planned) s i

    body-InSync : (base : View O) (s : Run O W) → Sync base s → Sync base (body fl t h s).1
    unfolding body
    body-InSync base s i =
        let (r, w) = h.intent.plan s.checkpoint s.world in
        after_plan base r (record s { world = w })
          (same_view base s w (c.by_plan s.checkpoint s.world) i)

    back_off-view : (e : Exn) (s : Run O W) → view ((back_off fl t h e s).1).world ≡ view s.world
    unfolding back_off
    back_off-view e s = grind (arith, emit-view, wait_for-view)

    handle-InSync :
        (base : View O) (r : Result Flow) (s : Run O W)
        → Sync base s
        → Sync base (handle fl t h r s).1
    handle-InSync base (ok flow) s i = i
    handle-InSync base (raised e) s i = elim (Bool-cases (is_exception e)) [
      | inl caught ↦
          let k = back_off-BacksOff fl t h e s in
          rw caught (
            Still-InSync fl t h view c base s (back_off fl t h e s).1
              (record {
                seen = back_off-view e s;
                checkpoint = k.checkpoint;
                completed = k.completed;
              })
              i)
      | inr passed ↦ rw passed i
    ]

    iterate-InSync : (base : View O) (s : Run O W) → Sync base s → Sync base (iterate fl t h s).1
    unfolding iterate
    iterate-InSync base s i =
        let begun = record s { iterations = s.iterations + 1 } in
        let (r, s') = body fl t h begun in
        handle-InSync base r s' (body-InSync base begun (ground arith))

    after_load :
        (base : View O) (r : Result (Option O)) (w : W)
        → view w ≡ base
        → Holds (λ k. k ≡ base.durable) r
        → let out = (lift r >>= started fl t h) (begin w) in Holds (λ _. Sync base out.1) out.0
    unfolding started
    after_load base (raised e) w same k = tt
    after_load base (ok loaded) w same k =
        let s : Run O W = record (begin w) { checkpoint = loaded } in
        let (x, s') = emit fl t h "starting" none none s in
        let i : Sync base s = record {
          checkpoint_stored = k ∙ sym (ap (λ v. v.durable) same);
          saved_once = omega (arith, ap (λ v. v.saves) same);
          persisted_first = omega (arith, ap (λ v. v.persists) same);
        } in
        Holds-all x (emit-InSync fl t h view c base "starting" none none s i)

    opening-InSync :
        (base : View O) (w : W)
        → view w ≡ base
        → Holds (λ _. Sync base (opening fl t h (begin w)).1) (opening fl t h (begin w)).0
    unfolding opening
    opening-InSync base w e =
        let (r, w') = h.checkpoints.load w in
        after_load base r w' (c.by_load w ∙ e)
          (Holds-map r (λ k q. q ∙ ap (λ v. v.durable) e) (c.loads w))

    -- Where only `save` moves the stored checkpoint and only `persist` the persisted units (Stores), and
    -- the lock neither: when `run` returns, its checkpoint is the stored one, exactly its completed
    -- units were saved since the call, and at least as many were persisted.
    pub run-at_least_once :
        (fuel : ℕ) (most : Option ℤ) (w w' : W) (r : WorkerRun O)
        → ((b : Bool) (v : W) → view (t.set_lock b v) ≡ view v)
        → run fl t h fuel most w ≡ some (ok r, w')
        → (r.checkpoint ≡ (view w').durable)
          × ((view w').saves ≡ (view w).saves + r.completed)
          × ((view w).persists + r.completed ≤ (view w').persists)
    run-at_least_once fuel most w w' r unlocked e =
        let begun = begin (t.set_lock true w) in
        let done =
          run_inversion fl t h (Sync (view w)) fuel most w w' r
            (main_inv fl t h (Sync (view w)) most (λ s room i. iterate-InSync (view w) s i) fuel
              begun (opening-InSync (view w) (t.set_lock true w) (unlocked true w)))
            e in
        let last = (emit fl t h "stopped" none none done.final).1 in
        let i = emit-InSync fl t h view c (view w) "stopped" none none done.final done.holds in
        let seen = unlocked false last.world in
        rw (done.reported, done.left, seen) (i.checkpoint_stored, i.saved_once, i.persisted_first)
