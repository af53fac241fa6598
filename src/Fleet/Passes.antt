-- ===== src/Fleet/Passes.antt =====
-- The passes over a fleet: the lock is free again however they end, admission comes first, and the
-- units are reconciled in their order.
use datasource_kit.Prelude.{
  ℕ, zero, suc, ◌≡◌, refl, sym, ap, ◌∙◌, inl, inr, Bool, false, Bool-cases, Option-cases, Option,
  none, some, List, [], ◌∷◌, ◌++◌, append-nil, append_assoc, length,
}
use datasource_kit.Prelude.Floats.{Floats}
use datasource_kit.Effect.{Exn, Result, ok, raised, Action, Holds, pure, lift, ◌>>=◌}
use datasource_kit.Fleet.Host.{
  SupervisorLock, FleetPass, fleet_pass, FleetHost, finally, reconcile_all, finally_loop,
  after_acquire, reconcile_once, serve_loop, serve, reconcile_pass, acquire, run_once, host_loop,
  host_serve,
}

abbrev pub take : {A : Type 0} → ℕ → List A → List A
take zero xs = []
take (suc n) [] = []
take (suc n) (x ∷ xs) = x ∷ take n xs

module _ {W T R : Type 0} (reconcile : T → Action W R) (log : W → List T) where
  -- How far a pass came: the first `count` units were reconciled, each once and in order; all of
  -- them, with a result for each, if the pass returned.
  pub record Pass (us : List T) (w : W) (r : Result (List R)) (w' : W) : Type 0 where
    pub count : ℕ
    pub logged : log w' ≡ log w ++ take count us
    pub complete : Holds (λ rs. (count ≡ length us) × (length rs ≡ length us)) r

  after_rest :
      (u : T) (us : List T) (x : R) (w v : W) (r : Result (List R)) (v' : W)
      → log v ≡ log w ++ (u ∷ [])
      → Pass us v r v'
      → let out = (lift r >>= λ rs. pure (x ∷ rs)) v' in Pass (u ∷ us) w out.0 out.1
  after_rest u us x w v (raised e) v' logged p = record {
    count = suc p.count;
    logged =
        p.logged
        ∙ ap (λ l. l ++ take p.count us) logged
        ∙ append_assoc (log w) (u ∷ []) (take p.count us);
    complete = tt;
  }
  after_rest u us x w v (ok rs) v' logged p = record {
    count = suc p.count;
    logged =
        p.logged
        ∙ ap (λ l. l ++ take p.count us) logged
        ∙ append_assoc (log w) (u ∷ []) (take p.count us);
    complete = (ap suc p.complete.0, ap suc p.complete.1);
  }

  after_unit :
      (u : T) (us : List T) (w v : W) (r : Result R)
      → log v ≡ log w ++ (u ∷ [])
      → Pass us v (reconcile_all reconcile us v).0 (reconcile_all reconcile us v).1
      → let out = (lift r >>= λ x. reconcile_all reconcile us >>= λ rs. pure (x ∷ rs)) v in
        Pass (u ∷ us) w out.0 out.1
  after_unit u us w v (raised e) logged p = record { count = 1; logged = logged; complete = tt }
  after_unit u us w v (ok x) logged p =
      after_rest u us x w v (reconcile_all reconcile us v).0 (reconcile_all reconcile us v).1 logged
        p

  pub reconcile_all-Pass :
      ((u : T) (w : W) → log (reconcile u w).1 ≡ log w ++ (u ∷ []))
      → (us : List T) (w : W)
      → Pass us w (reconcile_all reconcile us w).0 (reconcile_all reconcile us w).1
  unfolding reconcile_all
  reconcile_all-Pass logs [] w = record {
    count = 0;
    logged = sym (append-nil (log w));
    complete = (refl, refl);
  }
  reconcile_all-Pass logs (u ∷ us) w =
      let (r, v) = reconcile u w in after_unit u us w v r (logs u w) (reconcile_all-Pass logs us v)

module _ {W P : Type 0} (lock : SupervisorLock W P) where
  -- An acquisition of a lock that this process does not own: with the lock, or changing nothing.
  record Acquires (w : W) (r : Result (Unit {0})) (v : W) : Type 0 where
    refused : (e : Exn) → r ≡ raised e → lock.held v ≡ false

  lock-Acquires :
      (payload : Option P) (w : W)
      → lock.held w ≡ false
      → Acquires w (lock.acquire payload w).0 (lock.acquire payload w).1
  lock-Acquires payload w free = record {
    refused = λ e failed. ap lock.held (lock.refused payload w e failed) ∙ free;
  }

  after_acquisition :
      {A : Type 0} (m : Action W A) (w : W) (r : Result (Unit {0})) (v : W)
      → Acquires w r v
      → lock.held ((lift r >>= λ _. finally m lock.release) v).1 ≡ false
  after_acquisition m w (raised e) v a = a.refused e refl
  after_acquisition m w (ok u) v a = lock.released (m v).1

  -- What a loop under the lock leaves, once it has ended.
  abbrev pub EndsFree : Option (Result (Unit {0}) × W) → Type 0
  EndsFree none = Unit
  EndsFree (some (r, w)) = lock.held w ≡ false

  finally_loop-EndsFree : (out : Option (Result (Unit {0}) × W)) → EndsFree (finally_loop lock out)
  finally_loop-EndsFree none = tt
  finally_loop-EndsFree (some (r, v)) = lock.released v

  after_acquire-EndsFree :
      (w : W) (r : Result (Unit {0})) (v : W) (rest : W → Option (Result (Unit {0}) × W))
      → Acquires w r v
      → EndsFree (after_acquire lock (r, v) rest)
  after_acquire-EndsFree w (raised e) v rest a = a.refused e refl
  after_acquire-EndsFree w (ok u) v rest a = finally_loop-EndsFree (rest v)

  module _ {T R : Type 0} (fl : Floats) (reconcile : T → Action W R) where
    -- However `reconcile_once` and `serve` of the reconciler end, a lock that this process did not
    -- own before it does not own afterwards.
    pub reconciler-released :
        (fuel : ℕ) (specs : List T) (stop_condition : Option (Action W Bool))
        (sleep : Action W (Unit {0})) (w : W)
        → lock.held w ≡ false
        → (lock.held (reconcile_once fl lock reconcile specs w).1 ≡ false)
          × EndsFree (serve fl lock reconcile fuel specs stop_condition sleep w)
    unfolding reconcile_once serve
    reconciler-released fuel specs stop_condition sleep w free =
        let (r, v) = lock.acquire none w in
        let a = lock-Acquires none w free in
        (
          after_acquisition (reconcile_all reconcile specs) w r v a,
          after_acquire-EndsFree w r v
              (serve_loop fl lock reconcile fuel specs stop_condition sleep) a,
        )

  module _ {T R A : Type 0} (fl : Floats) (h : FleetHost fl.Float W T R A P) where
    -- The payload callback does not take the lock.
    abbrev pub PayloadKeeps : Type 0
    PayloadKeeps =
        (f : Action W P) (w : W)
        → h.lock_payload ≡ some f
        → lock.held w ≡ false
        → lock.held (f w).1 ≡ false

    after_payload :
        (w v : W) (r : Result P)
        → lock.held v ≡ false
        → let out = ((lift r >>= λ p. pure (some p)) >>= λ p. lock.acquire p) v in
          Acquires w out.0 out.1
    after_payload w v (ok p) free =
        let a = lock-Acquires (some p) v free in record { refused = a.refused }
    after_payload w v (raised e) free = record { refused = λ x same. free }

    acquire-Acquires :
        PayloadKeeps
        → (w : W) → lock.held w ≡ false
        → Acquires w (acquire fl lock h w).0 (acquire fl lock h w).1
    unfolding acquire
    acquire-Acquires keeps w free = elim (Option-cases h.lock_payload) [
      | inl e ↦ rw (e, acquire) (lock-Acquires none w free)
      | inr (f, e) ↦ rw (e, acquire) (after_payload w (f w).1 (f w).0 (keeps f w e free))
    ]

    after_results :
        (log : W → List T) (a : A) (w v : W) (r : Result (List R)) (v' : W)
        → log v ≡ log w
        → Pass h.reconcile log h.units v r v'
        → let out = (lift r >>= λ rs. pure (fleet_pass a rs)) v' in
          (count : ℕ) × (log out.1 ≡ log w ++ take count h.units)
          × Holds
              (λ (pass : FleetPass A R).
                (count ≡ length h.units) × (length pass.results ≡ length h.units))
              out.0
          × ((e : Exn) → ok a ≡ raised e → (out.0 ≡ raised e) × (count ≡ 0))
    after_results log a w v (raised x) v' same p =
        (p.count, p.logged ∙ ap (λ l. l ++ take p.count h.units) same, tt, λ e clash. cc)
    after_results log a w v (ok rs) v' same p =
        (p.count, p.logged ∙ ap (λ l. l ++ take p.count h.units) same, p.complete, λ e clash. cc)

    after_admission :
        (log : W → List T)
        → ((u : T) (w : W) → log (h.reconcile u w).1 ≡ log w ++ (u ∷ []))
        → (w : W) (r : Result A) (v : W) → log v ≡ log w
        → let out =
            (lift r >>= λ a. reconcile_all h.reconcile h.units >>= λ rs. pure (fleet_pass a rs))
              v in
          (count : ℕ) × (log out.1 ≡ log w ++ take count h.units)
          × Holds
              (λ (pass : FleetPass A R).
                (count ≡ length h.units) × (length pass.results ≡ length h.units))
              out.0
          × ((e : Exn) → r ≡ raised e → (out.0 ≡ raised e) × (count ≡ 0))
    after_admission log logs w (raised x) v same =
        (0, same ∙ sym (append-nil (log w)), tt, λ e failed. ((cc), refl))
    after_admission log logs w (ok a) v same =
        let (rs, v') = reconcile_all h.reconcile h.units v in
        after_results log a w v rs v' same (reconcile_all-Pass h.reconcile log logs h.units v)

    -- However `run_once` and `serve` of the host end, a lock that this process did not own before it
    -- does not own afterwards; the payload callback is taken to leave the lock alone.
    pub host-released :
        PayloadKeeps
        → (fuel : ℕ) (interval : fl.Float) (on_pass : Option (FleetPass A R → Action W (Unit {0})))
          (stop_condition : Option (Action W Bool)) (w : W)
        → lock.held w ≡ false
        → (lock.held (run_once fl lock h w).1 ≡ false)
          × EndsFree (host_serve fl lock h fuel interval on_pass stop_condition w)
    unfolding run_once host_serve
    host-released keeps fuel interval on_pass stop_condition w free =
        let (r, v) = acquire fl lock h w in
        let a = acquire-Acquires keeps w free in
        (
          after_acquisition (reconcile_pass fl lock h) w r v a,
          elim (Bool-cases (fl.f_le interval fl.f_zero)) [
            | inl bad ↦ rw bad free
            | inr good ↦ rw good (
                after_acquire-EndsFree w r v
                  (host_loop fl lock h fuel interval on_pass stop_condition) a)
          ],
        )

    -- Where `admit` leaves a log alone that each reconciliation appends its unit to: a pass that
    -- fails its admission has reconciled no unit; any other has reconciled a first part of the fleet in order, each unit once,
    -- and all of it, with a result for each, if it returns.
    pub reconcile_pass-order :
        (log : W → List T)
        → ((us : List T) (w : W) → log (h.admit us w).1 ≡ log w)
        → ((u : T) (w : W) → log (h.reconcile u w).1 ≡ log w ++ (u ∷ []))
        → (w : W)
        → let out = reconcile_pass fl lock h w in
          (count : ℕ) × (log out.1 ≡ log w ++ take count h.units)
          × Holds (λ pass. (count ≡ length h.units) × (length pass.results ≡ length h.units)) out.0
          × ((e : Exn) → (h.admit h.units w).0 ≡ raised e → (out.0 ≡ raised e) × (count ≡ 0))
    unfolding reconcile_pass
    reconcile_pass-order log admits logs w =
        let (r, v) = h.admit h.units w in after_admission log logs w r v (admits h.units w)
