-- ===== src/Fleet/Host.antt =====
-- fleet/host.py, and `reconcile_once` and `serve` of fleet/state.py: callbacks over a fixed fleet
-- under one supervisor lock.
use datasource_kit.Prelude.{
  ℕ, zero, suc, ◌≡◌, Bool, true, false, Option, none, some, List, [], ◌∷◌, if◌then◌else◌,
}
use datasource_kit.Prelude.Floats.{Floats}
use datasource_kit.Effect.{Exn, value_error, Result, ok, raised, Action, Holds, pure, ◌>>=◌, ◌>>◌}

-- The lock as its holder uses it: `held` is whether this process owns the lock file, `acquire` takes
-- the payload of the lock's body.
pub record SupervisorLock (W P : Type 0) : Type 0 where
  pub acquire : Option P → Action W (Unit {0})
  pub release : Action W Bool
  pub held : W → Bool
  pub acquired : (p : Option P) (w : W) → Holds (λ _. held (acquire p w).1 ≡ true) (acquire p w).0
  pub refused : (p : Option P) (w : W) (e : Exn) → (acquire p w).0 ≡ raised e → (acquire p w).1 ≡ w
  pub released : (w : W) → held (release w).1 ≡ false

pub record FleetPass (A R : Type 0) : Type 0 where
  pub admission : A
  pub results : List R

abbrev pub fleet_pass : {A R : Type 0} → A → List R → FleetPass A R
fleet_pass a rs = record { admission = a; results = rs }

pub record FleetHost (F W T R A P : Type 0) : Type 0 where
  pub units : List T
  pub admit : List T → Action W A
  pub reconcile : T → Action W R
  pub lock_payload : Option (Action W P)
  pub sleep : F → Action W (Unit {0})

-- `finally`: an exception of the last action replaces the outcome
abbrev replace_by : {A B : Type 0} → Result B → Result A → Result A
replace_by (ok _) r = r
replace_by (raised x) r = raised x

module _ {W A : Type 0} where
  -- `try: m finally: fin`
  abbrev pub finally : {B : Type 0} → Action W A → Action W B → Action W A
  finally m fin w = let (r, v) = m w in let (x, w') = fin v in (replace_by x r, w')

module _ {W T R : Type 0} (reconcile : T → Action W R) where
  -- the units in order; the first exception ends the pass
  unfoldable pub reconcile_all : List T → Action W (List R)
  reconcile_all [] = pure []
  reconcile_all (u ∷ us) = do r ← reconcile u; rs ← reconcile_all us; pure (r ∷ rs)

module _ {W P : Type 0} (lock : SupervisorLock W P) where
  -- `with self.hold_lock()`
  abbrev pub hold_lock : {A : Type 0} → Option P → Action W A → Action W A
  hold_lock payload m = lock.acquire payload >> finally m lock.release

  -- the result of a loop on fuel with a `finally`: `none` has not ended yet
  abbrev pub finally_loop : Option (Result (Unit {0}) × W) → Option (Result (Unit {0}) × W)
  finally_loop none = none
  finally_loop (some (r, v)) = some (let (x, w') = lock.release v in (replace_by x r, w'))

  abbrev pub after_acquire :
      Result (Unit {0}) × W → (W → Option (Result (Unit {0}) × W)) → Option (Result (Unit {0}) × W)
  after_acquire (ok _, w) rest = finally_loop (rest w)
  after_acquire (raised e, w) rest = some (raised e, w)

-- `stop_condition is not None and stop_condition()`
abbrev pub asks_stop : {W : Type 0} → Option (Action W Bool) → Action W Bool
asks_stop none = pure false
asks_stop (some f) = f

-- how a round of `serve` goes on
abbrev pub served :
    {W : Type 0}
    → Result Bool × W
    → (W → Option (Result (Unit {0}) × W))
    → Option (Result (Unit {0}) × W)
served (raised e, w) rest = some (raised e, w)
served (ok true, w) rest = some (ok tt, w)
served (ok false, w) rest = rest w

module _ (fl : Floats) where
  open fl use {Float, f_zero, f_le}

  -- `DesiredStateReconciler.reconcile_once` and `serve`
  module _ {W T R P : Type 0} (lock : SupervisorLock W P) (reconcile : T → Action W R) where
    unfoldable pub reconcile_once : List T → Action W (List R)
    reconcile_once specs = hold_lock lock none (reconcile_all reconcile specs)

    -- one round: the pass, the stop test, and the sleep if it goes on
    unfoldable pub serve_round :
        List T → Option (Action W Bool) → Action W (Unit {0}) → Action W Bool
    serve_round specs stop_condition sleep = do
      reconcile_all reconcile specs
      stopping ← asks_stop stop_condition
      (if stopping then pure true else (sleep >> pure false))

    unfoldable pub serve_loop :
        ℕ
        → List T
        → Option (Action W Bool)
        → Action W (Unit {0})
        → W
        → Option (Result (Unit {0}) × W)
    serve_loop zero specs stop_condition sleep w = none
    serve_loop (suc fuel) specs stop_condition sleep w =
        served (serve_round specs stop_condition sleep w)
          (serve_loop fuel specs stop_condition sleep)

    unfoldable pub serve :
        ℕ
        → List T
        → Option (Action W Bool)
        → Action W (Unit {0})
        → W
        → Option (Result (Unit {0}) × W)
    serve fuel specs stop_condition sleep w =
        after_acquire lock (lock.acquire none w) (serve_loop fuel specs stop_condition sleep)

  module _ {W T R A P : Type 0} (lock : SupervisorLock W P) (h : FleetHost Float W T R A P) where
    -- `reconcile_pass`
    unfoldable pub reconcile_pass : Action W (FleetPass A R)
    reconcile_pass = do
      admission ← h.admit h.units
      results ← reconcile_all h.reconcile h.units
      pure (fleet_pass admission results)

    -- `_acquire`
    payload_of : Option (Action W P) → Action W (Option P)
    payload_of none = pure none
    payload_of (some f) = do p ← f; pure (some p)

    unfoldable pub acquire : Action W (Unit {0})
    unfolding payload_of
    acquire = do payload ← payload_of h.lock_payload; lock.acquire payload

    -- `run_once`
    unfoldable pub run_once : Action W (FleetPass A R)
    run_once = acquire >> finally reconcile_pass lock.release

    abbrev report :
        Option (FleetPass A R → Action W (Unit {0})) → FleetPass A R → Action W (Unit {0})
    report none pass = pure tt
    report (some f) pass = f pass

    unfoldable pub host_round :
        Float
        → Option (FleetPass A R → Action W (Unit {0}))
        → Option (Action W Bool)
        → Action W Bool
    host_round interval on_pass stop_condition = do
      pass ← reconcile_pass
      report on_pass pass
      stopping ← asks_stop stop_condition
      (if stopping then pure true else (h.sleep interval >> pure false))

    unfoldable pub host_loop :
        ℕ
        → Float
        → Option (FleetPass A R → Action W (Unit {0}))
        → Option (Action W Bool)
        → W
        → Option (Result (Unit {0}) × W)
    host_loop zero interval on_pass stop_condition w = none
    host_loop (suc fuel) interval on_pass stop_condition w =
        served (host_round interval on_pass stop_condition w)
          (host_loop fuel interval on_pass stop_condition)

    -- `serve`
    unfoldable pub host_serve :
        ℕ
        → Float
        → Option (FleetPass A R → Action W (Unit {0}))
        → Option (Action W Bool)
        → W
        → Option (Result (Unit {0}) × W)
    host_serve fuel interval on_pass stop_condition w =
        let running =
          after_acquire lock (acquire w) (host_loop fuel interval on_pass stop_condition) in
        if f_le interval f_zero then some (raised value_error, w) else running
