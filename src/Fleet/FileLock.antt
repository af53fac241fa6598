-- ===== src/Fleet/FileLock.antt =====
-- The file lock as the lock of a fleet: the laws that the passes rely on, from the theorems about
-- `acquire_lock` and `release_lock`. The world holds the disk that the lock file is on.
use datasource_kit.Prelude.{
  ℕ, ◌≡◌, refl, inl, inr, Bool, true, false, Bool-cases, Option, none, some, [],
}
use datasource_kit.Prelude.Dict.{Dict}
use datasource_kit.Effect.{Exn, runtime_error, Result, ok, raised, Action, Holds}
use datasource_kit.Fleet.Json.{Value}
use datasource_kit.Fleet.Lock.{
  Machine, Disk, read_lock, lock_is_live, acquire_lock, owned_by, release_lock,
}
use datasource_kit.Fleet.Exclusion.{acquire_lock_lem, taken, owned_by-lock_body}
use datasource_kit.Fleet.Host.{SupervisorLock}

-- where the world keeps the disk
pub record DiskOf (W : Type 0) : Type 0 where
  pub disk : W → Disk
  pub set_disk : Disk → W → W
  pub disk-set_disk : (d : Disk) (w : W) → disk (set_disk d w) ≡ d
  pub set_disk_self : (w : W) → set_disk (disk w) w ≡ w

module _ {W : Type 0} (at : DiskOf W) (m : Machine) (me : ℕ) where
  abbrev or_empty : Option (Dict Value) → Dict Value
  or_empty none = []
  or_empty (some d) = d

  -- five steps are enough (`acquire_lock_lem`)
  abbrev outcome : W → Option (Result (Dict Value) × Disk) → Result (Unit {0}) × W
  outcome w none = (raised runtime_error, w)
  outcome w (some (ok body, d)) = (ok tt, at.set_disk d w)
  outcome w (some (raised e, d)) = (raised e, at.set_disk d w)

  unfoldable pub take_lock : Option (Dict Value) → Action W (Unit {0})
  take_lock payload w = outcome w (acquire_lock m me (or_empty payload) 5 (at.disk w))

  unfoldable pub drop_lock : Action W Bool
  drop_lock w = let (freed, d) = release_lock me (at.disk w) in (ok freed, at.set_disk d w)

  abbrev pub holds_lock : W → Bool
  holds_lock w = owned_by me (read_lock (at.disk w).file)

  pub take_lock-acquired :
      (payload : Option (Dict Value)) (w : W)
      → Holds (λ _. holds_lock (take_lock payload w).1 ≡ true) (take_lock payload w).0
  unfolding take_lock
  take_lock-acquired payload w =
      let body = or_empty payload in
      elim (Bool-cases (lock_is_live m me (read_lock (at.disk w).file))) [
        | inl live ↦ rw (acquire_lock_lem m me body (at.disk w), live) tt
        | inr dead ↦
            rw
              (
                acquire_lock_lem m me body (at.disk w),
                dead,
                at.disk-set_disk (taken m me body (at.disk w)) w,
              )
              (owned_by-lock_body m me body)
      ]

  pub take_lock-refused :
      (payload : Option (Dict Value)) (w : W) (e : Exn)
      → (take_lock payload w).0 ≡ raised e
      → (take_lock payload w).1 ≡ w
  unfolding take_lock
  take_lock-refused payload w e failed =
      let body = or_empty payload in
      elim (Bool-cases (lock_is_live m me (read_lock (at.disk w).file))) [
        | inl live ↦ rw (acquire_lock_lem m me body (at.disk w), live) (at.set_disk_self w)
        | inr dead ↦ absurd (clash (rw (acquire_lock_lem m me body (at.disk w), dead) at failed))
      ]
    where
      clash : ◌≡◌ {A = Result (Unit {0})} (ok tt) (raised e) → ⊥
      clash eq = cc

  pub drop_lock-released : (w : W) → holds_lock (drop_lock w).1 ≡ false
  unfolding drop_lock release_lock
  drop_lock-released w = elim (Bool-cases (holds_lock w)) [
    | inl own ↦ rw (own, at.disk-set_disk (record (at.disk w) { file = none }) w) refl
    | inr foreign ↦ rw (foreign, at.set_disk_self w) foreign
  ]

  -- the lock that `FleetHost` and the reconciler are given
  abbrev pub file_lock : SupervisorLock W (Dict Value)
  file_lock = record {
    acquire = take_lock;
    release = drop_lock;
    held = holds_lock;
    acquired = take_lock-acquired;
    refused = take_lock-refused;
    released = drop_lock-released;
  }
