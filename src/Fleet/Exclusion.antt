-- ===== src/Fleet/Exclusion.antt =====
-- The supervisor lock among several processes: what a complete lock of a live owner excludes, and
-- the race that a lock which is not yet written, or is being taken over, admits.
use text.Mathlib.Text.{◌==◌ as str_eq}
use text.Mathlib.TextEquality.{eq_iff}
use datasource_kit.Prelude.{
  ℕ, ◌+◌, ◌<◌, ◌≡◌, ◌≢◌, refl, sym, ◌∙◌, ◌==◌, inl, inr, true, false, Bool-cases, Option-cases,
  Option, none, some, List, [], ◌∷◌, arith, if◌then◌else◌,
}
use datasource_kit.Prelude.Int.{pos}
use datasource_kit.Prelude.Dict.{Dict, lookup-insert}
use datasource_kit.Effect.{supervisor_lock_error, Result, ok, raised}
use datasource_kit.Fleet.Json.{Value, get}
use datasource_kit.Fleet.Lock.{
  delivered, Machine, pid_alive, lock_is_live, lock_body, LockFile, Disk, Phase, opening, judging,
  unlinking, writing, holding, refused, step, acquire_from, acquire_lock, read_lock, owned_by,
  release_lock,
}

-- Several processes on one host, each somewhere in `acquire_lock`.
pub record System : Type 0 where
  pub disk : Disk
  pub phase : ℕ → Phase

module _ (m : Machine) (payload : ℕ → Dict Value) where
  -- one system call of the process `me`
  unfoldable pub advance : ℕ → System → System
  advance me s =
      let (p, d) = step m me (payload me) (s.phase me) s.disk in
      record { disk = d; phase = λ who. if who == me then p else s.phase who }

  -- a schedule of system calls, the first one first
  unfoldable pub schedule : List ℕ → System → System
  unfolding advance
  schedule [] s = s
  schedule (me ∷ rest) s = schedule rest (advance me s)

  -- the lock body that a live process wrote is live to every other process
  lock_body-pid : (me : ℕ) → get (lock_body m me (payload me)) "pid" ≡ Value.int (pos me)
  unfolding lock_body
  lock_body-pid me = grind (arith, lookup-insert)

  lock_body-hostname :
      (me : ℕ) → get (lock_body m me (payload me)) "hostname" ≡ Value.str m.hostname
  unfolding lock_body
  lock_body-hostname me = grind (arith, lookup-insert)

  pub lock_body-live :
      (owner me : ℕ)
      → 0 < owner
      → me ≢ owner
      → m.kill (pos owner) ≡ delivered
      → m.zombie (pos owner) ≡ false
      → lock_is_live m me (some (lock_body m owner (payload owner))) ≡ true
  unfolding lock_is_live pid_alive
  lock_body-live owner me positive other alive awake =
      let same : str_eq m.hostname m.hostname ≡ true = (eq_iff m.hostname m.hostname).1 refl in
      rw (lock_body-pid owner, lock_body-hostname owner) (ground (arith, same, alive, awake))

  -- before the unlink and before the file is opened, a process cannot touch a lock
  abbrev Waits : Phase → Type 0
  Waits opening = Unit
  Waits judging = Unit
  Waits refused = Unit
  Waits _ = ⊥

  -- The owner holds its complete lock, and the others have not passed their test.
  pub record Guarded (owner : ℕ) (lock : LockFile) (s : System) : Type 0 where
    pub file : s.disk.file ≡ some lock
    pub held : s.phase owner ≡ holding
    pub others : (who : ℕ) → who ≢ owner → Waits (s.phase who)

  step-Waits :
      (me : ℕ) (p : Phase) (d : Disk) (lock : LockFile)
      → d.file ≡ some lock
      → lock_is_live m me lock.content ≡ true
      → Waits p
      → ((step m me (payload me) p d).1.file ≡ some lock) × Waits (step m me (payload me) p d).0
  unfolding step
  step-Waits me opening d lock e live w = ground arith
  step-Waits me judging d lock e live w = rw (e, live) (refl, tt)
  step-Waits me refused d lock e live w = (e, tt)
  step-Waits me unlinking d lock e live w = absurd w
  step-Waits me (writing i) d lock e live w = absurd w
  step-Waits me holding d lock e live w = absurd w

  owner_step :
      (owner : ℕ) (lock : LockFile) (s : System)
      → Guarded owner lock s
      → Guarded owner lock (advance owner s)
  unfolding advance step
  owner_step owner lock s g = record {
    file = rw g.held g.file;
    held = let self : (owner == owner) ≡ true = ground arith in rw (self, g.held) refl;
    others = λ who ne.
        let differ : (who == owner) ≡ false = ground (arith, ne) in rw differ (g.others who ne);
  }

  other_step :
      (owner me : ℕ) (lock : LockFile) (s : System)
      → me ≢ owner
      → lock_is_live m me lock.content ≡ true
      → Guarded owner lock s
      → Guarded owner lock (advance me s)
  unfolding advance
  other_step owner me lock s ne live g =
      let (file, waits) = step-Waits me (s.phase me) s.disk lock g.file live (g.others me ne) in
      record {
        file = file;
        held = let differ : (owner == me) ≡ false = ground (arith, ne) in rw differ g.held;
        others = λ who apart. after who apart waits;
      }
    where
      after :
          (who : ℕ)
          → who ≢ owner
          → Waits (step m me (payload me) (s.phase me) s.disk).0
          → Waits
              (if who == me then (step m me (payload me) (s.phase me) s.disk).0 else s.phase who)
      after who apart waits = elim (Bool-cases (who == me)) [
        | inl same ↦ rw same waits
        | inr differ ↦ rw differ (g.others who apart)
      ]

  -- Where a live process holds the lock that it wrote, and the others have not passed their test,
  -- no schedule of system calls changes the lock file or lets another process hold the lock.
  pub schedule-Guarded :
      (order : List ℕ) (owner i : ℕ) (s : System)
      → 0 < owner
      → m.kill (pos owner) ≡ delivered
      → m.zombie (pos owner) ≡ false
      → Guarded owner (record { inode = i; content = some (lock_body m owner (payload owner)) }) s
      → Guarded owner
          (record { inode = i; content = some (lock_body m owner (payload owner)) })
          (schedule order s)
  unfolding schedule
  schedule-Guarded [] owner i s positive alive awake g = g
  schedule-Guarded (me ∷ order) owner i s positive alive awake g =
      let lock : LockFile = record {
        inode = i;
        content = some (lock_body m owner (payload owner));
      } in
      elim (Bool-cases (me == owner)) [
        | inl same ↦
            let equal : me ≡ owner = ground arith in
            rw equal (
              schedule-Guarded order owner i (advance owner s) positive alive awake
                (owner_step owner lock s g))
        | inr differ ↦
            let ne : me ≢ owner = λ e. ground arith in
            schedule-Guarded order owner i (advance me s) positive alive awake
              (other_step owner me lock s ne (lock_body-live owner me positive ne alive awake) g)
      ]

  -- Two processes that start from an absent lock file can both end up holding the lock: the second
  -- one reads the file while it is still empty, takes it for corrupt, and replaces it.
  pub exclusion_fails :
      (a b : ℕ) (d : Disk)
      → a ≢ b
      → d.file ≡ none
      → (order : List ℕ) × ((schedule order (record { disk = d; phase = λ _. opening })).phase a
          ≡ holding)
        × ((schedule order (record { disk = d; phase = λ _. opening })).phase b ≡ holding)
  unfolding schedule advance step lock_is_live
  exclusion_fails a b d ne e =
      let aa : (a == a) ≡ true = ground arith in
      let bb : (b == b) ≡ true = ground arith in
      let ab : (a == b) ≡ false = ground (arith, ne) in
      let ba : (b == a) ≡ false = ground (arith, ne) in
      (a ∷ b ∷ b ∷ b ∷ b ∷ b ∷ a ∷ [], rw (aa, bb, ab, ba, e) refl, rw (aa, bb, ab, ba, e) refl)

-- A process alone: its own pass through `acquire_lock` ends, and by the test of the lock.
module _ (m : Machine) (me : ℕ) (payload : Dict Value) where
  -- where a lock that is not live stood, the new one stands
  abbrev pub taken : Disk → Disk
  taken d = record {
    file = some (record { inode = d.next_inode; content = some (lock_body m me payload) });
    next_inode = d.next_inode + 1;
  }

  -- `acquire_lock` raises exactly where the lock is live, and then changes nothing; else it returns
  -- with its own body in the lock file.
  pub acquire_lock_lem :
      (d : Disk)
      → acquire_lock m me payload 5 d ≡ (
          if lock_is_live m me (read_lock d.file)
          then some (raised supervisor_lock_error, d)
          else some (ok (lock_body m me payload), taken d))
  unfolding acquire_from step lock_is_live
  acquire_lock_lem d =
      let same : (d.next_inode == d.next_inode) ≡ true = ground arith in
      elim (Option-cases d.file) [
        | inl absent ↦ rw (absent, acquire_from, same) refl
        | inr (f, found) ↦ elim (Bool-cases (lock_is_live m me f.content)) [
          | inl live ↦ rw (found, acquire_from, live) refl
          | inr dead ↦ rw (found, acquire_from, dead, same) refl
        ]
      ]

  pub owned_by-lock_body : owned_by me (some (lock_body m me payload)) ≡ true
  owned_by-lock_body = rw (lock_body-pid m (λ _. payload) me) (ground arith)

  -- A lock that was acquired is released by its owner, which leaves no file.
  pub release_lock-acquire_lock :
      (d d' : Disk) (body : Dict Value)
      → acquire_lock m me payload 5 d ≡ some (ok body, d')
      → release_lock me d' ≡ (true, record d' { file = none })
  unfolding release_lock
  release_lock-acquire_lock d d' body e = elim (Bool-cases (lock_is_live m me (read_lock d.file))) [
    | inl live ↦ absurd (refusal (rw live at (sym (acquire_lock_lem d) ∙ e)))
    | inr dead ↦
        let after : d' ≡ taken d = success (rw dead at (sym (acquire_lock_lem d) ∙ e)) in
        rw (after, owned_by-lock_body) refl
  ]
    where
      refusal :
          ◌≡◌ {A = Option (Result (Dict Value) × Disk)}
            (some (raised supervisor_lock_error, d))
            (some (ok body, d'))
          → ⊥
      refusal eq = cc

      success :
          ◌≡◌ {A = Option (Result (Dict Value) × Disk)}
            (some (ok (lock_body m me payload), taken d))
            (some (ok body, d'))
          → d' ≡ taken d
      success eq = ground arith
