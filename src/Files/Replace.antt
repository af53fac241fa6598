-- ===== src/Files/Replace.antt =====
-- worker.py: `FileCheckpointStore`, system call by system call, and what a crash or another thread may
-- find between two of them. `C` is the type of the JSON values.
use datasource_kit.Prelude.{ℕ, ◌==◌, Option, none, some, List, [], ◌∷◌, if◌then◌else◌}
use datasource_kit.Effect.{Exn, Result, ok, raised}

-- what a file holds: the whole text of a value with its line end, or less than that
pub data File (C : Type 0) : Type 0 where
  partial : File C
  whole : C → File C

-- The target, and the temporary files, one for each thread of each process: the name of a temporary file
-- holds the process and the thread, here one number.
pub record Disk (C : Type 0) : Type 0 where
  pub target : Option (File C)
  pub temps : ℕ → Option (File C)

-- Where a thread stands in `save`: before `mkdir`, `open`, `dump` with `write`, `flush`, `fsync` and
-- `replace`, in the `finally`, and after it.
pub data Phase : Type 0 where
  entering opening dumping flushing syncing replacing : Phase
  cleaning : Result (Unit {0}) → Phase
  ended : Result (Unit {0}) → Phase

module _ {C : Type 0} where
  abbrev pub put_temp : ℕ → Option (File C) → Disk C → Disk C
  put_temp me f d = record d { temps = λ who. if who == me then f else d.temps who }

  -- `temporary.unlink()`, where a missing file is no error
  abbrev pub unlink : ℕ → Option Exn → Result (Unit {0}) → Option (File C) → Disk C → Phase × Disk C
  unlink me (some e) r _ d = (ended (raised e), d)
  unlink me none r none d = (ended r, d)
  unlink me none r (some f) d = (ended r, put_temp me none d)

  -- the next call of the thread `me`; `fault` is what it raises, which skips to the `finally`
  unfoldable pub step : C → ℕ → Option Exn → Phase → Disk C → Phase × Disk C
  step c me none entering d = (opening, d)
  step c me (some e) entering d = (ended (raised e), d)
  step c me none opening d = (dumping, put_temp me (some partial) d)
  step c me none dumping d = (flushing, d)
  step c me none flushing d = (syncing, put_temp me (some (whole c)) d)
  step c me none syncing d = (replacing, d)
  step c me none replacing d =
      (cleaning (ok tt), record (put_temp me none d) { target = d.temps me })
  step c me fault (cleaning r) d = unlink me fault r (d.temps me) d
  step c me fault (ended r) d = (ended r, d)
  step c me (some e) _ d = (cleaning (raised e), d)

  -- `FileCheckpointStore.load`, where `parse` is `json.load`
  unfoldable pub load : (File C → Result C) → Option (File C) → Result (Option C)
  load parse none = ok none
  load parse (some f) = elim (parse f) [ ok c ↦ ok (some c) | raised e ↦ raised e ]

  -- `InMemoryCheckpointStore`: its world is the attribute
  abbrev pub memory_load : Option C → Result (Option C) × Option C
  memory_load c = (ok c, c)

  abbrev pub memory_save : Option C → Option C → Result (Unit {0}) × Option C
  memory_save c old = (ok tt, c)

-- the threads that save, and the disk
pub record System (C : Type 0) : Type 0 where
  pub disk : Disk C
  pub phase : ℕ → Phase

module _ {C : Type 0} (payload : ℕ → C) where
  unfoldable pub advance : ℕ → Option Exn → System C → System C
  advance me fault s =
      let (p, d) = step (payload me) me fault (s.phase me) s.disk in
      record { disk = d; phase = λ who. if who == me then p else s.phase who }

  -- the calls of all threads in the order in which they happen; a crash is the end of the list
  unfoldable pub schedule : List (ℕ × Option Exn) → System C → System C
  unfolding advance
  schedule [] s = s
  schedule ((me, fault) ∷ rest) s = schedule rest (advance me fault s)
