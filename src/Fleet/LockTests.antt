-- ===== src/Fleet/LockTests.antt =====
-- Two supervisors on one host, and a fleet of two units under the file lock.
use datasource_kit.Prelude.{
  ℕ, ◌≡◌, refl, ◌==◌, false, none, some, List, [], ◌∷◌, ◌++◌, if◌then◌else◌, arith,
}
use datasource_kit.Prelude.Int.{pos}
use datasource_kit.Prelude.Floats.{ticks}
use datasource_kit.Prelude.Dict.{Dict, lookup}
use datasource_kit.Effect.{supervisor_lock_error, consumer, ok, raised}
use datasource_kit.Fleet.Json.{Value}
use datasource_kit.Fleet.Lock.{
  Machine, delivered, no_process, Disk, opening, holding, lock_is_live, pid_alive, lock_body,
  read_lock, acquire_lock,
}
use datasource_kit.Fleet.Exclusion.{
  System, schedule, Guarded, schedule-Guarded, exclusion_fails, taken, acquire_lock_lem,
}
use datasource_kit.Fleet.Host.{FleetHost, run_once, reconcile_pass, host_serve, reconcile_all}
use datasource_kit.Fleet.Passes.{host-released, EndsFree}
use datasource_kit.Fleet.FileLock.{DiskOf, file_lock, holds_lock}

-- every process but 9 is alive
abbrev machine : Machine
machine = record {
  hostname = "h";
  kill = λ p. elim p [ pos n ↦ (if n == 9 then no_process else delivered) | _ ↦ no_process ];
  zombie = λ p. false;
  now = Value.other 0;
}

abbrev empty_disk : Disk
empty_disk = record { file = none; next_inode = 0 }

abbrev no_payload : ℕ → Dict Value
no_payload who = []

-- process 1 holds the lock that it wrote, the others are about to open it
abbrev guarded : System
guarded = record {
  disk = record {
    file = some (record { inode = 0; content = some (lock_body machine 1 []) });
    next_inode = 1;
  };
  phase = λ who. if who == 1 then holding else opening;
}

guarded-Guarded :
    Guarded machine no_payload 1
      (record { inode = 0; content = some (lock_body machine 1 []) })
      guarded
guarded-Guarded = record {
  file = refl;
  held = refl;
  others = λ who ne. let apart : (who == 1) ≡ false = ground (arith, ne) in rw apart tt;
}

schedule-Guarded_example :
    Guarded machine no_payload 1
      (record { inode = 0; content = some (lock_body machine 1 []) })
      (schedule machine no_payload (2 ∷ 3 ∷ 2 ∷ 1 ∷ 3 ∷ 2 ∷ []) guarded)
schedule-Guarded_example =
    schedule-Guarded machine no_payload (2 ∷ 3 ∷ 2 ∷ 1 ∷ 3 ∷ 2 ∷ []) 1 0 guarded (omega arith) refl
      refl guarded-Guarded

exclusion_fails_example :
    (order : List ℕ) × ((schedule machine no_payload order
          (record { disk = empty_disk; phase = λ _. opening })).phase
        1
      ≡ holding)
    × ((schedule machine no_payload order
            (record { disk = empty_disk; phase = λ _. opening })).phase
          2
        ≡ holding)
exclusion_fails_example = exclusion_fails machine no_payload 1 2 empty_disk (λ e. omega arith) refl

-- the lock of process 9, which is gone
abbrev dead_disk : Disk
dead_disk = record {
  file = some (record {
    inode = 4;
    content = some (("pid", Value.int (pos 9)) ∷ ("hostname", Value.str "h") ∷ []);
  });
  next_inode = 5;
}

dead : lock_is_live machine 2 (read_lock dead_disk.file) ≡ false
unfolding lock_is_live pid_alive lookup
dead = refl

acquire_lock_lem_example : acquire_lock machine 2 [] 5 dead_disk ≡ (
    if lock_is_live machine 2 (read_lock dead_disk.file)
    then some (raised supervisor_lock_error, dead_disk)
    else some (ok (lock_body machine 2 []), taken machine 2 [] dead_disk))
acquire_lock_lem_example = acquire_lock_lem machine 2 [] dead_disk

-- a fleet of the units 7 and 8, whose second reconciliation fails
record Yard : Type 0 where
  lock : Disk
  seen : List ℕ

abbrev yard_disk : DiskOf Yard
yard_disk = record {
  disk = λ w. w.lock;
  set_disk = λ d w. record w { lock = d };
  disk-set_disk = λ d w. refl;
  set_disk_self = λ w. refl;
}

abbrev host : FleetHost ℕ Yard ℕ ℕ ℕ (Dict Value)
host = record {
  units = 7 ∷ 8 ∷ [];
  admit = λ us w. (ok 1, w);
  reconcile =
      λ u w. (if u == 8 then raised (consumer 0) else ok u, record w { seen = w.seen ++ (u ∷ []) });
  lock_payload = none;
  sleep = λ d w. (ok tt, w);
}

abbrev yard : Yard
yard = record { lock = dead_disk; seen = [] }

host-released_example :
    (holds_lock yard_disk machine 2 (run_once ticks (file_lock yard_disk machine 2) host yard).1
      ≡ false)
    × EndsFree
        (file_lock yard_disk machine 2)
        (host_serve ticks (file_lock yard_disk machine 2) host 3 5 none none yard)
unfolding lookup
host-released_example =
    host-released (file_lock yard_disk machine 2) ticks host (λ f w e free. cc) 3 5 none none yard
      refl

both_seen :
    reconcile_pass ticks (file_lock yard_disk machine 2) host yard
    ≡ (raised (consumer 0), record yard { seen = 7 ∷ 8 ∷ [] })
unfolding reconcile_pass reconcile_all
both_seen = refl
