-- ===== src/Fleet/Lock.antt =====
-- fleet/state.py: the exclusive supervisor lock, a file made by O_EXCL. Each system call of
-- `acquire_lock` is one step, since other processes act between them.
use datasource_kit.Prelude.{
  ℕ, zero, suc, ◌+◌, ◌==◌, Bool, true, false, not, Option, none, some, String, if◌then◌else◌,
}
use datasource_kit.Prelude.Int.{ℤ, pos, leb_ℤ}
use datasource_kit.Prelude.Dict.{Dict, contains, insert}
use datasource_kit.Effect.{supervisor_lock_error, Result, ok, raised}
use datasource_kit.Fleet.Json.{Value, get, is_text, is_int, as_int}

-- what `os.kill(pid, 0)` does
pub data Kill : Type 0 where
  delivered no_process denied failed : Kill

-- one host: its name, its processes, and the clock; `zombie` is `_pid_is_zombie`, which asks ps
pub record Machine : Type 0 where
  pub hostname : String
  pub kill : ℤ → Kill
  pub zombie : ℤ → Bool
  pub now : Value

abbrev probed : Kill → Bool → Bool
probed delivered zombie = not zombie
probed no_process zombie = false
probed denied zombie = not zombie
probed failed zombie = false

-- `_pid_alive`
unfoldable pub pid_alive : Machine → ℤ → Bool
pid_alive m pid = if leb_ℤ pid (pos 0) then false else probed (m.kill pid) (m.zombie pid)

-- the tests on a lock whose pid is an int
abbrev pub judged : Machine → ℕ → Dict Value → ℤ → Bool
judged m me owner pid =
    if is_int (pos me) (Value.int pid)
    then false
    else if not (is_text m.hostname (get owner "hostname"))
    then true
    else pid_alive m pid

abbrev judged_pid : Machine → ℕ → Dict Value → Option ℤ → Bool
judged_pid m me owner none = false
judged_pid m me owner (some pid) = judged m me owner pid

-- `lock_is_live`, asked by the process `me`
unfoldable pub lock_is_live : Machine → ℕ → Option (Dict Value) → Bool
lock_is_live m me none = false
lock_is_live m me (some owner) = judged_pid m me owner (as_int (get owner "pid"))

-- `body.setdefault("started_at", time.time())`
abbrev set_default : String → Value → Dict Value → Dict Value
set_default key v d = if contains key d then d else insert key v d

-- the body that `acquire_lock` writes
unfoldable pub lock_body : Machine → ℕ → Dict Value → Dict Value
lock_body m me payload =
    insert "hostname" (Value.str m.hostname)
      (insert "pid" (Value.int (pos me)) (set_default "started_at" m.now payload))

-- the lock file: its inode, and what `read_json` gives for it; it is empty until it is written
pub record LockFile : Type 0 where
  pub inode : ℕ
  pub content : Option (Dict Value)

pub record Disk : Type 0 where
  pub file : Option LockFile
  pub next_inode : ℕ

-- where a process stands in `acquire_lock`
pub data Phase : Type 0 where
  opening judging unlinking : Phase
  writing : ℕ → Phase
  holding refused : Phase

-- `os.open` with O_CREAT and O_EXCL
abbrev pub open_exclusive : Disk → Phase × Disk
open_exclusive d = elim d.file [
  | none ↦ (
    writing d.next_inode,
    record {
      file = some (record { inode = d.next_inode; content = none });
      next_inode = d.next_inode + 1;
    },
  )
  | some _ ↦ (judging, d)
]

-- `read_json(lock_path)`
abbrev pub read_lock : Option LockFile → Option (Dict Value)
read_lock none = none
read_lock (some f) = f.content

-- the body goes to the opened inode, which another process may have unlinked
abbrev pub write_body : ℕ → Dict Value → Option LockFile → Option LockFile
write_body i body none = none
write_body i body (some f) =
    if f.inode == i then some (record f { content = some body }) else some f

-- one system call of `acquire_lock`
unfoldable pub step : Machine → ℕ → Dict Value → Phase → Disk → Phase × Disk
step m me payload opening d = open_exclusive d
step m me payload judging d =
    (if lock_is_live m me (read_lock d.file) then refused else unlinking, d)
step m me payload unlinking d = (opening, record d { file = none })
step m me payload (writing i) d =
    (holding, record d { file = write_body i (lock_body m me payload) d.file })
step m me payload holding d = (holding, d)
step m me payload refused d = (refused, d)

-- `acquire_lock` with no other process in between, on fuel
unfoldable pub acquire_from :
    Machine → ℕ → Dict Value → ℕ → Phase → Disk → Option (Result (Dict Value) × Disk)
acquire_from m me payload fuel holding d = some (ok (lock_body m me payload), d)
acquire_from m me payload fuel refused d = some (raised supervisor_lock_error, d)
acquire_from m me payload zero p d = none
acquire_from m me payload (suc fuel) p d =
    let (p', d') = step m me payload p d in acquire_from m me payload fuel p' d'

abbrev pub acquire_lock : Machine → ℕ → Dict Value → ℕ → Disk → Option (Result (Dict Value) × Disk)
acquire_lock m me payload fuel d = acquire_from m me payload fuel opening d

-- the test of `release_lock`: only the owner unlinks
abbrev pub owned_by : ℕ → Option (Dict Value) → Bool
owned_by me none = false
owned_by me (some owner) = is_int (pos me) (get owner "pid")

-- `release_lock`
unfoldable pub release_lock : ℕ → Disk → Bool × Disk
release_lock me d =
    if owned_by me (read_lock d.file) then (true, record d { file = none }) else (false, d)
