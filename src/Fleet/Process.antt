-- ===== src/Fleet/Process.antt =====
-- fleet/process.py: the launch through the exec gate, the tombstone fence, stop and clearance.
use datasource_kit.Prelude.{
  ℕ, ◌+◌, Bool, true, false, ◌||◌, Option, none, some, String, [], ◌∷◌, if◌then◌else◌,
}
use datasource_kit.Prelude.Int.{ℤ, pos}
use datasource_kit.Prelude.Dict.{Dict, contains, insert, update, remove}
use datasource_kit.Effect.{
  value_error, os_error, tombstone_error, Result, ok, raised, Action, pure, lift, ◌>>=◌, ◌>>◌,
}
use datasource_kit.Fleet.Json.{Value, Runtime}
use datasource_kit.Fleet.World.{PidFile, Child, World, touch, modify, ensure_unit_dir, write_pid}

-- The fields that a launch reads. A path stands for the file that is opened in append mode.
pub record ProcessSpec : Type 0 where
  pub unit : String
  pub command : Value
  pub env : Option (Dict String)
  pub label : String
  pub stdout_path : Option String
  pub stderr_path : Option String
  pub env_overlay : Dict String
  pub generation_env : Option String
  pub pid_metadata : Dict Value

pub record SpawnResult : Type 0 where
  pub pid : ℕ
  pub alive : Bool
  pub token : Option String
  pub generation : Option ℤ

pub record StopResult : Type 0 where
  pub pid : ℤ
  pub signalled : Bool
  pub killed : Bool
  pub cleaned : Bool

-- `_STANDARD_PID_KEYS.intersection(metadata)` is not empty
abbrev pub collides : Dict Value → Bool
collides d =
    contains "pid" d || (contains "command" d || (contains "started_at" d || contains "label" d))

abbrev int_or_null : Option ℤ → Value
int_or_null none = Value.null
int_or_null (some n) = Value.int n

-- `_pid_payload(spec, SpawnResult(0, 0.0, False))`; `zero_time` is 0.0
unfoldable pub pid_payload : Value → ProcessSpec → Result (Dict Value)
unfolding update insert
pid_payload zero_time spec =
    if collides spec.pid_metadata
    then raised value_error
    else ok (
        update
          (("pid", Value.int (pos 0))
            ∷ ("command", spec.command)
            ∷ ("started_at", zero_time)
            ∷ ("label", Value.str spec.label)
            ∷ [])
          spec.pid_metadata)

-- `payload.update(pid=..., started_at=..., unit=..., generation=..., token=..., incarnation=...,
-- status=...)`
abbrev pub provenance :
    Dict Value → Value → Value → String → Option ℤ → String → String → Dict Value
provenance template pid started unit generation token status = update template (
    ("pid", pid)
    ∷ ("started_at", started)
    ∷ ("unit", Value.str unit)
    ∷ ("generation", int_or_null generation)
    ∷ ("token", Value.str token)
    ∷ ("incarnation", Value.str token)
    ∷ ("status", Value.str status)
    ∷ [])

abbrev or_environ : Option (Dict String) → Dict String → Dict String
or_environ none inherited = inherited
or_environ (some env) inherited = env

abbrev with_generation : Option ℤ → Option String → Runtime → Dict String → Dict String
with_generation (some n) (some key) rt env = insert key (rt.str_of (Value.int n)) env
with_generation _ _ rt env = env

-- the environment that `spawn` composes
abbrev pub child_env : Runtime → ProcessSpec → Option ℤ → Dict String → Dict String
child_env rt spec generation inherited =
    with_generation generation spec.generation_env rt
      (update (or_environ spec.env inherited) spec.env_overlay)

-- the consumer's environment once `_exec_gate` has popped its two variables
abbrev pub gate_env : Dict String → Dict String
gate_env env = remove "DATASOURCE_KIT_EXEC_COMMAND" (remove "DATASOURCE_KIT_ACK_FD" env)

-- the next child, if the operating system makes one
unfoldable pub next_child : Action World Child
next_child w = elim w.children [
  | [] ↦ (raised os_error, w)
  | c ∷ cs ↦ (ok c, record w { children = cs })
]

-- sending the ACK lets the gate execute the consumer
unfoldable pub acknowledge : Child → Dict String → Action World (Unit {0})
acknowledge c env = do modify (λ w. record w { executed = gate_env env ∷ w.executed }); lift c.ack

-- `_OWNED_HANDLES`: the handle of a launched child, and its retirement
abbrev pub own : String → ℕ → World → World
own token pid w = record w { owned = insert token pid w.owned }

abbrev pub disown : String → World → World
disown token w = record w { owned = remove token w.owned }

-- the probe window after the ACK
unfoldable pub probe : Child → ℕ → String → Option ℤ → Action World SpawnResult
probe c pid token generation =
    let result : Bool → SpawnResult =
      λ alive. record { pid = pid; alive = alive; token = some token; generation = generation } in
    if c.survives then pure (result true) else (modify (disown token) >> pure (result false))

-- what follows READY: the provenance is durable before the ACK
unfoldable pub gated :
    Child
    → ℕ
    → (ℕ → Value → String → Action World (Unit {0}))
    → Dict String
    → Option ℤ
    → String
    → Action World SpawnResult
gated c pid persist env generation token = do
  persist pid c.started_at token
  modify (own token pid)
  acknowledge c env
  probe c pid token generation

-- a wrapper that does not say READY is left alone
unfoldable pub after_hello :
    Child
    → ℕ
    → Bool
    → (ℕ → Value → String → Action World (Unit {0}))
    → Dict String
    → Option ℤ
    → String
    → Action World SpawnResult
after_hello c pid ready persist env generation token =
    if ready
    then gated c pid persist env generation token
    else pure (record { pid = pid; alive = false; token = none; generation = none })

-- `spawn_process`, as `spawn` calls it
unfoldable pub spawn_process :
    (ℕ → Value → String → Action World (Unit {0}))
    → Dict String
    → Option ℤ
    → String
    → Action World SpawnResult
spawn_process persist env generation token = do
  c ← next_child
  pid ← lift c.popen
  ready ← lift c.ready
  after_hello c pid ready persist env generation token

-- the fence: `os.lstat` of pid.json
abbrev pub fence : PidFile → Result (Unit {0})
fence PidFile.absent = ok tt
fence PidFile.unreadable = raised tombstone_error
fence (PidFile.present _) = raised tombstone_error

abbrev pub read_pid_file : Action World PidFile
read_pid_file w = (ok w.pid_file, w)

-- the launch intent: the file is created, then written, then the directory is synced
unfoldable pub write_intent : Dict Value → Action World (Unit {0})
write_intent intent = do
  touch
  modify (λ w. record w { pid_file = PidFile.present none })
  touch
  modify (λ w. record w { pid_file = PidFile.present (some intent) })
  touch

-- `open_stream(Path(...)) if path else None`
unfoldable pub open_stream : Option String → Action World (Unit {0})
open_stream none = pure tt
open_stream (some path) = touch

unfoldable pub open_streams : ProcessSpec → Action World (Unit {0})
open_streams spec = do open_stream spec.stdout_path; open_stream spec.stderr_path

unfoldable pub mint_token : Runtime → Action World String
mint_token rt w = (ok (rt.uuid_hex w.minted), record w { minted = w.minted + 1 })

abbrev pub environ_of : Action World (Dict String)
environ_of w = (ok w.environ, w)

module _ (rt : Runtime) (zero_time : Value) where
  -- the environment, the streams and the child, once the intent is durable
  unfoldable pub start_child :
      ProcessSpec → Option ℤ → Dict Value → String → Action World SpawnResult
  start_child spec generation template token = do
    inherited ← environ_of
    open_streams spec
    spawn_process
        (λ pid started given. write_pid (
          provenance template (Value.int (pos pid)) started spec.unit generation given
            "running_or_unknown"))
        (child_env rt spec generation inherited) generation token

  abbrev pub launch_intent : ProcessSpec → Option ℤ → Dict Value → String → Dict Value
  launch_intent spec generation template token =
      provenance template Value.null Value.null spec.unit generation token "launch_intent"

  -- what `spawn` does behind the fence and after the checks
  unfoldable pub launch : ProcessSpec → Option ℤ → Dict Value → Action World SpawnResult
  launch spec generation template = do
    token ← mint_token rt
    write_intent (launch_intent spec generation template token)
    start_child spec generation template token

  unfoldable pub spawn : ProcessSpec → Option ℤ → Action World SpawnResult
  spawn spec generation = do
    ensure_unit_dir
    found ← read_pid_file
    lift (fence found)
    template ← lift (pid_payload zero_time spec)
    launch spec generation template
