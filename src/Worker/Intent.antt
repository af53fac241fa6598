-- ===== src/Worker/Intent.antt =====
-- worker.py: what the host and the consumer's intent exchange. `O` is the type of opaque objects;
-- a checkpoint is `None` or an object.
use datasource_kit.Prelude.{ℕ, Bool, Option, String}
use datasource_kit.Effect.{Exn, Action}

pub data WorkDirective : Type 0 where
  continue idle stop : WorkDirective

-- `directive` is `none` for a value that is no WorkDirective
pub record StepDecision (O : Type 0) : Type 0 where
  pub directive : Option WorkDirective
  pub work : O

pub record WorkerStep (O : Type 0) : Type 0 where
  pub plan : O
  pub checkpoint : Option O

-- `has_mapping` is `isinstance(result, Mapping)`
pub record SourceOutput (O : Type 0) : Type 0 where
  pub result : O
  pub has_mapping : Bool
  pub checkpoint : Option O
  pub directive : Option WorkDirective

-- what `intent.plan` may hand back
pub data Planned (O : Type 0) : Type 0 where
  nothing : Planned O
  legacy : WorkerStep O → Planned O
  decision : StepDecision O → Planned O
  other : Planned O

-- what `intent.output` may hand back
pub data OutputReply (O : Type 0) : Type 0 where
  output : SourceOutput O → OutputReply O
  other : OutputReply O

-- `output` and `checkpoint` are looked up by `getattr(..., None)`
pub record Intent (O W : Type 0) : Type 0 where
  pub plan : Option O → Action W (Planned O)
  pub fetch : O → Action W O
  pub transform : O → O → Action W O
  pub output : Option (O → O → Action W (OutputReply O))
  pub persist : O → O → Action W Unit
  pub checkpoint : Option (O → O → Action W (Option O))

pub record CheckpointStore (O W : Type 0) : Type 0 where
  pub load : Action W (Option O)
  pub save : Option O → Action W Unit

-- `error` stands for the text that names the exception
pub record WorkerHeartbeat (F O : Type 0) : Type 0 where
  pub state : String
  pub timestamp : String
  pub checkpoint : Option O
  pub completed : ℕ
  pub failures : ℕ
  pub consecutive_failures : ℕ
  pub error : Option Exn
  pub retry_in : Option F

pub record WorkerRun (O : Type 0) : Type 0 where
  pub checkpoint : Option O
  pub completed : ℕ
  pub failures : ℕ
  pub iterations : ℕ
