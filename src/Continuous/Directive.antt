-- ===== src/Continuous/Directive.antt =====
-- continuous.py: the values that the host and its callbacks exchange.
use datasource_kit.Prelude.{ℕ, Bool, true, false, Option, none, some, String, if◌then◌else◌}
use datasource_kit.Prelude.Floats.{Floats}
use datasource_kit.Effect.{Result, ok, raised, value_error}

pub data LoopAction : Type 0 where
  continue wait stop : LoopAction

pub data BoundaryAction : Type 0 where
  keep rotate : BoundaryAction

pub record LoopDirective (F : Type 0) : Type 0 where
  pub action : LoopAction
  pub boundary : BoundaryAction
  pub delay : Option F
  pub counted : Bool
  pub reason : String

pub record LoopContext : Type 0 where
  pub sequence : ℕ
  pub counted : ℕ
  pub attempts_in_boundary : ℕ
  pub repeated_wait : Bool

pub record LoopRun (F : Type 0) : Type 0 where
  pub sequence : ℕ
  pub counted : ℕ
  pub attempts_in_boundary : ℕ
  pub last_directive : Option (LoopDirective F)

-- `directive.boundary is BoundaryAction.ROTATE`
abbrev pub is_rotate : BoundaryAction → Bool
is_rotate rotate = true
is_rotate keep = false

abbrev pub is_wait : LoopAction → Bool
is_wait wait = true
is_wait _ = false

abbrev pub is_stop : LoopAction → Bool
is_stop stop = true
is_stop _ = false

module _ (fl : Floats) where
  open fl use {Float, f_zero, f_lt}

  -- `delay is not None and delay < 0`
  abbrev pub negative_delay : Option Float → Bool
  negative_delay none = false
  negative_delay (some d) = f_lt d f_zero

  -- `LoopDirective(...)` with `__post_init__`. The two type tests hold of any value of the enums.
  unfoldable pub make_directive : LoopDirective Float → Result (LoopDirective Float)
  make_directive d = if negative_delay d.delay then raised value_error else ok d

-- What a callback hands back, before `_require_directive` has looked at it.
pub data Returned (F : Type 0) : Type 0 where
  directive : LoopDirective F → Returned F
  nothing : Returned F
  other : Returned F
