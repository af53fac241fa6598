-- ===== src/Fetch/Intent.antt =====
-- fetch.py: `FetchIntent`, the intent that a worker host drives for a planner and a fetcher.
use datasource_kit.Prelude.{Bool, true, Option, none, some, String, []}
use datasource_kit.Prelude.Dict.{Dict, lookup}
use datasource_kit.Effect.{
  type_error, value_error, key_error, validation_error, Result, ok, raised, Action, pure, lift,
  ◌>>=◌,
}
use datasource_kit.Worker.Intent.{WorkDirective, Planned, OutputReply, Intent}
use datasource_kit.Fetch.Cursor.{Cursor, Field, from_mapping, as_dict}
use datasource_kit.Fetch.Sequence.{FetchPlan, bind}
use datasource_kit.Fetch.Planner.{
  PlanReply, decision, NextReply, nothing, next_cursor, CursorPlanner,
}

-- The objects that pass between the host and the intent: `mapping` is a mapping with opaque values, `wrapped`
-- the mapping whose one key is "payload", `nil` is None as the work of a decision, and `atom` is an
-- object of the consumer.
pub data Obj (U D : Type 0) : Type 0 where
  nil : Obj U D
  atom : D → Obj U D
  field : Field → Obj U D
  fetch_plan : FetchPlan U → Obj U D
  cursor : Cursor → Obj U D
  mapping : Dict Field → Obj U D
  wrapped : Obj U D → Obj U D

-- the attributes of a `FetchIntent`
pub record FetchIntent (U D W : Type 0) : Type 0 where
  pub fetcher : U → Action W (Obj U D)
  pub save : Obj U D → Obj U D → Action W (Unit {0})
  pub planner : CursorPlanner U (Obj U D)
  pub exhausted : WorkDirective

-- `FetchIntent(...)`
unfoldable pub make_intent : {U D W : Type 0} → FetchIntent U D W → Result (FetchIntent U D W)
make_intent i = elim i.exhausted [
  | WorkDirective.stop ↦ ok i
  | WorkDirective.idle ↦ ok i
  | WorkDirective.continue ↦ raised value_error
]

abbrev some_cursor : Result Cursor → Result (Option Cursor)
some_cursor (ok c) = ok (some c)
some_cursor (raised e) = raised e

module _ {U D : Type 0} where
  -- `_require_plan`
  abbrev pub require_plan : Obj U D → Result (FetchPlan U)
  require_plan (fetch_plan f) = ok f
  require_plan _ = raised type_error

  abbrev field_or : Option Field → Result (Obj U D)
  field_or none = raised key_error
  field_or (some f) = ok (field f)

  -- `result["payload"]`
  abbrev pub unwrap : Obj U D → Result (Obj U D)
  unwrap (wrapped x) = ok x
  unwrap (mapping m) = field_or (lookup "payload" m)
  unwrap _ = raised type_error

  -- the checks on the planner's decision
  abbrev pub accepted_plan : PlanReply U → Result (Planned (Obj U D))
  accepted_plan PlanReply.other = raised type_error
  accepted_plan (decision (some WorkDirective.continue) none) = raised type_error
  accepted_plan (decision directive none) =
      ok (Planned.decision (record { directive = directive; work = nil }))
  accepted_plan (decision directive (some f)) =
      ok (Planned.decision (record { directive = directive; work = fetch_plan f }))

  abbrev pub source_output : Obj U D → Cursor → WorkDirective → OutputReply (Obj U D)
  source_output x c directive = OutputReply.output (record {
    result = wrapped x;
    has_mapping = true;
    checkpoint = some (mapping (as_dict c));
    directive = some directive;
  })

  -- the output for what the planner says of the next cursor
  abbrev pub output_for :
      WorkDirective → Obj U D → FetchPlan U → NextReply → Result (OutputReply (Obj U D))
  output_for exhausted x f nothing = ok (source_output x f.cursor exhausted)
  output_for exhausted x f (next_cursor c) = ok (source_output x c WorkDirective.continue)
  output_for exhausted x f NextReply.other = raised type_error

  -- `_cursor_from_checkpoint`
  unfoldable pub cursor_from_checkpoint :
      (String → Bool) → Option (Obj U D) → Result (Option Cursor)
  cursor_from_checkpoint is_blank none = ok none
  cursor_from_checkpoint is_blank (some (cursor c)) = ok (some c)
  cursor_from_checkpoint is_blank (some (mapping m)) = some_cursor (from_mapping is_blank m)
  cursor_from_checkpoint is_blank (some (wrapped x)) = some_cursor (from_mapping is_blank [])
  cursor_from_checkpoint is_blank (some _) = raised validation_error

module _ {U D W : Type 0} (is_blank : String → Bool) (i : FetchIntent U D W) where
  -- `plan`
  unfoldable pub intent_plan : Option (Obj U D) → Result (Planned (Obj U D))
  intent_plan checkpoint =
      bind (cursor_from_checkpoint is_blank checkpoint)
        (λ c. bind ((i.planner).plan c) accepted_plan)

  -- `output`
  unfoldable pub intent_output : Obj U D → Obj U D → Result (OutputReply (Obj U D))
  intent_output transformed plan = bind (require_plan plan) (λ f.
      bind ((i.planner).checkpoint_after transformed f) (output_for i.exhausted transformed f))

  -- `fetch`
  unfoldable pub intent_fetch : Obj U D → Action W (Obj U D)
  intent_fetch plan = do f ← lift (require_plan plan); i.fetcher f.ref

  -- `persist`
  unfoldable pub intent_persist : Obj U D → Obj U D → Action W (Unit {0})
  intent_persist result plan = do x ← lift (unwrap result); i.save x plan

  -- the methods, as the host looks them up; `transform` is the identity, and there is no `checkpoint`
  abbrev pub fetch_intent : Intent (Obj U D) W
  fetch_intent = record {
    plan = λ c. lift (intent_plan c);
    fetch = intent_fetch;
    transform = λ x plan. pure x;
    output = some (λ x plan. lift (intent_output x plan));
    persist = intent_persist;
    checkpoint = none;
  }
