-- ===== src/Fetch/Planner.antt =====
-- fetch.py: the protocol of a planner, `ResumePlanner`, and `SequencePlanner` behind the protocol.
use text.Mathlib.Text.{◌==◌ as str_eq}
use datasource_kit.Prelude.{Bool, Option, none, some, String, if◌then◌else◌}
use datasource_kit.Effect.{type_error, validation_error, Result, ok, raised}
use datasource_kit.Worker.Intent.{WorkDirective}
use datasource_kit.Fetch.Cursor.{Cursor, make_cursor}
use datasource_kit.Fetch.Sequence.{FetchPlan, SequencePlanner, bind}
use datasource_kit.Fetch.Sequence

-- what `planner.plan` may hand back: a StepDecision, whose directive and work may be of wrong types
pub data PlanReply (U : Type 0) : Type 0 where
  decision : Option WorkDirective → Option (FetchPlan U) → PlanReply U
  other : PlanReply U

-- what `planner.checkpoint_after` and `advance` may hand back
pub data NextReply : Type 0 where
  nothing : NextReply
  next_cursor : Cursor → NextReply
  other : NextReply

-- `CursorPlanner`; `D` is the type of payloads
pub record CursorPlanner (U D : Type 0) : Type 0 where
  pub plan : Option Cursor → Result (PlanReply U)
  pub checkpoint_after : D → FetchPlan U → Result NextReply

module _ (is_blank : String → Bool) where
  abbrev sequence_reply : {U : Type 0} → Sequence.Planned U → PlanReply U
  sequence_reply Sequence.Planned.stop = decision (some WorkDirective.stop) none
  sequence_reply (Sequence.Planned.fetch f) = decision (some WorkDirective.continue) (some f)

  abbrev sequence_next : Option Cursor → NextReply
  sequence_next none = nothing
  sequence_next (some c) = next_cursor c

  -- `SequencePlanner` as a planner
  abbrev pub sequence_planner : {U D : Type 0} → SequencePlanner U → CursorPlanner U D
  sequence_planner p = record {
    plan = λ c. bind (Sequence.plan is_blank p c) (λ r. ok (sequence_reply r));
    checkpoint_after =
        λ payload f. bind (Sequence.checkpoint_after is_blank p f) (λ c. ok (sequence_next c));
  }

  -- the attributes of a `ResumePlanner`; the refs are the values of the cursors
  pub record ResumePlanner (D : Type 0) : Type 0 where
    pub start : Cursor
    pub advance : D → FetchPlan String → Result NextReply

  module _ {D : Type 0} where
    -- `ResumePlanner(...)`
    unfoldable pub make_resume :
        String → String → (D → FetchPlan String → Result NextReply) → Result (ResumePlanner D)
    make_resume kind start advance =
        bind (make_cursor is_blank kind start) (λ c. ok (record { start = c; advance = advance }))

    abbrev pub start_or : ResumePlanner D → Option Cursor → Cursor
    start_or p none = p.start
    start_or p (some c) = c

    -- `ResumePlanner.plan`
    unfoldable pub resume_plan : ResumePlanner D → Option Cursor → Result (PlanReply String)
    resume_plan p cursor =
        let current = start_or p cursor in
        if str_eq current.kind (p.start).kind
        then ok (
            decision (some WorkDirective.continue)
              (some (record { ref = current.value; cursor = current })))
        else raised validation_error

    -- the tests on what `advance` handed back
    abbrev pub accepted_next : ResumePlanner D → NextReply → Result NextReply
    accepted_next p nothing = ok nothing
    accepted_next p other = raised type_error
    accepted_next p (next_cursor c) =
        if str_eq c.kind (p.start).kind then ok (next_cursor c) else raised validation_error

    -- `ResumePlanner.checkpoint_after`
    unfoldable pub resume_after : ResumePlanner D → D → FetchPlan String → Result NextReply
    resume_after p payload current = bind (p.advance payload current) (accepted_next p)

    abbrev pub resume_planner : ResumePlanner D → CursorPlanner String D
    resume_planner p = record { plan = resume_plan p; checkpoint_after = resume_after p }
