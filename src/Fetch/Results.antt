-- ===== src/Fetch/Results.antt =====
-- results.py: `WorkerResult` and its three constructors. `O` is the type of opaque objects; a checkpoint is
-- None or an object.
use datasource_kit.Prelude.{
  ◌≡◌, Bool, true, false, ◌||◌, Option, none, some, String, List, [], arith, if◌then◌else◌,
}
use datasource_kit.Prelude.Dict.{Dict}
use datasource_kit.Prelude.Int.{ℤ}
use datasource_kit.Effect.{validation_error, Result, ok, raised}
use datasource_kit.Fetch.Cursor.{Cursor, make_cursor}
use datasource_kit.Fetch.Sequence.{bind}

pub record WorkerResult (O : Type 0) : Type 0 where
  pub status : String
  pub checkpoint : Option O
  pub objects : List O
  pub cursor : Option Cursor
  pub follow_up_jobs : List O
  pub counts : Dict ℤ
  pub reason : String

abbrev pub is_raised : {A : Type 0} → Result A → Bool
is_raised (ok a) = false
is_raised (raised e) = true

-- `not value.strip()`
module _ (is_blank : String → Bool) where
  -- `_require_text`, for a text
  unfoldable pub require_text : String → Result String
  require_text value = if is_blank value then raised validation_error else ok value

module _ (is_blank : String → Bool) {O : Type 0} where
  -- `WorkerResult(...)` with `__post_init__`
  unfoldable pub make_result : WorkerResult O → Result (WorkerResult O)
  make_result r = bind (require_text is_blank r.status) (λ _. ok r)

  -- the defaults of the fields
  abbrev pub with_status : String → WorkerResult O
  with_status status = record {
    status = status;
    checkpoint = none;
    objects = [];
    cursor = none;
    follow_up_jobs = [];
    counts = [];
    reason = "";
  }

  -- `working_result`
  unfoldable pub working_result :
      String → String → String → Option O → List O → Result (WorkerResult O)
  working_result status cursor_kind cursor_value checkpoint objects =
      bind (require_text is_blank status) (λ s.
        bind (make_cursor is_blank cursor_kind cursor_value) (λ c.
          make_result (record (with_status s) {
            checkpoint = checkpoint;
            objects = objects;
            cursor = some c;
          })))

  -- `blocked_result`
  unfoldable pub blocked_result : String → String → Result (WorkerResult O)
  blocked_result status reason = bind (require_text is_blank status) (λ s.
      bind (require_text is_blank reason)
        (λ r. make_result (record (with_status s) { reason = r })))

  -- `completed_result`
  unfoldable pub completed_result : String → Option O → Result (WorkerResult O)
  completed_result status checkpoint =
      bind (require_text is_blank status)
        (λ s. make_result (record (with_status s) { checkpoint = checkpoint }))

  -- The three constructors raise exactly where one of their texts is blank.
  pub results_refuse_blanks :
      (status kind value reason : String) (checkpoint : Option O) (objects : List O)
      → (is_raised (working_result status kind value checkpoint objects)
          ≡ (is_blank status || (is_blank kind || is_blank value)))
        × (is_raised (blocked_result status reason) ≡ (is_blank status || is_blank reason))
        × (is_raised (completed_result status checkpoint) ≡ is_blank status)
  unfolding working_result blocked_result completed_result make_result require_text make_cursor
  results_refuse_blanks status kind value reason checkpoint objects =
      (ground arith, ground arith, ground arith)
