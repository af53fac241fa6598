-- ===== src/Fleet/Stop.antt =====
-- fleet/process.py: the cooperative stop, and the operator's clearance of a tombstone.
use text.Mathlib.Text.{◌==◌ as str_eq}
use datasource_kit.Prelude.{
  ℕ, Bool, true, false, ◌&&◌, not, Option, none, some, String, [], ◌∷◌, if◌then◌else◌,
}
use datasource_kit.Prelude.Int.{ℤ, pos}
use datasource_kit.Prelude.Dict.{Dict, lookup, insert}
use datasource_kit.Effect.{tombstone_error, Result, ok, raised, Action, pure, lift, ◌>>=◌, ◌>>◌}
use datasource_kit.Fleet.Json.{Value, null, str, Runtime, get, is_text, is_int, to_int}
use datasource_kit.Fleet.World.{
  PidFile, absent, present, World, touch, modify, ensure_unit_dir, write_pid,
}
use datasource_kit.Fleet.Process.{StopResult, disown}

-- `read_json(pid.json)`
abbrev pub content : PidFile → Option (Dict Value)
content (present d) = d
content _ = none

-- the handle that the token names, if the token is a text
abbrev pub handle_of : Value → Dict ℕ → Option ℕ
handle_of (str token) owned = lookup token owned
handle_of _ owned = none

-- TERM goes only through a live handle whose pid is the recorded one
abbrev pub usable : World → Value → ℕ → Bool
usable w recorded pid = is_int (pos pid) recorded && not (w.exited pid)

abbrev retire : Value → World → World
retire (str token) w = disown token w
retire _ w = w

unfoldable pub signal : Value → Value → Action World Bool
signal token recorded w = elim (handle_of token w.owned) [
  | none ↦ (ok false, w)
  | some pid ↦
      if usable w recorded pid
      then (ok true, record w { terminated = pid ∷ w.terminated })
      else (ok false, retire token w)
]

-- the three marks that `stop` leaves
abbrev pub mark_stopped : Dict Value → Dict Value
mark_stopped d = insert "status" (str "stop_requested_or_unknown") (
    insert "operator_verification_required" (Value.boolean true)
      (insert "stop_requested" (Value.boolean true) d))

-- `int(pid or 0)`, where None, False, 0 and the empty text are false
abbrev pub falsy : Value → Bool
falsy null = true
falsy (Value.boolean b) = not b
falsy (Value.int n) = is_int (pos 0) (Value.int n)
falsy (str s) = str_eq s ""
falsy (Value.other _) = false

abbrev pub int_or_zero : Runtime → Value → Result ℤ
int_or_zero rt v = if falsy v then ok (pos 0) else to_int rt v

abbrev require : Option (Dict Value) → Result (Dict Value)
require none = raised tombstone_error
require (some d) = ok d

abbrev pid_content : Action World (Option (Dict Value))
pid_content w = (ok (content w.pid_file), w)

unfoldable pub stop : Runtime → Action World StopResult
stop rt = do
  found ← pid_content
  data_of ← lift (require found)
  signalled ← signal (get data_of "token") (get data_of "pid")
  write_pid (mark_stopped data_of)
  pid ← lift (int_or_zero rt (get data_of "pid"))
  pure (record { pid = pid; signalled = signalled; killed = false; cleaned = false })

-- the arguments of `clear_process_tombstone`
pub record Clearance : Type 0 where
  pub unit : String
  pub generation : ℤ
  pub token : String
  pub workload_fully_gone_asserted : Bool
  pub operator : String
  pub cleared_at : Value

abbrev pub matches : Clearance → Dict Value → Bool
matches c d =
    is_text c.unit (get d "unit")
    && (is_int c.generation (get d "generation") && is_text c.token (get d "token"))

abbrev check : Clearance → Dict Value → Result (Unit {0})
check c d = if matches c d then ok tt else raised tombstone_error

abbrev asserted : Clearance → Result (Unit {0})
asserted c = if c.workload_fully_gone_asserted then ok tt else raised tombstone_error

abbrev pub audit_record : Clearance → Dict Value
audit_record c =
    ("unit", str c.unit)
    ∷ ("generation", Value.int c.generation)
    ∷ ("token", str c.token)
    ∷ ("operator", str c.operator)
    ∷ ("asserted_workload_fully_gone", Value.boolean true)
    ∷ ("cleared_at", c.cleared_at)
    ∷ []

-- the audit line is durable before the file is unlinked; the sync of the directory comes last
unfoldable pub unlink_audited : Clearance → Action World (Unit {0})
unlink_audited c = do
  touch
  modify (λ w. record w { audit = audit_record c ∷ w.audit })
  touch
  modify (λ w. record w { pid_file = absent })
  touch
  modify (disown c.token)

unfoldable pub clear_process_tombstone : Clearance → Action World (Unit {0})
clear_process_tombstone c = do
  lift (asserted c)
  ensure_unit_dir
  touch
  found ← pid_content
  data_of ← lift (require found)
  lift (check c data_of)
  unlink_audited c
