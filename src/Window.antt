-- ===== src/Window.antt =====
-- window.py: the split of an inclusive range of dates into days. A date is its ordinal, from 1
-- (date.min) to 3652059 (date.max); a step beyond either raises OverflowError.
pub mod Cover
mod Tests
use text.Mathlib.Text.{◌==◌ as str_eq}
use datasource_kit.Prelude.{
  ℕ, zero, suc, ◌+◌, ◌-◌, Bool, true, false, Option, none, some, String, List, [], ◌∷◌, leb, ltb,
  if◌then◌else◌,
}
use datasource_kit.Effect.{Exn, value_error, overflow_error, Result, ok, raised}

pub data WindowOrder : Type 0 where
  oldest_first newest_first : WindowOrder

pub record DayWindow : Type 0 where
  pub start : ℕ
  pub end : ℕ

-- `WindowOrder(order)`
abbrev pub parse_order : String → Result WindowOrder
parse_order order =
    if str_eq order "oldest_first"
    then ok oldest_first
    else if str_eq order "newest_first"
    then ok newest_first
    else raised value_error

abbrev pub date_max : ℕ
date_max = 3652059

-- `current + timedelta(days=1)` and `current - timedelta(days=1)`
abbrev pub next_day : ℕ → Result ℕ
next_day d = if ltb d date_max then ok (d + 1) else raised overflow_error

abbrev pub previous_day : ℕ → Result ℕ
previous_day d = if ltb 1 d then ok (d - 1) else raised overflow_error

-- what a generator has yielded when it ends, and how it ends; `none` has not ended yet
abbrev pub Generated : Type 0
Generated = Option (List DayWindow × Result (Unit {0}))

abbrev pub day : ℕ → DayWindow
day d = record { start = d; end = d }

abbrev after_yield : ℕ → Generated → Generated
after_yield d none = none
after_yield d (some (ws, r)) = some (day d ∷ ws, r)

-- a yield, and the step to the next date
abbrev pub yield_then : ℕ → Result ℕ → (ℕ → Generated) → Generated
yield_then d (raised e) rest = some (day d ∷ [], raised e)
yield_then d (ok n) rest = after_yield d (rest n)

-- the two loops, on fuel
unfoldable pub upwards : ℕ → ℕ → ℕ → Generated
upwards zero current last = none
upwards (suc fuel) current last = elim (leb current last) [
  | true ↦ yield_then current (next_day current) (λ n. upwards fuel n last)
  | false ↦ some ([], ok tt)
]

unfoldable pub downwards : ℕ → ℕ → ℕ → Generated
downwards zero current first = none
downwards (suc fuel) current first = elim (leb first current) [
  | true ↦ yield_then current (previous_day current) (λ n. downwards fuel n first)
  | false ↦ some ([], ok tt)
]

abbrev pub walk : ℕ → ℕ → ℕ → WindowOrder → Generated
walk fuel start end newest_first = downwards fuel end start
walk fuel start end oldest_first = upwards fuel start end

-- `split_range_into_days`
unfoldable pub split_range_into_days : ℕ → ℕ → ℕ → String → Generated
split_range_into_days fuel start end order = elim (parse_order order) [
  | raised e ↦ some ([], raised e)
  | ok direction ↦ if ltb end start then some ([], ok tt) else walk fuel start end direction
]
