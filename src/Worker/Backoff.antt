-- ===== src/Worker/Backoff.antt =====
-- worker.py: `BackoffPolicy`.
use datasource_kit.Prelude.{
  ℕ, zero, suc, ◌≡◌, Bool, false, ◌||◌, Option, none, some, arith, if◌then◌else◌,
}
use datasource_kit.Prelude.Int.{ℤ, pos, ltb_ℤ}
use datasource_kit.Prelude.Floats.{Floats}
use datasource_kit.Effect.{Result, ok, raised, value_error}

pub record BackoffPolicy (F : Type 0) : Type 0 where
  pub initial_seconds : F
  pub maximum_seconds : F
  pub multiplier : F
  pub idle_seconds : F
  pub max_consecutive_failures : Option ℤ

-- `max_consecutive_failures is not None and max_consecutive_failures < 1`
abbrev pub bad_limit : Option ℤ → Bool
bad_limit none = false
bad_limit (some n) = ltb_ℤ n (pos 1)

module _ (fl : Floats) where
  open fl use {Float, f_zero, f_one, f_lt, f_mul, f_pow, f_lt_irrefl}

  -- `__post_init__`
  unfoldable pub make_policy : BackoffPolicy Float → Result (BackoffPolicy Float)
  make_policy p =
      if f_lt p.initial_seconds f_zero
        || (f_lt p.maximum_seconds f_zero || f_lt p.idle_seconds f_zero)
      then raised value_error
      else if f_lt p.maximum_seconds p.initial_seconds
      then raised value_error
      else if f_lt p.multiplier f_one
      then raised value_error
      else if bad_limit p.max_consecutive_failures
      then raised value_error
      else ok p

  -- the `try` of `delay`: an OverflowError gives the maximum
  unfoldable pub uncapped : BackoffPolicy Float → Option Float → Float
  uncapped p none = p.maximum_seconds
  uncapped p (some power) = f_mul p.initial_seconds power

  -- `min(delay, self.maximum_seconds)`
  unfoldable pub at_most_maximum : BackoffPolicy Float → Float → Float
  at_most_maximum p d = if f_lt p.maximum_seconds d then p.maximum_seconds else d

  unfoldable pub delay : BackoffPolicy Float → ℕ → Result Float
  unfolding uncapped at_most_maximum
  delay p zero = raised value_error
  delay p (suc n) = ok (at_most_maximum p (uncapped p (f_pow p.multiplier n)))

  -- Every delay that `delay` returns is at most `maximum_seconds`, also where the power overflows.
  pub delay-le-maximum :
      (p : BackoffPolicy Float) (failures : ℕ) (d : Float)
      → delay p failures ≡ ok d
      → f_lt p.maximum_seconds d ≡ false
  unfolding delay
  delay-le-maximum p zero d e = cc
  delay-le-maximum p (suc n) d e = ground (arith, f_lt_irrefl p.maximum_seconds)

  -- An overflow of the power is answered by exactly the maximum.
  pub delay_overflow :
      (p : BackoffPolicy Float) (n : ℕ)
      → f_pow p.multiplier n ≡ none
      → delay p (suc n) ≡ ok p.maximum_seconds
  unfolding delay
  delay_overflow p n e = ground (arith, f_lt_irrefl p.maximum_seconds)
