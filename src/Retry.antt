-- ===== src/Retry.antt =====
-- retry.py: `retry` with its delays. `fn`, `time.sleep` and the tuple `retry_on` are arguments.
pub mod Outcome
mod Tests
use text.Mathlib.Text.{◌==◌ as str_eq}
use datasource_kit.Prelude.{
  ℕ, zero, suc, ◌+◌, ◌^◌, Bool, Option, none, some, String, ◌==◌, if◌then◌else◌,
}
use datasource_kit.Prelude.Int.{ℤ, pos_part}
use datasource_kit.Prelude.Floats.{Floats}
use datasource_kit.Effect.{
  Exn, assertion_error, overflow_error, Result, ok, raised, Action, raise, lift, ◌>>=◌, ◌>>◌,
}

-- the keyword arguments of `retry`
pub record RetryPolicy (F : Type 0) : Type 0 where
  pub retries : ℤ
  pub backoff_seconds : F
  pub backoff : String
  pub max_backoff_seconds : Option F
  pub retry_on : Exn → Bool

module _ (fl : Floats) where
  open fl use {Float, f_lt, f_mul_int}

  -- `min(delay, cap)`, if there is a cap
  unfoldable pub capped : Option Float → Float → Float
  capped none delay = delay
  capped (some cap) delay = if f_lt cap delay then cap else delay

  abbrev or_overflow : Option Float → Result Float
  or_overflow none = raised overflow_error
  or_overflow (some x) = ok x

  -- any word but "linear" is exponential; a factor too large for a float raises OverflowError
  unfoldable pub delay_seconds : RetryPolicy Float → ℕ → Result Float
  unfolding capped
  delay_seconds p attempt =
      let factor = if str_eq p.backoff "linear" then attempt + 1 else 2 ^ attempt in
      elim (or_overflow (f_mul_int p.backoff_seconds factor)) [
        | ok delay ↦ ok (capped p.max_backoff_seconds delay)
        | raised e ↦ raised e
      ]

  module _ {W T : Type 0} (p : RetryPolicy Float) (sleep : Float → Action W Unit)
      (fn : Action W T) where
    -- what follows a caught exception in round `i`
    unfoldable pub pause : ℕ → Action W Unit
    unfolding delay_seconds
    pause i = do d ← lift (delay_seconds p i); sleep d

    -- `except retry_on:` around one call, with the rest of the loop
    unfoldable pub guarded : Result T → ℕ → Action W T → Action W T
    unfolding pause
    guarded (ok value) i rest = lift (ok value)
    guarded (raised e) i rest = if p.retry_on e then (pause i >> rest) else raise e

    -- `for i in range(retries)` with `left` rounds to go, `left + i` being `retries`
    unfoldable pub retry_loop : ℕ → ℕ → Action W T
    unfolding guarded
    retry_loop zero i = raise assertion_error
    retry_loop (suc left) i =
        let rest = retry_loop left (i + 1) in
        if i + 1 == pos_part p.retries then fn else (λ w. let (r, w') = fn w in guarded r i rest w')

    -- a negative `retries` makes the range empty
    unfoldable pub retry : Action W T
    unfolding retry_loop
    retry = retry_loop (pos_part p.retries) 0
