-- ===== src/Retry/Tests.antt =====
-- `retry` on a world that counts the calls, and the theorems at inputs where their conditions hold.
use datasource_kit.Prelude.{ℕ, ◌+◌, ◌≡◌, refl, false, some, arith, ltb, if◌then◌else◌}
use datasource_kit.Prelude.Int.{pos}
use datasource_kit.Prelude.Floats.{ticks}
use datasource_kit.Effect.{ok, raised, consumer, is_exception, Action}
use datasource_kit.Retry.{RetryPolicy, delay_seconds, retry}
use datasource_kit.Retry.Outcome.{Within, retry-Attempts, delay_seconds-capped}

-- the calls so far, and the ticks slept
abbrev flaky : Action (ℕ × ℕ) ℕ
flaky (calls, slept) = (if ltb calls 2 then raised (consumer 7) else ok 42, (calls + 1, slept))

abbrev nap : ℕ → Action (ℕ × ℕ) (Unit {0})
nap d (calls, slept) = (ok tt, (calls, slept + d))

abbrev thrice : RetryPolicy ℕ
thrice = record {
  retries = pos 3;
  backoff_seconds = 5;
  backoff = "exponential";
  max_backoff_seconds = some 8;
  retry_on = is_exception;
}

third_time : retry ticks thrice nap flaky (0, 0) ≡ (ok 42, (3, 13))
unfolding retry
third_time = refl

retry-Attempts_example :
    Within ticks thrice nap flaky 3 0 (0, 0) (retry ticks thrice nap flaky (0, 0))
retry-Attempts_example = retry-Attempts ticks thrice nap flaky (omega arith) (0, 0)

delay_seconds-capped_example : ltb 8 8 ≡ false
unfolding delay_seconds
delay_seconds-capped_example = delay_seconds-capped ticks thrice 4 8 8 refl refl
