-- ===== src/Retry/Outcome.antt =====
-- What `retry` does, in full, as a relation on the calls that it makes; and the cap on its delays.
use datasource_kit.Prelude.{
  ℕ, zero, suc, ◌+◌, ◌≤◌, ◌≡◌, refl, true, false, some, arith, Bool-cases, inl, inr, ◌==◌,
}
use datasource_kit.Prelude.Int.{pos_part}
use datasource_kit.Prelude.Floats.{Floats}
use datasource_kit.Effect.{Exn, Result, ok, raised, Action}
use datasource_kit.Retry.{RetryPolicy, delay_seconds, pause, guarded, retry_loop, retry}

module _ (fl : Floats) where
  open fl use {Float, f_lt, f_lt_irrefl}

  -- With `max_backoff_seconds` given, no delay that `retry` computes is above it.
  pub delay_seconds-capped :
      (p : RetryPolicy Float) (attempt : ℕ) (most d : Float)
      → p.max_backoff_seconds ≡ some most
      → delay_seconds fl p attempt ≡ ok d
      → f_lt most d ≡ false
  unfolding delay_seconds
  delay_seconds-capped p attempt most d e h = ground (arith, f_lt_irrefl most)

  module _ {W T : Type 0} (p : RetryPolicy Float) (sleep : Float → Action W Unit)
      (fn : Action W T) where
    -- `Attempts i k w out`: from round `i` in the world `w`, `k` calls of `fn` lead to `out`.
    pub data Attempts : ℕ → ℕ → W → Result T × W → Type 0 where
      -- the last round is outside the `try`: its outcome, good or bad, is the outcome
      last : {i : ℕ} {w : W} → i + 1 ≡ pos_part p.retries → Attempts i 1 w (fn w)
      returned : {i : ℕ} {w : W} (v : T) (w' : W) → fn w ≡ (ok v, w') → Attempts i 1 w (ok v, w')
      uncaught :
          {i : ℕ} {w : W} (e : Exn) (w' : W)
          → fn w ≡ (raised e, w')
          → p.retry_on e ≡ false
          → Attempts i 1 w (raised e, w')
      pause_raised :
          {i : ℕ} {w : W} (e x : Exn) (w' w'' : W)
          → fn w ≡ (raised e, w')
          → p.retry_on e ≡ true
          → pause fl p sleep fn i w' ≡ (raised x, w'')
          → Attempts i 1 w (raised x, w'')
      again :
          {i k : ℕ} {w : W} {out : Result T × W} (e : Exn) (w' w'' : W)
          → fn w ≡ (raised e, w')
          → p.retry_on e ≡ true
          → pause fl p sleep fn i w' ≡ (ok tt, w'')
          → Attempts (i + 1) k w'' out
          → Attempts i (suc k) w out

    -- Some number of calls of `fn`, at least one and at most `n`, leads to `out`.
    abbrev pub Within : ℕ → ℕ → W → Result T × W → Type 0
    Within n i w out = (k : ℕ) × (1 ≤ k) × (k ≤ n) × Attempts i k w out

    after_pause :
        (n i : ℕ) (rest : Action W T)
        → ((w : W) → Within n (i + 1) w (rest w))
        → (w w' w'' : W) (e : Exn) (r : Result Unit) → fn w ≡ (raised e, w')
        → p.retry_on e ≡ true
        → pause fl p sleep fn i w' ≡ (r, w'')
        → Within (suc n) i w (guarded fl p sleep fn (raised e) i rest w')
    unfolding guarded
    after_pause n i rest ih w w' w'' e (ok u) he hc hp =
        let (k, pos, le, att) = ih w'' in
        (suc k, omega arith, omega arith, rw (hc, hp) (again e w' w'' he hc hp att))
    after_pause n i rest ih w w' w'' e (raised x) he hc hp =
        (1, omega arith, omega arith, rw (hc, hp) (pause_raised e x w' w'' he hc hp))

    after_call :
        (n i : ℕ) (rest : Action W T)
        → ((w : W) → Within n (i + 1) w (rest w))
        → (w w' : W) (r : Result T) → fn w ≡ (r, w')
        → Within (suc n) i w (guarded fl p sleep fn r i rest w')
    unfolding guarded
    after_call n i rest ih w w' (ok v) h = (1, omega arith, omega arith, returned v w' h)
    after_call n i rest ih w w' (raised e) h = elim (Bool-cases (p.retry_on e)) [
      | inl hc ↦
          let (r, w'') = pause fl p sleep fn i w' in after_pause n i rest ih w w' w'' e r h hc refl
      | inr hu ↦ (1, omega arith, omega arith, rw hu (uncaught e w' h hu))
    ]

    loop_refines :
        (left i : ℕ)
        → i + suc left ≡ pos_part p.retries
        → (w : W) → Within (suc left) i w (retry_loop fl p sleep fn (suc left) i w)
    unfolding retry_loop
    loop_refines zero i e w =
        let final : (i + 1 == pos_part p.retries) ≡ true = ground arith in
        rw final (1, omega arith, omega arith, last (omega arith))
    loop_refines (suc left) i e w =
        let more : (i + 1 == pos_part p.retries) ≡ false = ground arith in
        let (r, w') = fn w in
        let ih = loop_refines left (i + 1) (omega arith) in
        rw more
          (after_call (suc left) i (retry_loop fl p sleep fn (suc left) (i + 1)) ih w w' r refl)

    all_rounds :
        (n : ℕ)
        → n ≡ pos_part p.retries
        → 1 ≤ n
        → (w : W) → Within n 0 w (retry_loop fl p sleep fn n 0 w)
    all_rounds zero e h w = absurd (omega arith)
    all_rounds (suc left) e h w = loop_refines left 0 (omega arith) w

    -- With `retries` at least 1, `retry` makes between one and `retries` calls, and its outcome, value
    -- or exception, is that of the last call, or an exception of the delay before the next one.
    pub retry-Attempts :
        1 ≤ pos_part p.retries → (w : W) → Within (pos_part p.retries) 0 w (retry fl p sleep fn w)
    unfolding retry
    retry-Attempts h w = all_rounds (pos_part p.retries) refl h w
