-- ===== src/Runtime/Fetched.antt =====
-- runtime.py: the counter of a window's attempts beside the world changes nothing of what `retry` does,
-- and holds the number of calls.
use datasource_kit.Prelude.{ℕ, zero, suc, ◌+◌, ◌≡◌, ◌∙◌, sym, ap, refl, List, arith, ◌≤◌}
use datasource_kit.Prelude.Int.{pos_part}
use datasource_kit.Prelude.Floats.{Floats}
use datasource_kit.Effect.{assertion_error, Result, ok, raised, lift, ◌>>=◌}
use datasource_kit.Retry.{retry, retry_loop, pause, delay_seconds}
use datasource_kit.Retry.Outcome.{Attempts, retry-Attempts}
use datasource_kit.Runtime.Ingest.{
  Record, Providers, Counted, fetch_once, counted_sleep, fetch_window, with_count,
}
use datasource_kit.Runtime.Trace.{Fetching}

module _ (fl : Floats) {V X D W : Type 0} (p : Providers (fl.Float) V X D W) where
  open fl use {Float}

  abbrev Out : Type 0
  Out = Result (List (Record V)) × Counted W

  -- what an outcome over the counted worlds says of the call over the worlds
  pause_world :
      (i : ℕ) (x : X) (s s' : Counted W) (r : Result (Unit {0}))
      → pause fl p.policy (counted_sleep fl p) (fetch_once fl p x) i s ≡ (r, s')
      → (pause fl p.policy p.sleep (p.fetcher x) i s.world ≡ (r, s'.world)) × (s'.count ≡ s.count)
  unfolding pause
  pause_world i x s s' r e = after_delay (delay_seconds fl p.policy i) e
    where
      after_delay :
          (d : Result Float)
          → (lift d >>= λ t. counted_sleep fl p t) s ≡ (r, s')
          → ((lift d >>= λ t. p.sleep t) s.world ≡ (r, s'.world)) × (s'.count ≡ s.count)
      after_delay (raised x) eq = (ap (λ o. (o.0, (o.1).world)) eq, ap (λ o. (o.1).count) (sym eq))
      after_delay (ok t) eq = (ap (λ o. (o.0, (o.1).world)) eq, ap (λ o. (o.1).count) (sym eq))

  fetch_world :
      (x : X) (s s' : Counted W) (r : Result (List (Record V)))
      → fetch_once fl p x s ≡ (r, s')
      → (p.fetcher x s.world ≡ (r, s'.world)) × (s'.count ≡ s.count + 1)
  fetch_world x s s' r e = (ap (λ o. (o.0, (o.1).world)) e, ap (λ o. (o.1).count) (sym e))

  Attempts-world :
      (x : X) {i k : ℕ} {s : Counted W} {out : Out}
      → Attempts fl p.policy (counted_sleep fl p) (fetch_once fl p x) i k s out
      → Attempts fl p.policy p.sleep (p.fetcher x) i k s.world (out.0, (out.1).world)
        × ((out.1).count ≡ s.count + k)
  Attempts-world x (Attempts.last e) = (Attempts.last e, refl)
  Attempts-world x {s = s} (Attempts.returned v s' e) =
      let (f, n) = fetch_world x s s' (ok v) e in (Attempts.returned v s'.world f, n)
  Attempts-world x {s = s} (Attempts.uncaught er s' e c) =
      let (f, n) = fetch_world x s s' (raised er) e in (Attempts.uncaught er s'.world f c, n)
  Attempts-world x {i = i} {s = s} (Attempts.pause_raised er y s' s'' e c h) =
      let (f, n) = fetch_world x s s' (raised er) e in
      let (g, m) = pause_world i x s' s'' (raised y) h in
      (Attempts.pause_raised er y s'.world s''.world f c g, m ∙ n)
  Attempts-world x {i = i} {s = s} (Attempts.again er s' s'' e c h rest) =
      let (f, n) = fetch_world x s s' (raised er) e in
      let (g, m) = pause_world i x s' s'' (ok tt) h in
      let (a, k) = Attempts-world x rest in
      (Attempts.again er s'.world s''.world f c g a, omega (arith, n, m, k))

  -- an outcome of `fetch_window`, told by the calls of the fetcher
  abbrev pub FetchedAs : X → W → Result (List (Record V) × ℕ) → W → Type 0
  FetchedAs x w (ok (raw, n)) v = Fetching fl p x w (ok raw) n v
  FetchedAs x w (raised e) v = (n : ℕ) × Fetching fl p x w (raised e) n v

  as_fetched :
      (x : X) (w v : W) (k count : ℕ) (r : Result (List (Record V)))
      → 1 ≤ k
      → k ≤ pos_part (p.policy).retries
      → Attempts fl p.policy p.sleep (p.fetcher x) 0 k w (r, v)
      → count ≡ k
      → FetchedAs x w (with_count fl p r count) v
  as_fetched x w v k count (ok raw) h1 h2 a e = rw e (Fetching.tried k (ok raw) v h1 h2 a)
  as_fetched x w v k count (raised er) h1 h2 a e = (k, Fetching.tried k (raised er) v h1 h2 a)

  none_made :
      (x : X) (w : W)
      → pos_part (p.policy).retries ≡ 0
      → let s : Counted W = record { world = w; count = 0 } in
        retry fl p.policy (counted_sleep fl p) (fetch_once fl p x) s ≡ (raised assertion_error, s)
  unfolding retry retry_loop
  none_made x w e = rw e refl

  pub fetch_window-FetchedAs :
      (x : X) (w : W) → FetchedAs x w (fetch_window fl p x w).0 (fetch_window fl p x w).1
  unfolding fetch_window
  fetch_window-FetchedAs x w = by_most (pos_part (p.policy).retries) refl
    where
      s : Counted W
      s = record { world = w; count = 0 }

      out : Out
      out = retry fl p.policy (counted_sleep fl p) (fetch_once fl p x) s

      by_most :
          (n : ℕ)
          → pos_part (p.policy).retries ≡ n
          → FetchedAs x w (with_count fl p out.0 (out.1).count) (out.1).world
      by_most zero e = rw (none_made x w e) (0, Fetching.not_tried e)
      by_most (suc n) e =
          let (k, h1, h2, a) =
            retry-Attempts fl p.policy (counted_sleep fl p) (fetch_once fl p x) (omega (arith, e))
              s in
          let (b, count) = Attempts-world x a in
          as_fetched x w (out.1).world k (out.1).count out.0 h1 h2 b (omega (arith, count))
