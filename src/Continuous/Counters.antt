-- ===== src/Continuous/Counters.antt =====
-- The counters of `ContinuousWorkerHost.run`: what one `_apply` and one round do to them, and the
-- bounds that hold when `run` returns.
use datasource_kit.Prelude.{
  ℕ, ◌+◌, ◌≤◌, ◌<◌, ◌≡◌, refl, ap, sym, ◌∙◌, inl, inr, ◌||◌, Bool, true, false, Option, none, some,
  arith, Bool-cases, if◌then◌else◌,
}
use datasource_kit.Prelude.Int.{ℤ, Within, Within-zero}
use datasource_kit.Prelude.Floats.{Floats}
use datasource_kit.Effect.{Holds, Holds-map}
use datasource_kit.Threads.{Threads}
use datasource_kit.Continuous.Directive.{
  LoopDirective, LoopContext, LoopRun, is_rotate, is_wait, is_stop,
}
use datasource_kit.Continuous.Host.{
  Host, LoopState, Applied, start, context, bad_rotation, below, rotation_due, settle, apply,
  periodic, controlled, stepped, iterate, emit,
}

module _ (fl : Floats) where
  open fl use {Float}

  module _ {W : Type 0} (t : Threads W) (h : Host Float W) where
    abbrev AppliedBy : LoopDirective Float → ℕ → ℕ → Bool → Applied → Type 0
    AppliedBy d counted attempts from_error r =
        (r.counted ≡ (if d.counted then counted + 1 else counted))
        × (r.attempts ≡ (if is_rotate d.boundary then 0 else attempts))
        × (r.repeated_wait ≡ (from_error || is_wait d.action))
        × (r.should_stop ≡ is_stop d.action)

    settle_fields :
        (d : LoopDirective Float) (counted attempts : ℕ) (from_error : Bool) (w : W)
        → Holds
            (λ r.
              (r.counted ≡ counted)
              × (r.attempts ≡ attempts)
              × (r.repeated_wait ≡ (from_error || is_wait d.action))
              × (r.should_stop ≡ is_stop d.action))
            (settle fl t h d counted attempts from_error w).0
    unfolding settle
    settle_fields d counted attempts from_error w = ground arith

    -- What `_apply` returns, by the fields of the directive.
    pub apply_fields :
        (d : LoopDirective Float) (ctx : LoopContext) (counted attempts : ℕ) (from_error : Bool)
        (w : W)
        → Holds
            (AppliedBy d counted attempts from_error)
            (apply fl t h d ctx counted attempts from_error w).0
    unfolding apply
    apply_fields d ctx counted attempts from_error w = grind (arith, settle_fields)

    periodic_result :
        (s : LoopState Float) (w : W)
        → Holds
            (λ n. n ≡ (if rotation_due h.rotation_attempts s.attempts then 0 else s.attempts))
            (periodic fl t h s w).0
    unfolding periodic
    periodic_result s w = ground arith

    -- What one round may do to the counters: a round that the control hook ends makes no step.
    pub record IsRound (s : LoopState Float) (out : LoopState Float × Bool) : Type 0 where
      pub sequence_grows : s.sequence ≤ (out.0).sequence
      pub sequence_by_one : (out.0).sequence ≤ s.sequence + 1
      pub counted_by_one : (out.0).counted ≤ s.counted + 1
      pub attempts_by_step : (out.0).attempts + s.sequence ≤ s.attempts + (out.0).sequence
      pub rotated :
          rotation_due h.rotation_attempts s.attempts ≡ true
          → s.sequence < (out.0).sequence
          → (out.0).attempts ≤ 1

    controlled-IsRound :
        (d : LoopDirective Float) (s : LoopState Float) (w : W)
        → Holds (IsRound s) (controlled fl t h d s w).0
    unfolding controlled
    controlled-IsRound d s w = ground (
      arith,
      apply_fields d (context s) s.counted s.attempts false
          (emit fl t h "control" (context s) (some d) w).1,
    )

    stepped-IsRound : (s : LoopState Float) (w : W) → Holds (IsRound s) (stepped fl t h s w).0
    unfolding stepped
    stepped-IsRound s w = grind (arith, apply_fields, periodic_result)

    iterate-IsRound : (s : LoopState Float) (w : W) → Holds (IsRound s) (iterate fl t h s w).0
    unfolding iterate
    iterate-IsRound s w = grind (arith, controlled-IsRound, stepped-IsRound)

    -- The bounds that `run` keeps, given its arguments.
    pub record IsBounded (most : Option ℤ) (s : LoopState Float) : Type 0 where
      pub attempts_bounded : s.attempts ≤ s.sequence
      pub within_boundary : Within h.rotation_attempts s.attempts
      pub counted_bounded : Within most s.counted

    Within-boundary :
        (r : Option ℤ) (s : LoopState Float) (out : LoopState Float × Bool)
        → bad_rotation r ≡ false
        → r ≡ h.rotation_attempts
        → IsRound s out
        → Within r s.attempts
        → Within r (out.0).attempts
    Within-boundary none s out valid e round b = tt
    Within-boundary (some r) s out valid e round b =
        let rotated : rotation_due (some r) s.attempts ≡ true
            → s.sequence < (out.0).sequence
            → (out.0).attempts ≤ 1 =
          λ due. round.rotated (ap (λ x. rotation_due x s.attempts) (sym e) ∙ due) in
        elim (Bool-cases (rotation_due (some r) s.attempts)) [
          | inl due ↦ ground (arith, rotated due)
          | inr early ↦ ground arith
        ]

    round-IsBounded :
        (most : Option ℤ) (s : LoopState Float) (out : LoopState Float × Bool)
        → bad_rotation h.rotation_attempts ≡ false
        → below most s.counted ≡ true
        → IsBounded most s
        → IsRound s out
        → IsBounded most out.0
    round-IsBounded none s out valid room b round = record {
      attempts_bounded = omega arith;
      within_boundary =
          Within-boundary h.rotation_attempts s out valid refl round b.within_boundary;
      counted_bounded = tt;
    }
    round-IsBounded (some m) s out valid room b round = record {
      attempts_bounded = omega arith;
      within_boundary =
          Within-boundary h.rotation_attempts s out valid refl round b.within_boundary;
      counted_bounded = ground arith;
    }

    pub iterate-IsBounded :
        (most : Option ℤ) (s : LoopState Float) (w : W)
        → bad_rotation h.rotation_attempts ≡ false
        → below most s.counted ≡ true
        → IsBounded most s
        → Holds (λ out. IsBounded most out.0) (iterate fl t h s w).0
    iterate-IsBounded most s w valid room b =
        Holds-map (iterate fl t h s w).0 (λ out. round-IsBounded most s out valid room b)
          (iterate-IsRound s w)

    pub start-IsBounded : (most : Option ℤ) → IsBounded most start
    start-IsBounded most = record {
      attempts_bounded = omega arith;
      within_boundary = Within-zero h.rotation_attempts _ refl;
      counted_bounded = Within-zero most _ refl;
    }

    -- `run` returns with the attempts of its boundary within `rotation_attempts` and within the
    -- sequence, and the counted work within `max_counted`.
    abbrev pub RunIsBounded : Option ℤ → LoopRun Float → Type 0
    RunIsBounded most r =
        (r.attempts_in_boundary ≤ r.sequence)
        × Within h.rotation_attempts r.attempts_in_boundary
        × Within most r.counted
