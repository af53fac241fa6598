-- ===== src/Continuous/Loop.antt =====
-- The rule for the `while` of `ContinuousWorkerHost.run`: what every round keeps holds when it ends.
use datasource_kit.Prelude.{
  ℕ, zero, suc, ◌≡◌, ◌&&◌, not, Bool, true, false, Option, none, some, arith, Bool-cases, inl, inr,
}
use datasource_kit.Prelude.Int.{ℤ}
use datasource_kit.Prelude.Floats.{Floats}
use datasource_kit.Effect.{Result, ok, raised, Holds}
use datasource_kit.Threads.{Threads}
use datasource_kit.Continuous.Host.{Host, LoopState, below, proceed, iterate, loop}

and_right : (a b : Bool) → (a && b) ≡ true → b ≡ true
and_right a b h = ground arith

module _ (fl : Floats) where
  open fl use {Float}

  module _ {W : Type 0} (t : Threads W) (h : Host Float W) where
    -- What holds of the variables and the world with which a round, or the loop, ends.
    abbrev pub RoundEnds :
        (LoopState Float → W → Type 0) → Result (LoopState Float × Bool) × W → Type 0
    RoundEnds P (r, w) = Holds (λ out. P out.0 w) r

    abbrev pub LoopEnds :
        (LoopState Float → W → Type 0) → Option (Result (LoopState Float) × W) → Type 0
    LoopEnds P none = Unit
    LoopEnds P (some (r, w)) = Holds (λ s. P s w) r

    module _ (P : LoopState Float → W → Type 0) (most : Option ℤ)
        (keep : (s : LoopState Float) (w : W)
          → below most s.counted ≡ true
          → P s w
          → RoundEnds P (iterate fl t h s w)) where
      proceed_inv :
          (fuel : ℕ) (r : Result (LoopState Float × Bool)) (w : W)
          → RoundEnds P (r, w)
          → ((s : LoopState Float) → P s w → LoopEnds P (loop fl t h fuel most s w))
          → LoopEnds P (proceed fl t h r w (loop fl t h fuel most))
      proceed_inv fuel (raised e) w p rest = tt
      proceed_inv fuel (ok (s, true)) w p rest = p
      proceed_inv fuel (ok (s, false)) w p rest = rest s p

      pub loop_inv :
          (fuel : ℕ) (s : LoopState Float) (w : W) → P s w → LoopEnds P (loop fl t h fuel most s w)
      unfolding loop
      loop_inv zero s w p = tt
      loop_inv (suc fuel) s w p =
          elim (Bool-cases (not (t.stop_is_set w) && below most s.counted)) [
            | inl more ↦
                let (r, w') = iterate fl t h s w in
                rw (more, loop)
                  (proceed_inv fuel r w' (keep s w (and_right _ _ more) p)
                    (λ s' p'. loop_inv fuel s' w' p'))
            | inr done ↦ rw (done, loop) p
          ]
