-- ===== src/Worker/Run.antt =====
-- `WorkerHost.run` as a whole: the rule for its loop, and what a run that returned has done.
use datasource_kit.Prelude.{
  ℕ, zero, suc, ◌≡◌, ◌&&◌, not, Bool, true, false, Option, none, some, arith, Bool-cases, inl, inr,
}
use datasource_kit.Prelude.Int.{ℤ}
use datasource_kit.Prelude.Floats.{Floats}
use datasource_kit.Effect.{Exn, Result, ok, raised, Holds}
use datasource_kit.Threads.{Threads}
use datasource_kit.Worker.Intent.{WorkerRun}
use datasource_kit.Worker.Host.{
  Host, Run, Flow, next, break, begin, below, negative, emit, iterate, proceed, loop, opening,
  after_opening, main, summary, finish, run,
}

pub and_right : (a b : Bool) → (a && b) ≡ true → b ≡ true
and_right a b h = ground arith

value_ne :
    {A B : Type 0} {x : Exn} {a : A} {w w' : B}
    → ◌≡◌ {A = Option (Result A × B)} (some (raised x, w)) (some (ok a, w'))
    → ⊥
value_ne e = cc

pub Holds-all : {P : Type 0} (r : Result (Unit {0})) → P → Holds (λ _. P) r
Holds-all (ok u) p = p
Holds-all (raised e) p = tt

module _ (fl : Floats) where
  open fl use {Float}

  module _ {O W : Type 0} (t : Threads W) (h : Host Float O W) where
    -- What holds of the outcome and the variables with which the loop ends, if it has ended.
    abbrev pub EndsIn :
        (Result (Unit {0}) → Run O W → Type 0) → Option (Result (Unit {0}) × Run O W) → Type 0
    EndsIn P none = Unit
    EndsIn P (some (r, s)) = P r s

    EndsIn-map :
        {P Q : Result (Unit {0}) → Run O W → Type 0} (ended : Option (Result (Unit {0}) × Run O W))
        → ((r : Result (Unit {0})) (s : Run O W) → P r s → Q r s)
        → EndsIn P ended
        → EndsIn Q ended
    EndsIn-map none f p = tt
    EndsIn-map (some (r, s)) f p = f r s p

    module _ (P : Run O W → Type 0) (most : Option ℤ)
        (keep : (s : Run O W) → below most s.iterations ≡ true → P s → P (iterate fl t h s).1) where
      proceed_inv :
          (fuel : ℕ) (r : Result Flow) (s : Run O W)
          → P s
          → ((s' : Run O W) → P s' → EndsIn (λ _ x. P x) (loop fl t h fuel most s'))
          → EndsIn (λ _ x. P x) (proceed fl t h r s (loop fl t h fuel most))
      proceed_inv fuel (raised e) s p rest = p
      proceed_inv fuel (ok break) s p rest = p
      proceed_inv fuel (ok next) s p rest = rest s p

      pub loop_inv : (fuel : ℕ) (s : Run O W) → P s → EndsIn (λ _ x. P x) (loop fl t h fuel most s)
      unfolding loop
      loop_inv zero s p = tt
      loop_inv (suc fuel) s p =
          elim (Bool-cases (not (t.stop_is_set s.world) && below most s.iterations)) [
            | inl more ↦
                let (r, s') = iterate fl t h s in
                rw (more, loop)
                  (proceed_inv fuel r s' (keep s (and_right _ _ more) p) (λ x q. loop_inv fuel x q))
            | inr done ↦ rw (done, loop) p
          ]

      after_opening_inv :
          (fuel : ℕ) (r : Result (Unit {0})) (s : Run O W)
          → Holds (λ _. P s) r
          → EndsIn (λ r' x. Holds (λ _. P x) r') (after_opening fl t h r s (loop fl t h fuel most))
      after_opening_inv fuel (raised e) s p = tt
      after_opening_inv fuel (ok u) s p =
          EndsIn-map (loop fl t h fuel most s) (λ r x q. Holds-all r q) (loop_inv fuel s p)

      pub main_inv :
          (fuel : ℕ) (s : Run O W)
          → Holds (λ _. P (opening fl t h s).1) (opening fl t h s).0
          → EndsIn (λ r x. Holds (λ _. P x) r) (main fl t h fuel most s)
      unfolding main
      main_inv fuel s p = let (r, s') = opening fl t h s in after_opening_inv fuel r s' p

    -- A run that returned had an end of its loop, whose variables it reports.
    pub record Returns (P : Run O W → Type 0) (r : WorkerRun O) (w' : W) : Type 0 where
      pub final : Run O W
      pub holds : P final
      pub reported : r ≡ summary fl t h (emit fl t h "stopped" none none final).1
      pub left : w' ≡ t.set_lock false ((emit fl t h "stopped" none none final).1).world

    finish_inversion :
        (P : Run O W → Type 0) (ended : Option (Result (Unit {0}) × Run O W)) (w' : W)
        (r : WorkerRun O)
        → EndsIn (λ x s. Holds (λ _. P s) x) ended
        → finish fl t h ended ≡ some (ok r, w')
        → Returns P r w'
    unfolding finish
    finish_inversion P none w' r p e = cc
    finish_inversion P (some (raised x, s)) w' r p e = absurd (ground arith)
    finish_inversion P (some (ok u, s)) w' r p e = record {
      final = s;
      holds = p;
      reported = ground arith;
      left = ground arith;
    }

    pub run_inversion :
        (P : Run O W → Type 0) (fuel : ℕ) (most : Option ℤ) (w w' : W) (r : WorkerRun O)
        → EndsIn (λ x s. Holds (λ _. P s) x) (main fl t h fuel most (begin (t.set_lock true w)))
        → run fl t h fuel most w ≡ some (ok r, w')
        → Returns P r w'
    unfolding run
    run_inversion P fuel most w w' r p e = elim (Bool-cases (negative most)) [
      | inl bad ↦ absurd (value_ne (rw bad at e))
      | inr fine ↦ elim (Bool-cases (t.lock_held w)) [
        | inl held ↦ absurd (value_ne (rw (fine, held) at e))
        | inr free ↦ finish_inversion P _ w' r p (rw (fine, free) at e)
      ]
    ]
