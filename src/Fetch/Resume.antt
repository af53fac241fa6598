-- ===== src/Fetch/Resume.antt =====
-- A `SequencePlanner` asked again and again, each time from the cursor that it named last: it plans
-- every unit once, in the order that was chosen, and resumes behind any stored cursor.
use text.Mathlib.Text.{◌==◌ as str_eq}
use text.Mathlib.TextEquality.{eq_iff}
use datasource_kit.Prelude.{
  ℕ, zero, suc, ◌+◌, ◌<◌, ◌≡◌, refl, sym, ap, ◌∙◌, Bool, true, false, Bool-cases, inl, inr, Option,
  none, some, String, List, [], ◌∷◌, arith, length, get_elem?, leb,
}
use datasource_kit.Prelude.Dict.{lookup}
use datasource_kit.Effect.{Exn, Result, ok, raised}
use datasource_kit.Fetch.Cursor.{Cursor}
use datasource_kit.Fetch.Sequence.{
  Planned, stop, fetch, SequencePlanner, bind, in_order, build_index, make_planner, continue_at,
  after_index, plan,
}
use datasource_kit.Fetch.Walk.{Placed, build_index-Placed, bind_inversion}

abbrev pub drop : {A : Type 0} → ℕ → List A → List A
drop zero xs = xs
drop (suc k) [] = []
drop (suc k) (x ∷ xs) = drop k xs

pub drop_step :
    {A : Type 0} (k : ℕ) (xs : List A) (x : A)
    → get_elem? xs k ≡ some x
    → drop k xs ≡ x ∷ drop (suc k) xs
drop_step k [] x e = cc
drop_step zero (y ∷ ys) x e = ground arith
drop_step (suc k) (y ∷ ys) x e = drop_step k ys x e

pub drop_all : {A : Type 0} (xs : List A) → drop (length xs) xs ≡ []
drop_all [] = refl
drop_all (x ∷ xs) = drop_all xs

pub elem_at :
    {A : Type 0} (xs : List A) (k : ℕ) → k < length xs → (x : A) × (get_elem? xs k ≡ some x)
elem_at [] k lt = absurd (omega arith)
elem_at (x ∷ xs) zero lt = (x, refl)
elem_at (x ∷ xs) (suc k) lt = elem_at xs k (omega arith)

module _ (is_blank : String → Bool) {O : Type 0} where
  abbrev pub prepend : O → Option (List O) → Option (List O)
  prepend u none = none
  prepend u (some us) = some (u ∷ us)

  abbrev pub follow : Result (Planned O) → (Cursor → Option (List O)) → Option (List O)
  follow (raised e) rest = none
  follow (ok stop) rest = some []
  follow (ok (fetch f)) rest = prepend f.ref (rest f.cursor)

  -- the units that are planned from a cursor on, until the planner stops
  unfoldable pub walk : ℕ → SequencePlanner O → Option Cursor → Option (List O)
  walk zero p c = none
  walk (suc fuel) p c = follow (plan is_blank p c) (λ c'. walk fuel p (some c'))

  -- the cursor that names a unit
  abbrev pub cursor_of : SequencePlanner O → O → Cursor
  cursor_of p u = record { kind = p.kind; value = p.encode u }

  -- What the constructor establishes.
  pub record Built (order : String) (units : List O) (p : SequencePlanner O) : Type 0 where
    pub ordered : in_order order units ≡ ok p.units
    pub placed :
        (k : ℕ) (u : O) → get_elem? p.units k ≡ some u → Placed is_blank p.kind p.encode p.index k u

  with_index :
      (units ordered : List O) (kind order : String) (encode : O → String) (p : SequencePlanner O)
      → in_order order units ≡ ok ordered
      → bind
          (build_index is_blank kind encode ordered 0 [])
          (λ index. ok (record { kind = kind; encode = encode; units = ordered; index = index }))
        ≡ ok p
      → Built order units p
  with_index units ordered kind order encode p e built =
      let (index, through, same) =
        bind_inversion is_blank (build_index is_blank kind encode ordered 0 [])
          (λ index. ok (record { kind = kind; encode = encode; units = ordered; index = index })) p
          built in
      let q : SequencePlanner O = record {
        kind = kind;
        encode = encode;
        units = ordered;
        index = index;
      } in
      let equal : q ≡ p = ok_injective q p same in
      rw (sym equal) (record {
        ordered = e;
        placed = λ k u at.
            let q = build_index-Placed is_blank kind encode ordered 0 [] index k u through at in
            record { found = q.found ∙ ap some (omega arith); valid = q.valid };
      })
    where
      ok_injective : (a b : SequencePlanner O) → ok a ≡ ok b → a ≡ b
      ok_injective a b eq = cc

  pub make_planner-Built :
      (units : List O) (kind order : String) (encode : O → String) (p : SequencePlanner O)
      → make_planner is_blank units kind encode order ≡ ok p
      → Built order units p
  unfolding make_planner
  make_planner-Built units kind order encode p e =
      let (ordered, direction, rest) = bind_inversion is_blank (in_order order units) _ p e in
      elim (Bool-cases (is_blank kind)) [
        | inl blank ↦ absurd (not_ok (rw blank at rest))
        | inr fine ↦ with_index units ordered kind order encode p direction (rw fine at rest)
      ]
    where
      not_ok : {x : Exn} → ◌≡◌ {A = Result (SequencePlanner O)} (raised x) (ok p) → ⊥
      not_ok eq = cc

  nonempty : (us : List O) → 0 < length us → (u : O) × (vs : List O) × (us ≡ u ∷ vs)
  nonempty [] lt = absurd (omega arith)
  nonempty (u ∷ vs) lt = (u, vs, refl)

  plan_from :
      (p : SequencePlanner O) (value : String)
      → 0 < length p.units
      → plan is_blank p (some (record { kind = p.kind; value = value }))
        ≡ after_index is_blank p (lookup value p.index)
  unfolding plan
  plan_from p value some_units =
      let (u, vs, e) = nonempty p.units some_units in
      let same : str_eq p.kind p.kind ≡ true = (eq_iff p.kind p.kind).1 refl in
      grind (arith, e, same)

  -- the plan behind the unit at k, where one more unit follows, and where none does
  pub plan_next :
      (p : SequencePlanner O) (k : ℕ) (u v : O)
      → Placed is_blank p.kind p.encode p.index k u
      → Placed is_blank p.kind p.encode p.index (k + 1) v
      → get_elem? p.units (k + 1) ≡ some v
      → k + 1 < length p.units
      → plan is_blank p (some (cursor_of p u))
        ≡ ok (fetch (record { ref = v; cursor = cursor_of p v }))
  unfolding after_index continue_at
  plan_next p k u v here there at room =
      let more : leb (length p.units) (k + 1) ≡ false = ground arith in
      plan_from p (p.encode u) (omega arith) ∙ rw (here.found, more, at, there.valid) refl

  pub plan_last :
      (p : SequencePlanner O) (k : ℕ) (u : O)
      → Placed is_blank p.kind p.encode p.index k u
      → k + 1 ≡ length p.units
      → plan is_blank p (some (cursor_of p u)) ≡ ok stop
  unfolding after_index
  plan_last p k u here end =
      let over : leb (length p.units) (k + 1) ≡ true = ground arith in
      plan_from p (p.encode u) (omega arith) ∙ rw (here.found, over) refl

  resumes :
      (p : SequencePlanner O) (m k : ℕ) (u : O)
      → ((j : ℕ) (x : O)
          → get_elem? p.units j ≡ some x
          → Placed is_blank p.kind p.encode p.index j x)
      → get_elem? p.units k ≡ some u
      → k + 1 + m ≡ length p.units
      → walk (suc m) p (some (cursor_of p u)) ≡ some (drop (suc k) p.units)
  unfolding walk
  resumes p zero k u placed at end =
      let last : suc k ≡ length p.units = omega arith in
      rw (plan_last p k u (placed k u at) (omega arith), last) (sym (ap some (drop_all p.units)))
  resumes p (suc m) k u placed at end =
      let (v, next_at) = elem_at p.units (suc k) (omega arith) in
      let place : suc k ≡ k + 1 = omega arith in
      let next_at' : get_elem? p.units (k + 1) ≡ some v = rw (sym place) next_at in
      let planned =
        plan_next p k u v (placed k u at) (placed (k + 1) v next_at') next_at' (omega arith) in
      let rest = resumes p m (suc k) v placed next_at (omega arith) in
      rw (planned, rest) (ap some (sym (drop_step (suc k) p.units v next_at)))

  -- A planner that was built plans, from the cursor of its unit k on, the units behind k, each once
  -- and in order, and then stops.
  pub walk-resumes :
      (units : List O) (kind order : String) (encode : O → String) (p : SequencePlanner O) (m k : ℕ)
      (u : O)
      → make_planner is_blank units kind encode order ≡ ok p
      → get_elem? p.units k ≡ some u
      → k + 1 + m ≡ length p.units
      → walk (suc m) p (some (cursor_of p u)) ≡ some (drop (suc k) p.units)
  walk-resumes units kind order encode p m k u e at end =
      resumes p m k u (make_planner-Built units kind order encode p e).placed at end

  pub first_plan :
      (p : SequencePlanner O) (u : O) (us : List O)
      → p.units ≡ u ∷ us
      → Placed is_blank p.kind p.encode p.index 0 u
      → plan is_blank p none ≡ ok (fetch (record { ref = u; cursor = cursor_of p u }))
  unfolding plan continue_at
  first_plan p u us e placed = rw (e, plan, placed.valid) refl

  no_plan : (p : SequencePlanner O) → p.units ≡ [] → plan is_blank p none ≡ ok stop
  unfolding plan
  no_plan p e = rw (e, plan) refl

  walk_all :
      (p : SequencePlanner O) (us : List O)
      → p.units ≡ us
      → ((j : ℕ) (x : O)
          → get_elem? p.units j ≡ some x
          → Placed is_blank p.kind p.encode p.index j x)
      → walk (suc (length us)) p none ≡ some us
  unfolding walk
  walk_all p [] e placed = rw (no_plan p e) refl
  walk_all p (u ∷ us) e placed =
      let at : get_elem? p.units 0 ≡ some u = rw e refl in
      let rest = resumes p (length us) 0 u placed at (rw e (omega arith)) in
      let behind : drop 1 p.units ≡ us = rw e refl in
      rw (first_plan p u us e (placed 0 u at), rest, behind) refl

  -- A planner that was built, asked from no cursor on, plans every unit once, in the order that was
  -- asked for, and then stops.
  pub walk-in_order :
      (units : List O) (kind order : String) (encode : O → String) (p : SequencePlanner O)
      → make_planner is_blank units kind encode order ≡ ok p
      → (in_order order units ≡ ok p.units) × (walk (suc (length p.units)) p none ≡ some p.units)
  walk-in_order units kind order encode p e =
      let b = make_planner-Built units kind order encode p e in
      (b.ordered, walk_all p p.units refl b.placed)
