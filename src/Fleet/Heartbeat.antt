-- ===== src/Fleet/Heartbeat.antt =====
-- `merge_heartbeat` and `set_desired`, read through `load_state`: which keys a write may change.
use text.Mathlib.Text.{◌==◌ as str_eq}
use text.Mathlib.TextEquality.{eq_iff}
use datasource_kit.Prelude.{
  ◌≡◌, sym, ap, ◌∙◌, refl, ◌⊎◌, inl, inr, Bool, true, false, Bool-cases, Option, none, some, String,
  [], ◌∷◌, arith, if◌then◌else◌,
}
use datasource_kit.Prelude.Dict.{
  Dict, lookup, insert, update, or_else, lookup-insert, lookup-update,
}
use datasource_kit.Effect.{Result, ok, raised, pure, lift, ◌>>=◌, ◌>>◌, Holds}
use datasource_kit.Prelude.Int.{ℤ, eqb_ℤ, eqb_ℤ-eq, eqb_ℤ_refl}
use datasource_kit.Fleet.Json.{Value, str, Runtime, get, as_int, to_int}
use datasource_kit.Fleet.World.{World, touch, modify, write_atomic, write_state}
use datasource_kit.Fleet.State.{
  Reconciler, is_core, default_state, load_state, merged, accept, matching, merge_heartbeat,
}

-- A key is in the dictionary once, as in every dict of Python.
abbrev pub Distinct : Dict Value → Type 0
Distinct [] = Unit
Distinct ((k, v) ∷ d) = (lookup k d ≡ none) × Distinct d

pub lookup-merged-core :
    (k : String) (state beat : Dict Value)
    → is_core k ≡ true
    → lookup k (merged state beat) ≡ lookup k state
unfolding merged
lookup-merged-core k state [] core = refl
lookup-merged-core k state ((j, v) ∷ beat) core =
    lookup-merged-core k (if is_core j then state else insert j v state) beat core ∙ skipped
  where
    skipped : lookup k (if is_core j then state else insert j v state) ≡ lookup k state
    skipped = elim (Bool-cases (is_core j)) [
      | inl core_j ↦ rw core_j refl
      | inr free ↦ elim (Bool-cases (str_eq j k)) [
        | inl same ↦
            let equal : j ≡ k = (eq_iff j k).0 same in
            absurd (clash (sym core ∙ ap is_core (sym equal) ∙ free))
        | inr other ↦ rw free (ground (arith, lookup-insert j k v state, other))
      ]
    ]
      where
        clash : true ≡ false → ⊥
        clash e = cc

lookup-merged_other :
    (k : String) (state beat : Dict Value)
    → is_core k ≡ false
    → Distinct beat
    → lookup k (merged state beat) ≡ or_else (lookup k beat) (lookup k state)
unfolding merged lookup
lookup-merged_other k state [] other once = refl
lookup-merged_other k state ((j, v) ∷ beat) other once = elim (Bool-cases (str_eq j k)) [
  | inl same ↦
      let equal : j ≡ k = (eq_iff j k).0 same in
      let free : is_core j ≡ false = ap is_core equal ∙ other in
      let absent_after : lookup k beat ≡ none = sym (ap (λ i. lookup i beat) equal) ∙ once.0 in
      let rest = lookup-merged_other k (insert j v state) beat other once.1 in
      rw (same, free, rest, absent_after) (lookup-insert j k v state ∙ rw same refl)
  | inr differ ↦ elim (Bool-cases (is_core j)) [
    | inl skipped ↦ rw (differ, skipped) (lookup-merged_other k state beat other once.1)
    | inr taken ↦
        let rest = lookup-merged_other k (insert j v state) beat other once.1 in
        let kept : lookup k (insert j v state) ≡ lookup k state =
          lookup-insert j k v state ∙ rw differ refl in
        rw (differ, taken, rest, kept) refl
  ]
]

-- What a unit's loaded state says of a key: its own name, else the stored value, else the default.
abbrev filled : Reconciler → String → Option (Dict Value) → String → Option Value
filled rc unit none k = lookup k (default_state rc unit)
filled rc unit (some d) k = or_else (lookup k d) (lookup k (default_state rc unit))

pub lookup-load_state :
    (rc : Reconciler) (unit k : String) (w : World)
    → lookup k (load_state rc unit w)
      ≡ (if str_eq "unit" k then some (str unit) else filled rc unit w.state k)
unfolding load_state
lookup-load_state rc unit k w = elim (stored_cases w.state) [
  | inl gone ↦ rw gone (lookup-insert "unit" k (str unit) (default_state rc unit))
  | inr (d, found) ↦
      rw
        (
          found,
          lookup-insert "unit" k (str unit) (update (default_state rc unit) d),
          lookup-update k (default_state rc unit) d,
        )
        refl
]
  where
    stored_cases : (o : Option (Dict Value)) → (o ≡ none) ⊎ ((d : Dict Value) × (o ≡ some d))
    stored_cases none = inl refl
    stored_cases (some d) = inr (d, refl)

-- A stored state that agrees with the loaded one on a key is loaded with the same value.
pub load_state-reload :
    (rc : Reconciler) (unit k : String) (w w' : World) (d : Dict Value)
    → w'.state ≡ some d
    → lookup k d ≡ lookup k (load_state rc unit w)
    → lookup k (load_state rc unit w') ≡ lookup k (load_state rc unit w)
load_state-reload rc unit k w w' d found agree =
    ground
      (arith, lookup-load_state rc unit k w, lookup-load_state rc unit k w', found, agree, w.state)

pub touch-state : (w : World) → (touch w).1.state ≡ w.state
unfolding touch
touch-state w = ground arith

after_touch :
    (d : Dict Value) (w v : World) (r : Result (Unit {0}))
    → v.state ≡ w.state
    → let out = (lift r >>= λ _. modify (λ x. record x { state = some d }) >> touch) v in
      ((out.1).state ≡ w.state) ⊎ ((out.1).state ≡ some d)
after_touch d w v (raised e) same = inl same
after_touch d w v (ok u) same = inr (touch-state (record v { state = some d }))

-- A write of the state, whether it returns or raises, leaves the old state or the new one.
pub write_state-cases :
    (d : Dict Value) (w : World)
    → ((write_state d w).1.state ≡ w.state) ⊎ ((write_state d w).1.state ≡ some d)
unfolding write_state write_atomic
write_state-cases d w = let (r, v) = touch w in after_touch d w v r (touch-state w)

pub write_state-stored :
    (d : Dict Value) (w : World)
    → Holds (λ u. (write_state d w).1.state ≡ some d) (write_state d w).0
unfolding write_state write_atomic
write_state-stored d w = grind (arith, touch-state)

same_stored :
    (rc : Reconciler) (unit k : String) (w w' : World)
    → w'.state ≡ w.state
    → lookup k (load_state rc unit w') ≡ lookup k (load_state rc unit w)
unfolding load_state
same_stored rc unit k w w' same = rw same refl

write_state-reload :
    (rc : Reconciler) (unit k : String) (d : Dict Value) (w : World)
    → lookup k d ≡ lookup k (load_state rc unit w)
    → lookup k (load_state rc unit (write_state d w).1) ≡ lookup k (load_state rc unit w)
write_state-reload rc unit k d w agree = elim (write_state-cases d w) [
  | inl same ↦ same_stored rc unit k w (write_state d w).1 same
  | inr stored ↦ load_state-reload rc unit k w (write_state d w).1 d stored agree
]

write_then : (d : Dict Value) (w : World) → ((write_state d >> pure d) w).1 ≡ (write_state d w).1
write_then d w = ground arith

pub write_returned :
    (d after : Dict Value) (w w' : World)
    → (write_state d >> pure d) w ≡ (ok after, w')
    → (after ≡ d) × (w'.state ≡ some d)
write_returned d after w w' e = grind (arith, write_state-stored d w)

module _ (rt : Runtime) (rc : Reconciler) (unit : String) where
  -- A heartbeat, accepted or not, and also where its write fails, changes no core key.
  pub heartbeat-core_kept :
      (k : String) (beat : Dict Value) (w : World)
      → is_core k ≡ true
      → lookup k (load_state rc unit (merge_heartbeat rt rc unit beat w).1)
        ≡ lookup k (load_state rc unit w)
  unfolding merge_heartbeat
  heartbeat-core_kept k beat w core =
      after_match
        (matching rt (as_int (get beat "generation")) (get (load_state rc unit w) "generation"))
    where
      state : Dict Value
      state = load_state rc unit w

      after_match :
          (r : Result Bool)
          → lookup k (load_state rc unit ((lift r >>= λ current. accept current state beat) w).1)
            ≡ lookup k (load_state rc unit w)
      after_match (raised e) = refl
      after_match (ok false) = refl
      after_match (ok true) =
          ap (λ v. lookup k (load_state rc unit v)) (write_then (merged state beat) w)
          ∙ write_state-reload rc unit k (merged state beat) w
              (lookup-merged-core k state beat core)

  -- The heartbeat's generation is an integer, and the number that the loaded state has.
  abbrev pub IsCurrent : Dict Value → World → Type 0
  IsCurrent beat w =
      (n : ℤ) × (as_int (get beat "generation") ≡ some n)
      × (to_int rt (get (load_state rc unit w) "generation") ≡ ok n)

  matching-IsCurrent :
      (reported : Option ℤ) (current : Value)
      → matching rt reported current ≡ ok true
      → (n : ℤ) × (reported ≡ some n) × (to_int rt current ≡ ok n)
  matching-IsCurrent none current e = absurd cc
  matching-IsCurrent (some n) current e = by_stored (to_int rt current) refl e
    where
      by_stored :
          (r : Result ℤ)
          → to_int rt current ≡ r
          → elim r [ ok m ↦ ok (eqb_ℤ n m) | raised x ↦ raised x ] ≡ ok true
          → (m : ℤ) × (some n ≡ some m) × (to_int rt current ≡ ok m)
      by_stored (raised x) same eq = absurd cc
      by_stored (ok m) same eq = let equal : n ≡ m = eqb_ℤ-eq n m cc in (m, ap some equal, same)

  matching_other :
      (reported : Option ℤ) (current : Value)
      → matching rt reported current ≡ ok false
      → ¬ ((n : ℤ) × (reported ≡ some n) × (to_int rt current ≡ ok n))
  matching_other reported current e (n, this, stored) =
      clash (sym (rw (this, matching, stored) at e) ∙ ap ok (eqb_ℤ_refl n))
    where
      clash : ◌≡◌ {A = Result Bool} (ok false) (ok true) → ⊥
      clash eq = cc

  -- Where `merge_heartbeat` returns, for a heartbeat with each key once, there are two cases. Either the
  -- heartbeat's generation is an integer and equal to the generation of the loaded state: then the
  -- returned state is stored, a core key in it has the value of the loaded state, and another key has
  -- the heartbeat's value, if it has one, and else the loaded one. Or that is not so: then nothing is
  -- changed and the loaded state is returned.
  pub heartbeat-fenced :
      (k : String) (beat after : Dict Value) (w w' : World)
      → Distinct beat
      → merge_heartbeat rt rc unit beat w ≡ (ok after, w')
      → (IsCurrent beat w
          × (w'.state ≡ some after)
          × (lookup k after ≡ (
              if is_core k
              then lookup k (load_state rc unit w)
              else or_else (lookup k beat) (lookup k (load_state rc unit w)))))
        ⊎ ((¬ IsCurrent beat w) × (w' ≡ w) × (after ≡ load_state rc unit w))
  unfolding merge_heartbeat
  heartbeat-fenced k beat after w w' once e = by_match (matching rt reported current) refl e
    where
      state : Dict Value
      state = load_state rc unit w

      reported : Option ℤ
      reported = as_int (get beat "generation")

      current : Value
      current = get state "generation"

      merged_lookup :
          lookup k (merged state beat)
          ≡ (if is_core k then lookup k state else or_else (lookup k beat) (lookup k state))
      merged_lookup = elim (Bool-cases (is_core k)) [
        | inl core ↦ rw core (lookup-merged-core k state beat core)
        | inr other ↦ rw other (lookup-merged_other k state beat other once)
      ]

      by_match :
          (r : Result Bool)
          → matching rt reported current ≡ r
          → (lift r >>= λ current. accept current state beat) w ≡ (ok after, w')
          → (IsCurrent beat w
              × (w'.state ≡ some after)
              × (lookup k after ≡ (
                  if is_core k then lookup k state else or_else (lookup k beat) (lookup k state))))
            ⊎ ((¬ IsCurrent beat w) × (w' ≡ w) × (after ≡ state))
      by_match (raised x) m eq = cc
      by_match (ok false) m eq = inr (matching_other reported current m, ground arith, ground arith)
      by_match (ok true) m eq =
          let (value, stored) = write_returned (merged state beat) after w w' eq in
          inl (
            matching-IsCurrent reported current m,
            stored ∙ ap some (sym value),
            ap (lookup k) value ∙ merged_lookup,
          )
