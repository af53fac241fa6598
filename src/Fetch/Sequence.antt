-- ===== src/Fetch/Sequence.antt =====
-- fetch.py: `SequencePlanner`. The units are opaque; `encode` gives a unit the value of its cursor.
use text.Mathlib.Text.{◌==◌ as str_eq}
use datasource_kit.Prelude.{
  ℕ, ◌+◌, Bool, Option, none, some, String, List, [], ◌∷◌, length, get_elem?, leb, if◌then◌else◌,
}
use datasource_kit.Prelude.Dict.{Dict, lookup, contains, insert}
use datasource_kit.Effect.{key_error, validation_error, Result, ok, raised}
use datasource_kit.Fetch.Cursor.{Cursor, make_cursor}

pub record FetchPlan (O : Type 0) : Type 0 where
  pub ref : O
  pub cursor : Cursor

-- `StepDecision(STOP)` and `StepDecision(CONTINUE, plan)`
pub data Planned (O : Type 0) : Type 0 where
  stop : Planned O
  fetch : FetchPlan O → Planned O

-- the attributes of a `SequencePlanner`
pub record SequencePlanner (O : Type 0) : Type 0 where
  pub kind : String
  pub encode : O → String
  pub units : List O
  pub index : Dict ℕ

abbrev pub bind : {A B : Type 0} → Result A → (A → Result B) → Result B
bind (ok a) f = f a
bind (raised e) f = raised e

abbrev pub reversed_onto : {A : Type 0} → List A → List A → List A
reversed_onto [] acc = acc
reversed_onto (x ∷ xs) acc = reversed_onto xs (x ∷ acc)

-- `SequenceOrder(order)` and the order of the walk
unfoldable pub in_order : {O : Type 0} → String → List O → Result (List O)
in_order order units =
    if str_eq order "forward"
    then ok units
    else if str_eq order "reverse"
    then ok (reversed_onto units [])
    else raised validation_error

module _ (is_blank : String → Bool) where
  -- one round of the loop over the units: a valid cursor, and no value twice
  unfoldable pub index_unit : String → String → ℕ → Dict ℕ → Result (Dict ℕ)
  index_unit kind value i index =
      bind (make_cursor is_blank kind value)
        (λ _. if contains value index then raised validation_error else ok (insert value i index))

module _ (is_blank : String → Bool) {O : Type 0} where
  unfoldable pub build_index : String → (O → String) → List O → ℕ → Dict ℕ → Result (Dict ℕ)
  build_index kind encode [] i index = ok index
  build_index kind encode (u ∷ us) i index =
      bind (index_unit is_blank kind (encode u) i index) (build_index kind encode us (i + 1))

  -- `SequencePlanner(...)`
  unfoldable pub make_planner : List O → String → (O → String) → String → Result (SequencePlanner O)
  make_planner units kind encode order = bind (in_order order units) (λ ordered.
      if is_blank kind
      then raised validation_error
      else bind (build_index kind encode ordered 0 [])
          (λ index. ok (record { kind = kind; encode = encode; units = ordered; index = index })))

  -- `_continue`; the index is in range where the code calls it
  unfoldable pub continue_at : SequencePlanner O → Option O → Result (Planned O)
  unfolding make_cursor
  continue_at p none = raised key_error
  continue_at p (some u) =
      bind (make_cursor is_blank p.kind (p.encode u))
        (λ c. ok (fetch (record { ref = u; cursor = c })))

  -- what follows a cursor whose index is known
  unfoldable pub after_index : SequencePlanner O → Option ℕ → Result (Planned O)
  unfolding continue_at
  after_index p none = raised validation_error
  after_index p (some i) =
      if leb (length p.units) (i + 1) then ok stop else continue_at p (get_elem? p.units (i + 1))

  -- `plan`
  unfoldable pub plan : SequencePlanner O → Option Cursor → Result (Planned O)
  unfolding continue_at after_index
  plan p cursor = elim p.units [
    | [] ↦ ok stop
    | u ∷ us ↦ elim cursor [
      | none ↦ continue_at p (some u)
      | some c ↦
          if str_eq c.kind p.kind
          then after_index p (lookup c.value p.index)
          else raised validation_error
    ]
  ]

  abbrev remaining : SequencePlanner O → Cursor → Option ℕ → Result (Option Cursor)
  remaining p c none = raised validation_error
  remaining p c (some i) = if leb (length p.units) (i + 1) then ok none else ok (some c)

  -- `checkpoint_after`
  unfoldable pub checkpoint_after : SequencePlanner O → FetchPlan O → Result (Option Cursor)
  checkpoint_after p current =
      if str_eq (current.cursor).kind p.kind
      then remaining p current.cursor (lookup (current.cursor).value p.index)
      else raised validation_error
