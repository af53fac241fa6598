-- ===== src/Fetch/Walk.antt =====
-- The walk of a `SequencePlanner`: asked again and again from the cursor that it named last, it plans
-- every unit once, in the order that was chosen.
use text.Mathlib.TextEquality.{eq_iff}
use datasource_kit.Prelude.{
  ℕ, zero, suc, ◌+◌, ◌≡◌, refl, sym, ap, ◌∙◌, Bool, none, some, String, List, [], ◌∷◌, arith,
  get_elem?,
}
use datasource_kit.Prelude.Dict.{Dict, lookup, contains, insert, lookup-insert}
use datasource_kit.Effect.{Result, ok, raised}
use datasource_kit.Fetch.Cursor.{make_cursor}
use datasource_kit.Fetch.Sequence.{bind, index_unit, build_index}

module _ (is_blank : String → Bool) where
  -- What a round of the loop that goes through has done.
  record Indexed (kind value : String) (i : ℕ) (index out : Dict ℕ) : Type 0 where
    inserted : out ≡ insert value i index
    new : lookup value index ≡ none
    valid : make_cursor is_blank kind value ≡ ok (record { kind = kind; value = value })

  index_unit-Indexed :
      (kind value : String) (i : ℕ) (index out : Dict ℕ)
      → index_unit is_blank kind value i index ≡ ok out
      → Indexed kind value i index out
  unfolding index_unit make_cursor contains
  index_unit-Indexed kind value i index out e = ground arith

  -- an entry survives the insertion of a new key
  survives :
      (kind value v : String) (i j : ℕ) (index out : Dict ℕ)
      → Indexed kind value i index out
      → lookup v index ≡ some j
      → lookup v out ≡ some j
  survives kind value v i j index out x found =
      ground (arith, x.inserted, x.new, eq_iff value v, lookup-insert value v i index)

  pub bind_inversion :
      {A B : Type 0} (r : Result A) (f : A → Result B) (b : B)
      → bind r f ≡ ok b
      → (a : A) × (r ≡ ok a) × (f a ≡ ok b)
  bind_inversion (ok a) f b e = (a, refl, e)
  bind_inversion (raised x) f b e = cc

  module _ {O : Type 0} (kind : String) (encode : O → String) where
    build_index_keeps :
        (us : List O) (i : ℕ) (index out : Dict ℕ) (v : String) (j : ℕ)
        → build_index is_blank kind encode us i index ≡ ok out
        → lookup v index ≡ some j
        → lookup v out ≡ some j
    unfolding build_index
    build_index_keeps [] i index out v j e found = ground arith
    build_index_keeps (u ∷ us) i index out v j e found =
        let (mid, first, rest) =
          bind_inversion (index_unit is_blank kind (encode u) i index)
            (build_index is_blank kind encode us (i + 1)) out e in
        let x = index_unit-Indexed kind (encode u) i index mid first in
        build_index_keeps us (i + 1) mid out v j rest
          (survives kind (encode u) v i j index mid x found)

    -- the unit at k has a valid cursor, whose value is indexed by the unit's place
    pub record Placed (out : Dict ℕ) (place : ℕ) (u : O) : Type 0 where
      pub found : lookup (encode u) out ≡ some place
      pub valid :
          make_cursor is_blank kind (encode u) ≡ ok (record { kind = kind; value = encode u })

    pub build_index-Placed :
        (us : List O) (i : ℕ) (index out : Dict ℕ) (k : ℕ) (u : O)
        → build_index is_blank kind encode us i index ≡ ok out
        → get_elem? us k ≡ some u
        → Placed out (i + k) u
    unfolding build_index
    build_index-Placed [] i index out k u e at = cc
    build_index-Placed (v ∷ us) i index out zero u e at =
        let (mid, first, rest) =
          bind_inversion (index_unit is_blank kind (encode v) i index)
            (build_index is_blank kind encode us (i + 1)) out e in
        let x = index_unit-Indexed kind (encode v) i index mid first in
        let same : v ≡ u = ground arith in
        let here : lookup (encode v) mid ≡ some i = ground (
          arith,
          x.inserted,
          eq_iff (encode v) (encode v),
          lookup-insert (encode v) (encode v) i index,
        ) in
        let kept = build_index_keeps us (i + 1) mid out (encode v) i rest here in
        rw (sym same) (record { found = kept ∙ ap some (omega arith); valid = x.valid })
    build_index-Placed (v ∷ us) i index out (suc k) u e at =
        let (mid, first, rest) =
          bind_inversion (index_unit is_blank kind (encode v) i index)
            (build_index is_blank kind encode us (i + 1)) out e in
        let p = build_index-Placed us (i + 1) mid out k u rest at in
        record { found = p.found ∙ ap some (omega arith); valid = p.valid }
