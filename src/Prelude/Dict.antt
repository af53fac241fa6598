-- ===== src/Prelude/Dict.antt =====
-- Python's `dict` with text keys, in insertion order: a new key goes last, an old one keeps its
-- place.
use Prim.Native.String.{String}
use mathlib.Core.Path.{◌≡◌, refl, ap}
use mathlib.Core.Bool.{Bool, true, false}
use mathlib.Core.Option.{Option, none, some}
use mathlib.Core.List.{List, [], ◌∷◌, ◌++◌}
use native.Mathlib.Omega.{arith}
use text.Mathlib.Text.{◌==◌}
use text.Mathlib.TextEquality.{eq_iff}
use datasource_kit.Prelude.Tests.{if◌then◌else◌}

abbrev pub Dict {ℓ} : Type ℓ → Type ℓ
Dict V = List (String × V)

module _ {ℓ} {V : Type ℓ} where
  -- `d.get(k)`
  unfoldable pub lookup : String → Dict V → Option V
  lookup k [] = none
  lookup k ((j, v) ∷ d) = if j == k then some v else lookup k d

  -- `k in d`
  unfoldable pub contains : String → Dict V → Bool
  unfolding lookup
  contains k d = elim (lookup k d) [ none ↦ false | some _ ↦ true ]

  -- `d[k] = v`
  unfoldable pub insert : String → V → Dict V → Dict V
  insert k v [] = (k, v) ∷ []
  insert k v ((j, u) ∷ d) = if j == k then (j, v) ∷ d else (j, u) ∷ insert k v d

  abbrev pub or_else : Option V → Option V → Option V
  or_else none o = o
  or_else (some v) o = some v

  abbrev pub value_or : V → Option V → V
  value_or v none = v
  value_or v (some u) = u

  overwrite : Dict V → Dict V → Dict V
  unfolding lookup
  overwrite [] e = []
  overwrite ((j, v) ∷ d) e = (j, value_or v (lookup j e)) ∷ overwrite d e

  fresh : Dict V → Dict V → Dict V
  unfolding contains
  fresh d [] = []
  fresh d ((k, v) ∷ e) = let rest = fresh d e in if contains k d then rest else (k, v) ∷ rest

  -- `d.update(e)`: the keys of d keep their places, the new ones of e follow
  unfoldable pub update : Dict V → Dict V → Dict V
  unfolding overwrite fresh
  update d e = overwrite d e ++ fresh d e

  pub lookup-insert :
      (k j : String) (v : V) (d : Dict V)
      → lookup j (insert k v d) ≡ (if k == j then some v else lookup j d)
  unfolding lookup insert
  lookup-insert k j v [] = refl
  lookup-insert k j v ((i, u) ∷ d) =
      ground (arith, eq_iff k j, eq_iff i k, eq_iff i j, lookup-insert k j v d)

  -- `d.pop(k, None)`
  unfoldable pub remove : String → Dict V → Dict V
  remove k [] = []
  remove k ((j, v) ∷ d) = let rest = remove k d in if j == k then rest else (j, v) ∷ rest

  lookup-append :
      (k : String) (d e : Dict V) → lookup k (d ++ e) ≡ or_else (lookup k d) (lookup k e)
  unfolding lookup
  lookup-append k [] e = ground arith
  lookup-append k ((j, v) ∷ d) e = ground (arith, lookup-append k d e)

  abbrev overwritten : Option V → Option V → Option V
  overwritten none o = none
  overwritten (some v) o = some (value_or v o)

  lookup-overwrite :
      (k : String) (d e : Dict V) → lookup k (overwrite d e) ≡ overwritten (lookup k d) (lookup k e)
  unfolding lookup overwrite
  lookup-overwrite k [] e = refl
  lookup-overwrite k ((j, v) ∷ d) e = ground (arith, eq_iff j k, lookup-overwrite k d e)

  lookup-fresh : (k : String) (d e : Dict V) → lookup k d ≡ none → lookup k (fresh d e) ≡ lookup k e
  unfolding lookup fresh contains
  lookup-fresh k d [] h = refl
  lookup-fresh k d ((j, v) ∷ e) h = ground (arith, eq_iff j k, lookup-fresh k d e h)

  -- After an update a key has its value in e, or else the one in d.
  pub lookup-update :
      (k : String) (d e : Dict V) → lookup k (update d e) ≡ or_else (lookup k e) (lookup k d)
  unfolding update
  lookup-update k d e = ground (
    arith,
    lookup-append k (overwrite d e) (fresh d e),
    lookup-overwrite k d e,
    lookup-fresh k d e,
  )

  -- `{k: v for k, v in d.items() if test(k)}`
  unfoldable pub keep_keys : (String → Bool) → Dict V → Dict V
  keep_keys test [] = []
  keep_keys test ((k, v) ∷ d) =
      let rest = keep_keys test d in if test k then (k, v) ∷ rest else rest

  pub keep_keys-insert :
      (test : String → Bool) (k : String) (v : V) (d : Dict V)
      → test k ≡ false
      → keep_keys test (insert k v d) ≡ keep_keys test d
  unfolding keep_keys insert
  keep_keys-insert test k v [] h = ground arith
  keep_keys-insert test k v ((j, u) ∷ d) h =
      let same : j == k ≡ true → test j ≡ test k = λ e. ap test ((eq_iff j k).0 e) in
      ground (arith, same, keep_keys-insert test k v d h)

  keep_keys-append :
      (test : String → Bool) (d e : Dict V)
      → keep_keys test (d ++ e) ≡ keep_keys test d ++ keep_keys test e
  unfolding keep_keys
  keep_keys-append test [] e = refl
  keep_keys-append test ((k, v) ∷ d) e = ground (arith, keep_keys-append test d e)

  keep_keys-overwrite :
      (test : String → Bool) (d e : Dict V)
      → ((k : String) → test k ≡ true → lookup k d ≡ none)
      → keep_keys test (overwrite d e) ≡ []
  unfolding keep_keys overwrite lookup
  keep_keys-overwrite test [] e h = refl
  keep_keys-overwrite test ((j, v) ∷ d) e h =
      let rest = keep_keys-overwrite test d e (λ k t. ground (arith, h k t)) in
      ground (arith, h j, (eq_iff j j).1 refl, rest)

  keep_keys-fresh :
      (test : String → Bool) (d e : Dict V)
      → ((k : String) → test k ≡ true → lookup k d ≡ none)
      → keep_keys test (fresh d e) ≡ keep_keys test e
  unfolding keep_keys fresh contains
  keep_keys-fresh test d [] h = refl
  keep_keys-fresh test d ((k, v) ∷ e) h = ground (arith, h k, keep_keys-fresh test d e h)

  -- Keys that the updated dict does not have come from the other one alone.
  pub keep_keys-update :
      (test : String → Bool) (d e : Dict V)
      → ((k : String) → test k ≡ true → lookup k d ≡ none)
      → keep_keys test (update d e) ≡ keep_keys test e
  unfolding update
  keep_keys-update test d e h = ground (
    arith,
    keep_keys-append test (overwrite d e) (fresh d e),
    keep_keys-overwrite test d e h,
    keep_keys-fresh test d e h,
  )
