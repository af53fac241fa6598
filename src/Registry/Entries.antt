-- ===== src/Registry/Entries.antt =====
-- registry.py: `Registry`, a dict of entries that is kept without duplicates.
use text.Mathlib.Text.{◌==◌ as str_eq}
use text.Mathlib.TextEquality.{eq_iff}
use datasource_kit.Prelude.{
  suc, ◌+◌, ◌≡◌, refl, ap, ◌∙◌, Bool, true, false, Bool-cases, inl, inr, Option, none, some, String,
  List, [], ◌∷◌, map, arith, length, if◌then◌else◌,
}
use datasource_kit.Prelude.Dict.{Dict, lookup, contains, insert, lookup-insert}
use datasource_kit.Effect.{key_error, value_error, Result, ok, raised}
use datasource_kit.Registry.Sorting.{
  insert_sorted, sorted, IsSorted, count, sorted-count, sorted-IsSorted,
}

abbrev pub key_of : {T : Type 0} → String × T → String
key_of e = e.0

abbrev pub value_of : {T : Type 0} → String × T → T
value_of e = e.1

abbrev pub itself : String → String
itself s = s

module _ {T : Type 0} where
  -- `name if name is not None else getattr(entry, "name", None)`
  abbrev pub chosen : (T → Option String) → T → Option String → Option String
  chosen named entry none = named entry
  chosen named entry (some name) = some name

  -- what `register` does with the key
  unfoldable pub register_as : T → Option String → Dict T → Result T × Dict T
  register_as entry none r = (raised value_error, r)
  register_as entry (some key) r =
      if str_eq key ""
      then (raised value_error, r)
      else if contains key r
      then (raised key_error, r)
      else (ok entry, insert key entry r)

  -- `register`; `named` is the attribute of an entry
  unfoldable pub register : (T → Option String) → T → Option String → Dict T → Result T × Dict T
  unfolding register_as
  register named entry name r = register_as entry (chosen named entry name) r

  abbrev found : Option T → Result T
  found none = raised key_error
  found (some e) = ok e

  -- `get`
  unfoldable pub get_entry : String → Dict T → Result T
  get_entry name r = found (lookup name r)

  abbrev pub keys : Dict T → List String
  keys r = map key_of r

  module _ (le : String → String → Bool) where
    -- `names`
    abbrev pub names : Dict T → List String
    names r = sorted le itself (keys r)

    -- `items`
    abbrev pub items : Dict T → List (String × T)
    items r = sorted le key_of r

    -- `__iter__`
    abbrev pub entries : Dict T → List T
    entries r = map value_of (items r)

  -- Every key stands in the dict once.
  abbrev pub IsUnique : Dict T → Type 0
  IsUnique r = (k : String) → count (str_eq k) (keys r) ≡ (if contains k r then 1 else 0)

  insert-count :
      (k j : String) (e : T) (r : Dict T)
      → contains k r ≡ false
      → count (str_eq j) (keys (insert k e r))
        ≡ count (str_eq j) (keys r) + (if str_eq j k then 1 else 0)
  unfolding insert contains lookup
  insert-count k j e [] h = ground arith
  insert-count k j e ((i, v) ∷ r) h = ground (arith, insert-count k j e r)

  insert-length :
      (k : String) (e : T) (r : Dict T)
      → contains k r ≡ false
      → length (insert k e r) ≡ suc (length r)
  unfolding insert contains lookup
  insert-length k e [] h = refl
  insert-length k e ((i, v) ∷ r) h = ground (arith, insert-length k e r)

  insert-IsUnique :
      (k : String) (e : T) (r : Dict T)
      → contains k r ≡ false
      → IsUnique r
      → IsUnique (insert k e r)
  unfolding contains
  insert-IsUnique k e r new u j =
      ground (arith, insert-count k j e r new, lookup-insert k j e r, eq_iff k j, eq_iff j k, u j)

  -- What a `register` has done, by how it ended.
  abbrev pub Registered :
      (T → Option String) → T → Option String → Dict T → Result T → Dict T → Type 0
  Registered named entry name r (ok e) r' =
      (e ≡ entry)
      × (key : String) × (chosen named entry name ≡ some key)
      × (contains key r ≡ false)
      × ((j : String) → get_entry j r' ≡ (if str_eq key j then ok entry else get_entry j r))
      × (length r' ≡ suc (length r))
  Registered named entry name r (raised e) r' = r' ≡ r

  register_as_lem :
      (named : T → Option String) (entry : T) (name chosen_key : Option String) (r : Dict T)
      → chosen named entry name ≡ chosen_key
      → IsUnique r
      → Registered named entry name r
          (register_as entry chosen_key r).0
          (register_as entry chosen_key r).1
        × IsUnique (register_as entry chosen_key r).1
  unfolding register_as get_entry
  register_as_lem named entry name none r e u = (refl, u)
  register_as_lem named entry name (some key) r e u = elim (Bool-cases (str_eq key "")) [
    | inl empty ↦ rw empty (refl, u)
    | inr full ↦ elim (Bool-cases (contains key r)) [
      | inl old ↦ rw (full, old) (refl, u)
      | inr new ↦
          rw (full, new)
            (
              (refl, key, e, new, λ j. after key j, insert-length key entry r new),
              insert-IsUnique key entry r new u,
            )
    ]
  ]
    where
      after :
          (key j : String)
          → get_entry j (insert key entry r) ≡ (if str_eq key j then ok entry else get_entry j r)
      after key j = ground (arith, lookup-insert key j entry r)

  -- In a registry without duplicate keys: `register` either raises and leaves the registry as it was, or
  -- adds the entry under a new key, where `get` finds it, and leaves what `get` finds under every other
  -- key. There are no duplicate keys afterwards.
  pub register_lem :
      (named : T → Option String) (entry : T) (name : Option String) (r : Dict T)
      → IsUnique r
      → Registered named entry name r
          (register named entry name r).0
          (register named entry name r).1
        × IsUnique (register named entry name r).1
  unfolding register
  register_lem named entry name r u =
      register_as_lem named entry name (chosen named entry name) r refl u

  module _ (le : String → String → Bool) where
    insert-names :
        (k : String) (e : T) (xs : List (String × T))
        → insert_sorted le itself k (map key_of xs) ≡ map key_of (insert_sorted le key_of (k, e) xs)
    insert-names k e [] = refl
    insert-names k e ((j, v) ∷ xs) = elim (Bool-cases (le k j)) [
      | inl first ↦ rw first refl
      | inr later ↦ rw later (ap (λ l. j ∷ l) (insert-names k e xs))
    ]

    names-items : (r : Dict T) → names le r ≡ map key_of (items le r)
    names-items [] = refl
    names-items ((k, e) ∷ r) =
        ap (insert_sorted le itself k) (names-items r) ∙ insert-names k e (items le r)

    -- Where Python's order of texts is total: `names` lists the keys of `items` in the same order, sorted,
    -- and of a registry without duplicates every registered name once and no other.
    pub names_lem :
        (r : Dict T)
        → ((s t : String) → le s t ≡ false → le t s ≡ true)
        → IsUnique r
        → (names le r ≡ map key_of (items le r))
          × IsSorted le itself (names le r)
          × ((k : String) → count (str_eq k) (names le r) ≡ (if contains k r then 1 else 0))
    names_lem r total u = (
      names-items r,
      sorted-IsSorted le itself (keys r) total,
      λ k. sorted-count le itself (str_eq k) (keys r) ∙ u k,
    )
