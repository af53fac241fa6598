-- ===== src/Registry/Diff.antt =====
-- providers.py: `_diff_by_id`, on the identifiers of the records. A record without the key "id" is left
-- out; the sets of Python are lists without duplicates here.
use text.Mathlib.Text.{◌==◌ as str_eq}
use datasource_kit.Prelude.{
  ℕ, ◌≡◌, Bool, true, false, ◌&&◌, not, String, List, [], ◌∷◌, if◌then◌else◌, Option, none, some,
}
use datasource_kit.Prelude.Dict.{Dict, lookup, contains}
use datasource_kit.Effect.{key_error, Result, ok, raised}
use datasource_kit.Registry.Sorting.{count, sorted}

-- `x in s`
abbrev pub member : String → List String → Bool
member x [] = false
member x (y ∷ ys) = let rest = member x ys in if str_eq x y then true else rest

-- `s.add(x)`
unfoldable pub add : String → List String → List String
add x s = if member x s then s else x ∷ s

abbrev keep : (String → Bool) → List String → List String
keep test [] = []
keep test (x ∷ xs) = let rest = keep test xs in if test x then x ∷ rest else rest

-- `a - b`
unfoldable pub difference : List String → List String → List String
difference a b = keep (λ x. not (member x b)) a

-- `a & b`
unfoldable pub intersection : List String → List String → List String
intersection a b = keep (λ x. member x b) a

abbrev pub one_if : Bool → ℕ
one_if b = if b then 1 else 0

-- The list is a set: an element stands in it once.
abbrev IsSetLike : List String → Type 0
IsSetLike s = (x : String) → count (str_eq x) s ≡ one_if (member x s)

pub record Diff : Type 0 where
  pub added : List String
  pub removed : List String
  pub unchanged : List String

module _ {V : Type 0} (str_of : V → String) where
  abbrev field_of : Option V → Result String
  field_of none = raised key_error
  field_of (some v) = ok (str_of v)

  -- `_record_id`; `field` is the configured key
  unfoldable pub record_id : String → Dict V → Result String
  record_id field record_dict = field_of (lookup field record_dict)

  abbrev with_id : Result String → Result (List String) → Result (List String)
  with_id (raised e) rest = raised e
  with_id (ok x) (raised e) = raised e
  with_id (ok x) (ok s) = ok (add x s)

  -- `{_record_id(record, config) for record in records if "id" in record}`
  unfoldable pub ids : String → List (Dict V) → Result (List String)
  ids field [] = ok []
  ids field (r ∷ rs) =
      let rest = ids field rs in if contains "id" r then with_id (record_id field r) rest else rest

  module _ (le : String → String → Bool) where
    abbrev pub diff_of : List String → List String → Diff
    diff_of fetched stored = record {
      added = sorted le (λ s. s) (difference fetched stored);
      removed = sorted le (λ s. s) (difference stored fetched);
      unchanged = sorted le (λ s. s) (intersection fetched stored);
    }

    abbrev both : Result (List String) → Result (List String) → Result Diff
    both (raised e) stored = raised e
    both (ok f) (raised e) = raised e
    both (ok f) (ok s) = ok (diff_of f s)

    -- `_diff_by_id`
    unfoldable pub diff_by_id : String → List (Dict V) → List (Dict V) → Result Diff
    diff_by_id field fetched stored = both (ids field fetched) (ids field stored)

  -- the record has an identifier, and it is x
  abbrev is_id : String → Result String → Bool
  is_id x (ok y) = str_eq x y
  is_id x (raised e) = false

  abbrev identified_by : String → String → Dict V → Bool
  identified_by field x r = contains "id" r && is_id x (record_id field r)

  -- some record has the identifier x
  abbrev pub identified : String → String → List (Dict V) → Bool
  identified field x [] = false
  identified field x (r ∷ rs) =
      let rest = identified field x rs in if identified_by field x r then true else rest

  record Ids (field : String) (rs : List (Dict V)) (s : List String) : Type 0 where
    once : IsSetLike s
    members : (x : String) → member x s ≡ identified field x rs

  -- How often x stands in the three lists, where it is or is not an identifier of a record of each side.
  abbrev pub Partitions : String → Bool → Bool → Diff → Type 0
  Partitions x fetched stored d =
      (count (str_eq x) d.added ≡ one_if (fetched && not stored))
      × (count (str_eq x) d.removed ≡ one_if (stored && not fetched))
      × (count (str_eq x) d.unchanged ≡ one_if (fetched && stored))
