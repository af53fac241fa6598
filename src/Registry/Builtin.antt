-- ===== src/Registry/Builtin.antt =====
-- providers.py: built-in providers on records, and the in-memory store driver as state passing.
use datasource_kit.Prelude.{
  ℕ, ◌≡◌, refl, Option, none, some, String, List, [], ◌∷◌, ◌++◌, length, append_assoc,
}
use datasource_kit.Prelude.Dict.{Dict, lookup}
use datasource_kit.Effect.{Result}
use datasource_kit.Registry.Diff.{record_id}

module _ {V : Type 0} where
  -- `_records_passthrough`
  abbrev pub records_passthrough : List (Dict V) → List (Dict V)
  records_passthrough raw = raw

  -- the counts "replaced" and "previous" of `_diff_full_replace`
  abbrev pub diff_full_replace : List (Dict V) → List (Dict V) → ℕ × ℕ
  diff_full_replace fetched stored = (length fetched, length stored)

  abbrev text_or : (V → String) → String → Option V → String
  text_or str_of default none = default
  text_or str_of default (some v) = str_of v

  -- the count and the status of `_assess_passthrough`; the status is configured
  unfoldable pub assess_passthrough : (V → String) → List (Dict V) → Dict V → ℕ × String
  assess_passthrough str_of records config =
      (length records, text_or str_of "ok" (lookup "status" config))

  -- `_identity_by_field`
  abbrev pub identity_by_field : (V → String) → String → Dict V → Result String
  identity_by_field str_of field r = record_id str_of field r

  -- `_InMemoryStoreDriver`: its state is `_data`
  abbrev pub store_load : List (Dict V) → List (Dict V)
  store_load data_list = data_list

  unfoldable pub store_save : List (Dict V) → List (Dict V) → List (Dict V)
  store_save records data_list = data_list ++ records

  -- the state and the count "upserted"
  unfoldable pub store_upsert : List (Dict V) → List (Dict V) → List (Dict V) × ℕ
  unfolding store_save
  store_upsert records data_list = (store_save records data_list, length records)

  unfoldable pub store_replace_all : List (Dict V) → List (Dict V) → List (Dict V) × ℕ
  store_replace_all records data_list = (records, length records)

  abbrev with_id : (V → String) → Option V → List String → List String
  with_id str_of none rest = rest
  with_id str_of (some v) rest = str_of v ∷ rest

  -- `existing_ids`, as a list that may name an identifier twice
  unfoldable pub existing_ids : (V → String) → List (Dict V) → List String
  existing_ids str_of [] = []
  existing_ids str_of (r ∷ rs) = with_id str_of (lookup "id" r) (existing_ids str_of rs)

  -- The store accumulates: two saves are one save of both lists, in their order, and a `replace_all`
  -- forgets what was saved before it.
  pub saves_accumulate :
      (a b c d : List (Dict V))
      → (store_save b (store_save a d) ≡ store_save (a ++ b) d)
        × (store_save c (store_replace_all a d).0 ≡ store_save c (store_replace_all a b).0)
        × ((store_upsert b (store_upsert a d).0).0 ≡ store_save (a ++ b) d)
  unfolding store_save store_replace_all store_upsert
  saves_accumulate a b c d = (append_assoc d a b, refl, append_assoc d a b)
