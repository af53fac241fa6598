-- ===== src/Fetch/Cursor.antt =====
-- results.py: cursors, and their form as a checkpoint.
use datasource_kit.Prelude.{Bool, Option, some, String, [], ◌∷◌, if◌then◌else◌, ◌≡◌, arith}
use datasource_kit.Prelude.Dict.{Dict, lookup}
use datasource_kit.Effect.{validation_error, Result, ok, raised}

pub record Cursor : Type 0 where
  pub kind : String
  pub value : String

-- The values of a mapping: a text, or something else.
pub data Field : Type 0 where
  text_field : String → Field
  other_field : Field

-- `not value.strip()`, of the text type of Python
module _ (is_blank : String → Bool) where
  -- `Cursor(kind, value)` with `__post_init__`
  unfoldable pub make_cursor : String → String → Result Cursor
  make_cursor kind value =
      if is_blank kind
      then raised validation_error
      else if is_blank value
      then raised validation_error
      else ok (record { kind = kind; value = value })

  -- `Cursor.from_mapping`, by what the two keys hold
  abbrev from_fields : Option Field → Option Field → Result Cursor
  unfolding make_cursor
  from_fields (some (text_field kind)) (some (text_field value)) = make_cursor kind value
  from_fields _ _ = raised validation_error

  unfoldable pub from_mapping : Dict Field → Result Cursor
  unfolding from_fields
  from_mapping raw = from_fields (lookup "kind" raw) (lookup "value" raw)

-- `Cursor.as_dict`
unfoldable pub as_dict : Cursor → Dict Field
as_dict c = ("kind", text_field c.kind) ∷ ("value", text_field c.value) ∷ []

-- A cursor that was accepted once is rebuilt from its checkpoint form.
pub from_mapping-as_dict :
    (is_blank : String → Bool) (kind value : String) (c : Cursor)
    → make_cursor is_blank kind value ≡ ok c
    → from_mapping is_blank (as_dict c) ≡ ok c
unfolding from_mapping as_dict make_cursor lookup
from_mapping-as_dict is_blank kind value c e = ground arith
