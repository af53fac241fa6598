-- ===== src/Fetch/Tests.antt =====
-- Three units walked backwards, and a walk resumed behind the first of them.
use text.Mathlib.Text.{◌==◌ as str_eq}
use datasource_kit.Prelude.{◌≡◌, refl, Bool, none, some, String, [], ◌∷◌}
use datasource_kit.Prelude.Dict.{lookup, contains, insert}
use datasource_kit.Effect.{ok}
use datasource_kit.Fetch.Cursor.{make_cursor}
use datasource_kit.Fetch.Sequence.{SequencePlanner, in_order, index_unit, build_index, make_planner}
use datasource_kit.Fetch.Resume.{walk, cursor_of, walk-resumes, walk-in_order}

-- the text without a character is the only blank one here
abbrev pub blank : String → Bool
blank s = str_eq s ""

abbrev pub name : String → String
name s = s

abbrev pub planner : SequencePlanner String
planner = record {
  kind = "page";
  encode = name;
  units = "c" ∷ "b" ∷ "a" ∷ [];
  index = ("c", 0) ∷ ("b", 1) ∷ ("a", 2) ∷ [];
}

pub built : make_planner blank ("a" ∷ "b" ∷ "c" ∷ []) "page" name "reverse" ≡ ok planner
unfolding make_planner in_order build_index index_unit make_cursor contains insert lookup
built = refl

walk-in_order_example :
    (in_order {O = String} "reverse" ("a" ∷ "b" ∷ "c" ∷ []) ≡ ok ("c" ∷ "b" ∷ "a" ∷ []))
    × (walk blank 4 planner none ≡ some ("c" ∷ "b" ∷ "a" ∷ []))
walk-in_order_example =
    walk-in_order blank ("a" ∷ "b" ∷ "c" ∷ []) "page" "reverse" name planner built

walk-resumes_example :
    walk blank 3 planner (some (cursor_of blank planner "c")) ≡ some ("b" ∷ "a" ∷ [])
walk-resumes_example =
    walk-resumes blank ("a" ∷ "b" ∷ "c" ∷ []) "page" "reverse" name planner 2 0 "c" built refl refl
