-- ===== src/Registry/Tests.antt =====
-- Provider names at the edges of the pattern, and a diff of two sides.
use Prim.Native.Nat.{Ordering}
use Prim.Native.String.compare
use Prim.Native.String.{compare, [] as empty, ◌∷◌ as char_then}
use text.Mathlib.Text.{◌==◌ as str_eq}
use datasource_kit.Prelude.{ℕ, ◌≡◌, refl, Bool, true, false, String, List, [], ◌∷◌}
use datasource_kit.Prelude.Dict.{Dict, lookup, contains}
use datasource_kit.Registry.Providers.{
  ProviderRegistry, matches, register as register_provider, Registered as ProviderRegistered,
  IsConsistent, register_provider_lem,
}
use datasource_kit.Registry.Diff.{Diff}

-- a line end at the end of a name is let through
line_end :
    (matches true false "store.sqlite" ≡ true)
    × (matches true false "store.sqlite\n" ≡ true)
    × (matches true false "store" ≡ false)
    × (matches true false "store.\n" ≡ false)
unfolding matches
line_end = (refl, refl, refl, refl)

abbrev blank : String → Bool
blank s = str_eq s ""

abbrev vacant : ProviderRegistry ℕ
vacant = record { by_name = []; by_category = [] }

vacant-IsConsistent : IsConsistent vacant
unfolding contains lookup
vacant-IsConsistent k = refl

register_provider_lem_example :
    ProviderRegistered "store.sqlite" 7 "store" vacant
      (register_provider blank "store.sqlite" 7 "store" vacant).0
      (register_provider blank "store.sqlite" 7 "store" vacant).1
    × IsConsistent (register_provider blank "store.sqlite" 7 "store" vacant).1
register_provider_lem_example =
    register_provider_lem blank "store.sqlite" 7 "store" vacant vacant-IsConsistent

abbrev le : String → String → Bool
le s t = elim (compare s t) [ Ordering.gt ↦ false | _ ↦ true ]

abbrev same : String → String
same s = s

abbrev rec : String → Dict String
rec s = ("id", s) ∷ []

abbrev fetched : List (Dict String)
fetched = rec "b" ∷ rec "a" ∷ rec "b" ∷ []

abbrev stored : List (Dict String)
stored = rec "c" ∷ rec "a" ∷ (("name", "x") ∷ []) ∷ []

abbrev outcome : Diff
outcome = record { added = "b" ∷ []; removed = "c" ∷ []; unchanged = "a" ∷ [] }
