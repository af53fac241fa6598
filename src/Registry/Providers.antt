-- ===== src/Registry/Providers.antt =====
-- providers.py: `ProviderRegistry`, its test on names, and its two dicts.
use Prim.Native.Char.{Char, code}
use Prim.Native.String.{[] as empty, ◌∷◌ as char_then}
use text.Mathlib.Text.{◌==◌ as str_eq}
use text.Mathlib.TextEquality.{eq_iff}
use datasource_kit.Prelude.{
  ℕ, ◌+◌, ◌≡◌, refl, Bool, true, false, ◌&&◌, ◌||◌, not, Bool-cases, inl, inr, Option, none, some,
  String, List, [], ◌∷◌, ◌++◌, arith, leb, ◌==◌, if◌then◌else◌,
}
use datasource_kit.Prelude.Dict.{Dict, lookup, contains, insert, lookup-insert, value_or}
use datasource_kit.Effect.{registry_error, Result, ok, raised}
use datasource_kit.Registry.Sorting.{count, sorted}

abbrev between : ℕ → ℕ → Char → Bool
between low high c = leb low (code c) && leb (code c) high

-- [a-z]
abbrev pub is_lower : Char → Bool
is_lower c = between 97 122 c

-- [a-z0-9_]
abbrev pub is_tail : Char → Bool
is_tail c = is_lower c || (between 48 57 c || code c == 95)

-- `$` matches at the end, and before a line end that is the last character
abbrev at_line_end : Char → String → Bool
at_line_end c empty = code c == 10
at_line_end c _ = false

-- `_NAME_RE.match`, where `first` says that the next character is the first one of a part, and `dotted`
-- that a part is complete already
unfoldable pub matches : Bool → Bool → String → Bool
matches first dotted empty = not first && dotted
matches first dotted (char_then c rest) =
    let same_part = matches false dotted rest in
    let next_part = matches true true rest in
    if first
    then is_lower c && same_part
    else if is_tail c
    then same_part
    else if code c == 46
    then next_part
    else dotted && at_line_end c rest

-- the attributes of a `ProviderRegistry`
pub record ProviderRegistry (T : Type 0) : Type 0 where
  pub by_name : Dict T
  pub by_category : Dict (List String)

-- `d.setdefault(category, []).append(name)`
unfoldable pub append_under : String → String → Dict (List String) → Dict (List String)
append_under category name [] = (category, name ∷ []) ∷ []
append_under category name ((j, l) ∷ d) =
    let rest = append_under category name d in
    if str_eq j category then (j, l ++ name ∷ []) ∷ d else (j, l) ∷ rest

-- how often a name stands in the categories
abbrev pub total : String → Dict (List String) → ℕ
total name [] = 0
total name ((j, l) ∷ d) = count (str_eq name) l + total name d

count-append :
    (test : String → Bool) (l : List String) (x : String)
    → count test (l ++ x ∷ []) ≡ count test l + (if test x then 1 else 0)
count-append test [] x = ground arith
count-append test (y ∷ l) x = ground (arith, count-append test l x)

total-append_under :
    (k category name : String) (d : Dict (List String))
    → total k (append_under category name d) ≡ total k d + (if str_eq k name then 1 else 0)
unfolding append_under
total-append_under k category name [] = ground arith
total-append_under k category name ((j, l) ∷ d) =
    ground (arith, total-append_under k category name d, count-append (str_eq k) l name)

abbrev pub names_in : String → Dict (List String) → List String
names_in category d = value_or [] (lookup category d)

names-append_under :
    (c category name : String) (d : Dict (List String))
    → names_in c (append_under category name d)
      ≡ (if str_eq category c then names_in c d ++ name ∷ [] else names_in c d)
unfolding append_under lookup
names-append_under c category name [] = ground arith
names-append_under c category name ((j, l) ∷ d) =
    ground (
      arith,
      names-append_under c category name d,
      eq_iff j category,
      eq_iff category c,
      eq_iff j c,
    )

module _ {T : Type 0} where
  module _ (is_blank : String → Bool) where
    -- `register`
    unfoldable pub register :
        String → T → String → ProviderRegistry T → Result (Unit {0}) × ProviderRegistry T
    register name fn category r =
        if str_eq name "" || not (matches true false name)
        then (raised registry_error, r)
        else if is_blank category
        then (raised registry_error, r)
        else if contains name r.by_name
        then (raised registry_error, r)
        else (
          ok tt,
          record {
            by_name = insert name fn r.by_name;
            by_category = append_under category name r.by_category;
          },
        )

  abbrev found : Option T → Result T
  found none = raised registry_error
  found (some fn) = ok fn

  -- `get` and `__getitem__`
  unfoldable pub get_provider : String → ProviderRegistry T → Result T
  get_provider name r = found (lookup name r.by_name)

  -- `has` and `__contains__`
  abbrev pub has : String → ProviderRegistry T → Bool
  has name r = contains name r.by_name

  -- `names_by_category`
  unfoldable pub names_by_category :
      (String → String → Bool) → String → ProviderRegistry T → List String
  names_by_category le category r = sorted le (λ s. s) (names_in category r.by_category)

  -- A name stands in one category, once, if it is registered, and in none if it is not.
  abbrev pub IsConsistent : ProviderRegistry T → Type 0
  IsConsistent r = (k : String) → total k r.by_category ≡ (if has k r then 1 else 0)

  -- What a `register` has done, by how it ended.
  abbrev pub Registered :
      String → T → String → ProviderRegistry T → Result (Unit {0}) → ProviderRegistry T → Type 0
  Registered name fn category r (ok _) r' =
      (has name r ≡ false)
      × ((k : String) → get_provider k r' ≡ (if str_eq name k then ok fn else get_provider k r))
      × ((c : String)
          → names_in c r'.by_category ≡ (
              if str_eq category c
              then names_in c r.by_category ++ name ∷ []
              else names_in c r.by_category))
  Registered name fn category r (raised e) r' = (e ≡ registry_error) × (r' ≡ r)

  module _ (is_blank : String → Bool) where
    added-IsConsistent :
        (name : String) (fn : T) (category : String) (r : ProviderRegistry T)
        → has name r ≡ false
        → IsConsistent r
        → IsConsistent (record {
          by_name = insert name fn r.by_name;
          by_category = append_under category name r.by_category;
        })
    unfolding contains
    added-IsConsistent name fn category r new c k = ground (
      arith,
      total-append_under k category name r.by_category,
      lookup-insert name k fn r.by_name,
      eq_iff k name,
      eq_iff name k,
      c k,
    )

    added-get :
        (name k : String) (fn : T) (d : Dict T)
        → found (lookup k (insert name fn d))
          ≡ (if str_eq name k then ok fn else found (lookup k d))
    added-get name k fn d = ground (arith, lookup-insert name k fn d)

    -- In a registry where every registered name stands in exactly one category: `register` either raises
    -- RegistryError and changes nothing, or makes the new name available under its function and last in
    -- its category, and changes no other name and no other category. The registry stays consistent.
    pub register_provider_lem :
        (name : String) (fn : T) (category : String) (r : ProviderRegistry T)
        → IsConsistent r
        → Registered name fn category r
            (register is_blank name fn category r).0
            (register is_blank name fn category r).1
          × IsConsistent (register is_blank name fn category r).1
    unfolding register get_provider
    register_provider_lem name fn category r c =
        elim (Bool-cases (str_eq name "" || not (matches true false name))) [
          | inl bad ↦ rw bad ((refl, refl), c)
          | inr good ↦ elim (Bool-cases (is_blank category)) [
            | inl blank ↦ rw (good, blank) ((refl, refl), c)
            | inr some_category ↦ elim (Bool-cases (has name r)) [
              | inl old ↦ rw (good, some_category, old) ((refl, refl), c)
              | inr new ↦
                  rw (good, some_category, new)
                    (
                      (
                        new,
                        λ k. added-get name k fn r.by_name,
                        λ c'. names-append_under c' category name r.by_category,
                      ),
                      added-IsConsistent name fn category r new c,
                    )
            ]
          ]
        ]
