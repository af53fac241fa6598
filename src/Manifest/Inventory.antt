-- ===== src/Manifest/Inventory.antt =====
-- inventory.py: `fleet_inventory`. `importlib` is an argument.
use Prim.Native.String.{◌++◌ as text_append}
use text.Mathlib.Text.{◌==◌ as str_eq}
use text.Mathlib.TextEquality.{eq_iff}
use datasource_kit.Prelude.{
  ◌≡◌, ◌≢◌, ◌∙◌, refl, sym, ap, ◌⊎◌, inl, inr, Bool, true, false, Bool-cases, ◌||◌, not, Option,
  none, some, String, List, [], ◌∷◌, map, arith, if◌then◌else◌,
}
use datasource_kit.Prelude.Dict.{Dict}
use datasource_kit.Effect.{Exn, inventory_error, Result, ok, raised}
use datasource_kit.Manifest.{
  Manifest, ExecutionModel, SourceContract, is_some, names_autonomous, model_of, is_autonomous,
  execution_model, make_manifest,
}

-- an attribute of a module: a manifest or another object
pub data Attribute (F : Type 0) : Type 0 where
  manifest : Manifest F → Attribute F
  other : Attribute F

-- what an import gives: an ImportError, another exception, or a module with its attributes
pub data Imported (F : Type 0) : Type 0 where
  import_error : Imported F
  broken : Exn → Imported F
  loaded : (String → Option (Attribute F)) → Imported F

pub record InventoryEntry (F : Type 0) : Type 0 where
  pub name : String
  pub manifest : Manifest F
  pub is_autonomous : Bool
  pub has_contract : Bool
  pub execution_model : String
  pub rate_limit : Dict F

module _ {F : Type 0} where
  -- `InventoryEntry.from_manifest`
  abbrev pub from_manifest : String → Manifest F → InventoryEntry F
  from_manifest name m = record {
    name = name;
    manifest = m;
    is_autonomous = is_autonomous m;
    has_contract = is_some m.contract;
    execution_model = execution_model m;
    rate_limit = m.rate_limit;
  }

  abbrev accepted : Option (Attribute F) → Result (Manifest F)
  accepted none = raised inventory_error
  accepted (some Attribute.other) = raised inventory_error
  accepted (some (Attribute.manifest m)) = ok m

  abbrev from_module : Imported F → String → Result (Manifest F)
  from_module import_error attr = raised inventory_error
  from_module (broken e) attr = raised e
  from_module (loaded attributes) attr = accepted (attributes attr)

  module _ (import_module : String → Imported F) where
    -- `_load_manifest`
    unfoldable pub load_manifest : String → String → Result (Manifest F)
    load_manifest module_path attr = from_module (import_module module_path) attr

    -- `f"{root}.{ds}.{submodule}"`
    unfoldable pub module_path : String → String → String → String
    module_path root submodule ds =
        let base = text_append root (text_append "." ds) in
        if str_eq submodule "" then base else text_append base (text_append "." submodule)

    abbrev entered :
        String
        → Result (Manifest F)
        → Result (List (InventoryEntry F))
        → Result (List (InventoryEntry F))
    entered ds (raised e) rest = raised e
    entered ds (ok m) (raised e) = raised e
    entered ds (ok m) (ok entries) = ok (from_manifest ds m ∷ entries)

    -- `fleet_inventory`
    unfoldable pub fleet_inventory :
        String → String → String → List String → Result (List (InventoryEntry F))
    fleet_inventory root submodule attr [] = ok []
    fleet_inventory root submodule attr (ds ∷ rest) =
        entered ds (load_manifest (module_path root submodule ds) attr)
          (fleet_inventory root submodule attr rest)

    -- what an entry says of a manifest's execution model: whether it is "autonomous", and its name
    abbrev pub Executed : Option ExecutionModel → Bool → String → Type 0
    Executed none autonomous name = (autonomous ≡ false) × (name ≡ "")
    Executed (some m) autonomous name =
        (((autonomous ≡ true) × (m.model ≡ "autonomous"))
          ⊎ ((autonomous ≡ false) × (m.model ≢ "autonomous")))
        × (name ≡ m.model)

    -- what it says of the contract: whether there is one
    abbrev pub Contracted : Option SourceContract → Bool → Type 0
    Contracted none has = has ≡ false
    Contracted (some c) has = has ≡ true

    -- every entry has the manifest that its module declares, with flags that tell of this manifest
    abbrev pub Declared : String → String → String → List (InventoryEntry F) → Type 0
    Declared root submodule attr [] = Unit
    Declared root submodule attr (e ∷ es) =
        (load_manifest (module_path root submodule e.name) attr ≡ ok e.manifest)
        × Executed (e.manifest).execution e.is_autonomous e.execution_model
        × Contracted (e.manifest).contract e.has_contract
        × (e.rate_limit ≡ (e.manifest).rate_limit)
        × ((not e.is_autonomous || e.has_contract) ≡ true)
        × Declared root submodule attr es

    from_manifest-Executed :
        (name : String) (m : Manifest F)
        → Executed m.execution
            (from_manifest name m).is_autonomous
            (from_manifest name m).execution_model
    unfolding is_autonomous execution_model
    from_manifest-Executed name m = by_execution m.execution
      where
        by_execution : (x : Option ExecutionModel) → Executed x (names_autonomous x) (model_of x)
        by_execution none = (refl, refl)
        by_execution (some x) = (
          elim (Bool-cases (str_eq x.model "autonomous")) [
            | inl same ↦ inl (same, (eq_iff x.model "autonomous").0 same)
            | inr differ ↦ inr (differ, λ e. clash (sym differ ∙ (eq_iff x.model "autonomous").1 e))
          ],
          refl,
        )
          where
            clash : false ≡ true → ⊥
            clash e = cc

    from_manifest-Contracted :
        (name : String) (m : Manifest F) → Contracted m.contract (from_manifest name m).has_contract
    from_manifest-Contracted name m = by_contract m.contract
      where
        by_contract : (c : Option SourceContract) → Contracted c (is_some c)
        by_contract none = refl
        by_contract (some c) = refl

    autonomous_contract :
        (m : Manifest F)
        → make_manifest m ≡ ok m
        → (not (is_autonomous m) || is_some m.contract) ≡ true
    unfolding make_manifest is_autonomous
    autonomous_contract m e = ground arith

    after_load :
        (root submodule attr ds : String) (datasources : List String) (r : Result (Manifest F))
        (rest : Result (List (InventoryEntry F))) (entries : List (InventoryEntry F))
        → ((path name : String) (m : Manifest F)
            → load_manifest path name ≡ ok m
            → make_manifest m ≡ ok m)
        → load_manifest (module_path root submodule ds) attr ≡ r
        → ((es : List (InventoryEntry F))
            → rest ≡ ok es
            → (map (λ e. e.name) es ≡ datasources) × Declared root submodule attr es)
        → entered ds r rest ≡ ok entries
        → (map (λ e. e.name) entries ≡ ds ∷ datasources) × Declared root submodule attr entries
    after_load root submodule attr ds datasources (raised x) rest entries made here ih e = absurd cc
    after_load root submodule attr ds datasources (ok m) (raised x) entries made here ih e =
        absurd cc
    after_load root submodule attr ds datasources (ok m) (ok es) entries made here ih e =
        let (names, declared) = ih es refl in
        let same : from_manifest ds m ∷ es ≡ entries = cc in
        rw (sym same) (
          ap (λ l. ds ∷ l) names,
          (
            here,
            from_manifest-Executed ds m,
            from_manifest-Contracted ds m,
            refl,
            autonomous_contract m (made (module_path root submodule ds) attr m here),
            declared,
          ),
        )

    -- Where every manifest that a module declares was accepted by its constructor: an inventory that is
    -- returned has one entry for each datasource, in their order, skipping none. The entry has the
    -- manifest that the datasource's module declares and that manifest's rate limit; it says autonomous
    -- exactly when the manifest's execution model is named "autonomous", names that model, or "" where
    -- there is none, says that there is a contract exactly when the manifest has one, and never says
    -- autonomous of a manifest without a contract.
    pub fleet_inventory_lem :
        (root submodule attr : String) (datasources : List String)
        (entries : List (InventoryEntry F))
        → ((path name : String) (m : Manifest F)
            → load_manifest path name ≡ ok m
            → make_manifest m ≡ ok m)
        → fleet_inventory root submodule attr datasources ≡ ok entries
        → (map (λ e. e.name) entries ≡ datasources) × Declared root submodule attr entries
    unfolding fleet_inventory
    fleet_inventory_lem root submodule attr [] entries made e =
        let same : [] ≡ entries = cc in rw (sym same) (refl, tt)
    fleet_inventory_lem root submodule attr (ds ∷ rest) entries made e =
        after_load root submodule attr ds rest (load_manifest (module_path root submodule ds) attr)
          (fleet_inventory root submodule attr rest) entries made refl
          (λ es f. fleet_inventory_lem root submodule attr rest es made f) e
