-- ===== src/Manifest/Tests.antt =====
-- Two datasources, one of them autonomous.
use text.Mathlib.Text.{◌==◌ as str_eq}
use datasource_kit.Prelude.{
  ℕ, ◌≡◌, refl, sym, Bool-cases, inl, inr, none, some, String, [], ◌∷◌, map, if◌then◌else◌,
}
use datasource_kit.Prelude.Int.{pos}
use datasource_kit.Effect.{Result, ok}
use datasource_kit.Manifest.{Manifest, SourceContract, is_autonomous, make_manifest}
use datasource_kit.Manifest.Inventory.{
  Attribute, Imported, Declared, from_manifest, load_manifest, module_path, fleet_inventory,
  fleet_inventory_lem,
}

abbrev contract : SourceContract
contract = record {
  source_truth = "register";
  enumeration_method = "pages";
  evidence = [];
  identity_strategy = "number";
  diff_target = "store";
  coverage_unit = "source_defined";
  notes = "";
}

abbrev worker : Manifest ℕ
worker = record {
  name = "worker";
  source_type = "scraper";
  priority = pos 50;
  jurisdiction = "";
  implementation_status = "active";
  rate_limit = ("rps", 1) ∷ [];
  contract = some contract;
  execution = some (record { model = "autonomous"; step_ref = "" });
}

abbrev batch : Manifest ℕ
batch = record worker { name = "batch"; contract = none; execution = none }

abbrev modules : String → Imported ℕ
modules path =
    if str_eq path "p.worker.manifest"
    then Imported.loaded (λ name. some (Attribute.manifest worker))
    else Imported.loaded (λ name. some (Attribute.manifest batch))

worker_made : make_manifest worker ≡ ok worker
unfolding make_manifest is_autonomous
worker_made = refl

batch_made : make_manifest batch ≡ ok batch
unfolding make_manifest is_autonomous
batch_made = refl

made :
    (path name : String) (m : Manifest ℕ)
    → load_manifest modules path name ≡ ok m
    → make_manifest m ≡ ok m
unfolding load_manifest
made path name m e = elim (Bool-cases (str_eq path "p.worker.manifest")) [
  | inl first ↦ let same : worker ≡ m = one m (rw first at e) in rw (sym same) worker_made
  | inr other ↦ let same : batch ≡ m = one m (rw other at e) in rw (sym same) batch_made
]
  where
    one : {k : Manifest ℕ} (m : Manifest ℕ) → ◌≡◌ {A = Result (Manifest ℕ)} (ok k) (ok m) → k ≡ m
    one m eq = cc

found :
    fleet_inventory modules "p" "manifest" "MANIFEST" ("worker" ∷ "batch" ∷ [])
    ≡ ok (from_manifest "worker" worker ∷ from_manifest "batch" batch ∷ [])
unfolding fleet_inventory load_manifest module_path
found = refl

fleet_inventory_lem_example :
    (map (λ e. e.name) (from_manifest "worker" worker ∷ from_manifest "batch" batch ∷ [])
      ≡ "worker" ∷ "batch" ∷ [])
    × Declared modules "p" "manifest" "MANIFEST"
        (from_manifest "worker" worker ∷ from_manifest "batch" batch ∷ [])
fleet_inventory_lem_example =
    fleet_inventory_lem modules "p" "manifest" "MANIFEST" ("worker" ∷ "batch" ∷ [])
      (from_manifest "worker" worker ∷ from_manifest "batch" batch ∷ []) made found
