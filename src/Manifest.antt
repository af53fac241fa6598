-- ===== src/Manifest.antt =====
-- manifest.py: what a datasource declares; inventory.py is in the child module.
pub mod Inventory
mod Tests
use text.Mathlib.Text.{◌==◌ as str_eq}
use datasource_kit.Prelude.{
  Bool, true, false, ◌&&◌, not, Option, none, some, String, List, if◌then◌else◌,
}
use datasource_kit.Prelude.Int.{ℤ}
use datasource_kit.Prelude.Dict.{Dict}
use datasource_kit.Effect.{Exn, value_error, Result, ok, raised}

pub record ExecutionModel : Type 0 where
  pub model : String
  pub step_ref : String

pub record SourceContract : Type 0 where
  pub source_truth : String
  pub enumeration_method : String
  pub evidence : List String
  pub identity_strategy : String
  pub diff_target : String
  pub coverage_unit : String
  pub notes : String

-- `F` is the type of floats
pub record Manifest (F : Type 0) : Type 0 where
  pub name : String
  pub source_type : String
  pub priority : ℤ
  pub jurisdiction : String
  pub implementation_status : String
  pub rate_limit : Dict F
  pub contract : Option SourceContract
  pub execution : Option ExecutionModel

-- `ExecutionModel(...)` with `__post_init__`
unfoldable pub make_execution : ExecutionModel → Result ExecutionModel
make_execution m = if str_eq m.model "" then raised value_error else ok m

abbrev pub model_of : Option ExecutionModel → String
model_of none = ""
model_of (some m) = m.model

abbrev pub names_autonomous : Option ExecutionModel → Bool
names_autonomous none = false
names_autonomous (some m) = str_eq m.model "autonomous"

abbrev pub is_some : {A : Type 0} → Option A → Bool
is_some none = false
is_some (some a) = true

module _ {F : Type 0} where
  -- `is_autonomous`
  unfoldable pub is_autonomous : Manifest F → Bool
  is_autonomous m = names_autonomous m.execution

  -- `execution_model`
  unfoldable pub execution_model : Manifest F → String
  execution_model m = model_of m.execution

  -- `Manifest(...)` with `__post_init__`
  unfoldable pub make_manifest : Manifest F → Result (Manifest F)
  make_manifest m = if is_autonomous m && not (is_some m.contract) then raised value_error else ok m
