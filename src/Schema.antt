-- ===== src/Schema.antt =====
-- crates/themql-schema/src/lib.rs: the types of a trained model. A floating-point number is a type
-- `F` of the parameters, on which nothing is computed here.
use the_mql.Base.{ℕ, Option, List, Bool, true, false}
use the_mql.Base.Text.{Text}

pub data ModelFormat : Type 0 where
  torch_script safe_tensors onnx : ModelFormat

pub data FeatureDType : Type 0 where
  f32 f64 i64 boolean : FeatureDType

pub record FeatureSpec : Type 0 where
  pub name : Text
  pub dtype : FeatureDType
  pub shape : List ℕ

-- `NormalizationSpec`, whose `None` is `unnormalized`.
pub data NormalizationSpec : Type 0 where
  unnormalized standard min_max : NormalizationSpec
  custom : Text → NormalizationSpec

pub record FeatureSchema : Type 0 where
  pub features : List FeatureSpec
  pub normalization : NormalizationSpec

-- The metrics by name are in the order of a `BTreeMap`.
pub record ValidationMetrics (F : Type 0) : Type 0 where
  pub loss : F
  pub accuracy : Option F
  pub custom : List (Text × F)

pub record TrainedModel (F : Type 0) : Type 0 where
  pub model_bytes : List ℕ
  pub format : ModelFormat
  pub feature_schema : FeatureSchema
  pub validation_metrics : ValidationMetrics F

-- The derived `PartialEq` of `ModelFormat`.
unfoldable pub format_eq : ModelFormat → ModelFormat → Bool
format_eq torch_script torch_script = true
format_eq safe_tensors safe_tensors = true
format_eq onnx onnx = true
format_eq torch_script safe_tensors = false
format_eq torch_script onnx = false
format_eq safe_tensors torch_script = false
format_eq safe_tensors onnx = false
format_eq onnx torch_script = false
format_eq onnx safe_tensors = false
