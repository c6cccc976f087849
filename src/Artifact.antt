-- ===== src/Artifact.antt =====
-- crates/themql-artifact/src/lib.rs: the types of a model artifact and its errors; the validator, and
-- the loader and the writer, are the children.
use the_mql.Base.{ℕ, Bool, Option, List, ◌++◌}
use the_mql.Base.Text.{Text, codes}
use the_mql.Core.Error.{Error, internal_error}
use the_mql.Core.Time.{Timestamp}
use the_mql.Schema.{ModelFormat, FeatureSchema, NormalizationSpec, ValidationMetrics}
pub mod Validator
pub mod Transfer
mod Tests

pub record PruningMetadata (F : Type 0) : Type 0 where
  pub strategy : Text
  pub target_sparsity : F
  pub achieved_sparsity : F

pub record TensorSchema : Type 0 where
  pub input_shapes : List (List ℕ)
  pub output_shapes : List (List ℕ)
  pub dtype : Text

pub record CompatibilityInfo : Type 0 where
  pub runtime_version : Text
  pub architecture_version : Text
  pub tensor_schema : TensorSchema

pub record ArtifactMetadata (F : Type 0) : Type 0 where
  pub model_id : Text
  pub training_version : Text
  pub dataset_version : Text
  pub feature_schema : FeatureSchema
  pub normalization : NormalizationSpec
  pub validation_metrics : ValidationMetrics F
  pub pruning_metadata : Option (PruningMetadata F)

pub record ModelArtifact (F : Type 0) : Type 0 where
  pub model_bytes : List ℕ
  pub format : ModelFormat
  pub hash : List ℕ
  pub metadata : ArtifactMetadata F
  pub compatibility : CompatibilityInfo
  pub schema_version : ℕ

pub data ArtifactError : Type 0 where
  hash_mismatch incompatible_runtime incompatible_architecture corrupted_artifact missing_metadata :
      ArtifactError
  schema_mismatch : Text → Text → ArtifactError
  validation_failed activation_failed rollback_failed io serialization : Text → ArtifactError

-- The `#[error("…")]` texts.
unfoldable pub artifact_error_text : ArtifactError → Text
artifact_error_text hash_mismatch = codes "artifact hash mismatch"
artifact_error_text (schema_mismatch expected got) =
    codes "schema mismatch: expected " ++ expected ++ codes ", got " ++ got
artifact_error_text incompatible_runtime = codes "incompatible runtime"
artifact_error_text incompatible_architecture = codes "incompatible architecture"
artifact_error_text corrupted_artifact = codes "corrupted artifact"
artifact_error_text missing_metadata = codes "missing metadata"
artifact_error_text (validation_failed e) = codes "validation failed: " ++ e
artifact_error_text (activation_failed e) = codes "activation failed: " ++ e
artifact_error_text (rollback_failed e) = codes "rollback failed: " ++ e
artifact_error_text (io e) = codes "io error: " ++ e
artifact_error_text (serialization e) = codes "serialization error: " ++ e

-- `From<ArtifactError> for Error`
unfoldable pub error_of_artifact_error : {J U : Type 0} → ArtifactError → Error J U
unfolding internal_error artifact_error_text
error_of_artifact_error e = internal_error (artifact_error_text e)

pub record ValidationReport : Type 0 where
  pub hash_ok : Bool
  pub schema_ok : Bool
  pub compatibility_ok : Bool
  pub integrity_ok : Bool
  pub errors : List ArtifactError

pub record RuntimeInfo : Type 0 where
  pub runtime_version : Text
  pub architecture_version : Text
  pub supported_formats : List ModelFormat

pub record ActivationHandle : Type 0 where
  pub model_id : Text
  pub activated_at : Timestamp
