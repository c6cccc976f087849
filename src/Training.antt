-- ===== src/Training.antt =====
-- crates/themql-training/src/lib.rs: configurations and errors. Training is in Training/Dense.
use the_mql.Base.{ℕ, Option, ◌++◌}
use the_mql.Base.Decimal.{decimal}
use the_mql.Base.Text.{Text, codes}
use the_mql.Core.Error.{Error, new_error, validation_error}
use the_mql.Core.ErrorCode.{internal_error}
use the_mql.Artifact.{ArtifactError, artifact_error_text}
pub mod Frames
pub mod Dense
pub mod Batches
mod Tests

pub data TrainerKind : Type 0 where
  dense pinn gradient_boosting fine_tuning : TrainerKind

pub record EarlyStoppingConfig (F : Type 0) : Type 0 where
  pub patience : ℕ
  pub min_delta : F
  pub metric : Text

pub data PruningStrategy : Type 0 where
  magnitude structured lottery_ticket : PruningStrategy

pub record PruningConfig (G : Type 0) : Type 0 where
  pub strategy : PruningStrategy
  pub target_sparsity : G

pub data SparsificationStrategy : Type 0 where
  quantization : ℕ → SparsificationStrategy
  distillation : SparsificationStrategy

pub record SparsificationConfig (G : Type 0) : Type 0 where
  pub strategy : SparsificationStrategy
  pub target_sparsity : G

-- `F` is `f64`, and `G` is `f32`.
pub record TrainingConfig (F G : Type 0) : Type 0 where
  pub kind : TrainerKind
  pub epochs : ℕ
  pub batch_size : ℕ
  pub learning_rate : F
  pub weight_decay : Option F
  pub early_stopping : Option (EarlyStoppingConfig F)
  pub pruning : Option (PruningConfig G)
  pub sparsification : Option (SparsificationConfig G)

pub data TrainingError (F : Type 0) : Type 0 where
  dataset_invalid config_invalid pruning_failed sparsification_failed internal_failure :
      Text → TrainingError F
  diverged : ℕ → F → TrainingError F
  artifact_emission_failed : ArtifactError → TrainingError F

module _ {F : Type 0} (display : F → Text) where
  -- The `#[error("…")]` texts.
  unfoldable pub training_error_text : TrainingError F → Text
  unfolding artifact_error_text
  training_error_text (dataset_invalid e) = codes "dataset invalid: " ++ e
  training_error_text (config_invalid e) = codes "config invalid: " ++ e
  training_error_text (diverged epoch loss) =
      codes "training diverged at epoch "
      ++ decimal epoch
      ++ codes " (loss="
      ++ display loss
      ++ codes ")"
  training_error_text (pruning_failed e) = codes "pruning failed: " ++ e
  training_error_text (sparsification_failed e) = codes "sparsification failed: " ++ e
  training_error_text (artifact_emission_failed e) =
      codes "artifact emission failed: " ++ artifact_error_text e
  training_error_text (internal_failure e) = codes "internal error: " ++ e

  abbrev pub internal_of : {J U : Type 0} → TrainingError F → Error J U
  internal_of e = new_error internal_error (training_error_text e)

  -- `From<TrainingError> for Error`
  unfoldable pub error_of_training_error : {J U : Type 0} → TrainingError F → Error J U
  unfolding training_error_text validation_error
  error_of_training_error (dataset_invalid e) =
      validation_error (training_error_text (dataset_invalid e))
  error_of_training_error (config_invalid e) =
      validation_error (training_error_text (config_invalid e))
  error_of_training_error (diverged epoch loss) = internal_of (diverged epoch loss)
  error_of_training_error (pruning_failed e) = internal_of (pruning_failed e)
  error_of_training_error (sparsification_failed e) = internal_of (sparsification_failed e)
  error_of_training_error (artifact_emission_failed e) = internal_of (artifact_emission_failed e)
  error_of_training_error (internal_failure e) = internal_of (internal_failure e)
