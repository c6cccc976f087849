-- ===== src/Artifact/Transfer.antt =====
-- crates/themql-artifact/src/lib.rs: `FileArtifactLoader` and `BincodeArtifactWriter`. The files of the
-- system, the codec `bincode` and the hash `blake3` are parameters.
use the_mql.Base.{
  ℕ, Bool, true, false, not, Option, none, some, List, [], ◌∷◌, ◌++◌, map, is_empty, if◌then◌else◌,
  Result, ok, err, map_err, ◌>>=◌,
}
use the_mql.Base.Effects
use the_mql.Base.Effects.{M}
use the_mql.Base.Text.{Text, codes}
use the_mql.Core.Time.{now_wall_clock}
use the_mql.Schema.{TrainedModel}
use the_mql.Artifact.{
  ArtifactMetadata, ModelArtifact, ArtifactError, validation_failed, activation_failed, io,
  serialization, corrupted_artifact, artifact_error_text, RuntimeInfo, ValidationReport,
  ActivationHandle,
}
use the_mql.Artifact.Validator.{
  HashValidator, new_validator, validator_with_target, feature_elements, validate,
}
pub mod RoundTrip
pub mod Loading

-- `std::fs::read` and `std::fs::write`; an error is its text.
pub record Files (W : Type 0) : Type 0 where
  pub read : Text → W → Result Text (List ℕ)
  pub write : Text → List ℕ → M W Text (Unit {0})

-- `bincode` on artifacts.
pub record Codec (F : Type 0) : Type 0 where
  pub serialize : ModelArtifact F → Result Text (List ℕ)
  pub deserialize : List ℕ → Result Text (ModelArtifact F)

-- `join(sep)` on texts.
unfoldable pub join_with : Text → List Text → Text
join_with sep [] = []
join_with sep (t ∷ []) = t
join_with sep (t ∷ u ∷ ts) = t ++ sep ++ join_with sep (u ∷ ts)

-- The texts of the errors of a report.
unfoldable pub errors_text : List ArtifactError → Text
unfolding join_with artifact_error_text
errors_text errors = join_with (codes "; ") (map artifact_error_text errors)

-- `if !report.errors.is_empty() { return Err(…); }`, and what is returned else.
unfoldable pub accept :
    {A : Type 0} → (Text → ArtifactError) → A → ValidationReport → Result ArtifactError A
unfolding errors_text
accept fail a report =
    if not (is_empty report.errors) then err (fail (errors_text report.errors)) else ok a

pub record FileArtifactLoader : Type 0 where
  pub validator : HashValidator

-- `FileArtifactLoader::new`
abbrev pub new_loader : FileArtifactLoader
new_loader = record { validator = new_validator }

-- `FileArtifactLoader::with_target`
abbrev pub loader_with_target : RuntimeInfo → FileArtifactLoader
loader_with_target target = record { validator = validator_with_target target }

pub record BincodeArtifactWriter : Type 0 where
  pub runtime_version : Text
  pub architecture_version : Text

-- `BincodeArtifactWriter::new`
abbrev pub new_writer : Text → Text → BincodeArtifactWriter
new_writer runtime_version architecture_version = record {
  runtime_version = runtime_version;
  architecture_version = architecture_version;
}

module _ {F : Type 0} (blake3_hash : List ℕ → List ℕ) where
  -- `FileArtifactLoader::activate`
  unfoldable pub activate :
      FileArtifactLoader → ModelArtifact F → Result ArtifactError ActivationHandle
  unfolding validate accept now_wall_clock
  activate loader artifact =
      if is_empty artifact.model_bytes
      then err (activation_failed (codes "empty model bytes"))
      else do
        report ← validate blake3_hash loader.validator artifact
        accept activation_failed
            (record { model_id = artifact.metadata.model_id; activated_at = now_wall_clock }) report

  -- The artifact that `BincodeArtifactWriter::write` makes of a model that has bytes.
  unfoldable pub packaged :
      BincodeArtifactWriter → TrainedModel F → ArtifactMetadata F → ModelArtifact F
  unfolding feature_elements
  packaged writer model metadata =
      let total_input_elements = feature_elements metadata.feature_schema.features in
      record {
        model_bytes = model.model_bytes;
        format = model.format;
        hash = blake3_hash model.model_bytes;
        metadata = metadata;
        compatibility = record {
          runtime_version = writer.runtime_version;
          architecture_version = writer.architecture_version;
          tensor_schema = record {
            input_shapes = (total_input_elements ∷ []) ∷ [];
            output_shapes = (total_input_elements ∷ []) ∷ [];
            dtype = codes "f32";
          };
        };
        schema_version = 1;
      }

  -- `BincodeArtifactWriter::write`
  unfoldable pub write :
      BincodeArtifactWriter
      → TrainedModel F
      → ArtifactMetadata F
      → Result ArtifactError (ModelArtifact F)
  unfolding packaged
  write writer model metadata =
      if is_empty model.model_bytes
      then err corrupted_artifact
      else ok (packaged writer model metadata)

  module _ {W : Type 0} (files : Files W) (codec : Codec F) where
    -- `FileArtifactLoader::load`
    unfoldable pub load : FileArtifactLoader → Text → W → Result ArtifactError (ModelArtifact F)
    unfolding validate accept
    load loader path w = do
      bytes ← map_err io (files.read path w)
      artifact ← map_err serialization (codec.deserialize bytes)
      report ← validate blake3_hash loader.validator artifact
      accept validation_failed artifact report

module _ {F W : Type 0} (files : Files W) (codec : Codec F) where
  abbrev pub stored_as : Result Text (Unit {0}) × W → Result ArtifactError (Unit {0}) × W
  stored_as (r, w) = (map_err io r, w)

  -- What `write_to_file` does with the bytes of the codec.
  abbrev pub write_bytes : Text → Result Text (List ℕ) → M W ArtifactError (Unit {0})
  write_bytes path (ok bytes) w = stored_as (files.write path bytes w)
  write_bytes path (err e) w = (err (serialization e), w)

  -- `BincodeArtifactWriter::write_to_file`
  unfoldable pub write_to_file :
      BincodeArtifactWriter → ModelArtifact F → Text → M W ArtifactError (Unit {0})
  write_to_file writer artifact path = write_bytes path (codec.serialize artifact)
