-- ===== src/Artifact/Tests.antt =====
-- crates/themql-artifact/src/lib.rs: a small model on its way to the loader.
use the_mql.Base.{ℕ, true, false, none, List, [], ◌∷◌, ok, ◌≡◌, ◌↔◌, refl, length}
use the_mql.Base.Decimal.{decimal}
use the_mql.Base.Text.{codes, text_eq}
use the_mql.Core.Time.{now_wall_clock}
use the_mql.Schema.{TrainedModel, safe_tensors, f32, f64, unnormalized}
use the_mql.Artifact.{
  ArtifactMetadata, ModelArtifact, ActivationHandle, ValidationReport, corrupted_artifact,
}
use the_mql.Artifact.Transfer.{
  Files, Codec, new_loader, new_writer, packaged, write, write_to_file, load, activate,
}
use the_mql.Artifact.Transfer.Loading.{load_iff}
use the_mql.Artifact.Transfer.RoundTrip.{FilesLaws, CodecLaws, load-write_to_file}
use the_mql.Artifact.Validator.{new_validator, feature_elements, validate}
use the_mql.Artifact.Validator.Soundness.{IsSound, full_report, validate_iff}
use the_mql.Artifact.Validator.Stages.{Staged, validate-Staged}

program : Unit {0}
unfolding validate write packaged load activate write_to_file feature_elements text_eq decimal
program = tt

-- The hash of the bytes is their number.
abbrev hash : List ℕ → List ℕ
hash bytes = length bytes ∷ []

abbrev metadata : ArtifactMetadata ℕ
metadata = record {
  model_id = codes "pinn";
  training_version = codes "1";
  dataset_version = codes "2";
  feature_schema = record {
    features =
        record { name = codes "state"; dtype = f32; shape = 3 ∷ 7 ∷ [] }
        ∷ record { name = codes "speed"; dtype = f64; shape = [] }
        ∷ [];
    normalization = unnormalized;
  };
  normalization = unnormalized;
  validation_metrics = record { loss = 1; accuracy = none; custom = [] };
  pruning_metadata = none;
}

abbrev model : List ℕ → TrainedModel ℕ
model bytes = record {
  model_bytes = bytes;
  format = safe_tensors;
  feature_schema = metadata.feature_schema;
  validation_metrics = metadata.validation_metrics;
}

abbrev artifact_of : List ℕ → ModelArtifact ℕ
unfolding program
artifact_of bytes =
    packaged hash (new_writer (codes "0.1") (codes "pinn-v1")) (model bytes) metadata

elements_of_both : feature_elements metadata.feature_schema.features ≡ 22
unfolding program
elements_of_both = refl

-- A model of three bytes can be written, but what is written does not pass the validation.
short_model :
    validate hash new_validator (artifact_of (1 ∷ 2 ∷ 3 ∷ []))
    ≡ ok (record {
      hash_ok = true;
      schema_ok = true;
      compatibility_ok = true;
      integrity_ok = false;
      errors = corrupted_artifact ∷ [];
    })
unfolding program artifact_of
short_model = refl

abbrev four : List ℕ
four = 1 ∷ 2 ∷ 3 ∷ 4 ∷ []

-- One file, whatever its path.
abbrev files : Files (List ℕ)
files = record { read = λ path w. ok w; write = λ path bytes w. (ok tt, bytes) }

abbrev codec : Codec ℕ
unfolding artifact_of
codec = record { serialize = λ a. ok (7 ∷ []); deserialize = λ b. ok (artifact_of four) }

disk : FilesLaws files
disk = record { read-write = λ path bytes w h. refl }

bincode : CodecLaws codec (artifact_of four)
unfolding codec
bincode = record { deserialize-serialize = λ bytes h. refl }

made :
    write hash (new_writer (codes "0.1") (codes "pinn-v1")) (model four) metadata
    ≡ ok (artifact_of four)
unfolding program artifact_of
made = refl

four-IsSound : IsSound hash new_validator (artifact_of four)
unfolding program artifact_of
four-IsSound = (validate_iff hash new_validator (artifact_of four)).0 refl

validate_iff_example :
    (validate hash new_validator (artifact_of four) ≡ ok full_report)
    ↔ IsSound hash new_validator (artifact_of four)
validate_iff_example = validate_iff hash new_validator (artifact_of four)

validate-Staged_example :
    (report : ValidationReport) × (validate hash new_validator (artifact_of four) ≡ ok report)
    × Staged report
validate-Staged_example = validate-Staged (artifact_of four) hash new_validator

abbrev handle : ActivationHandle
handle = record { model_id = codes "pinn"; activated_at = now_wall_clock }

load_iff_example :
    (load hash files codec new_loader (codes "m.bin") (7 ∷ []) ≡ ok (artifact_of four)) ↔ (
      ((bytes : List ℕ) × (files.read (codes "m.bin") (7 ∷ []) ≡ ok bytes)
        × (codec.deserialize bytes ≡ ok (artifact_of four)))
      × IsSound hash new_validator (artifact_of four))
load_iff_example = load_iff hash new_loader files codec (codes "m.bin") (7 ∷ []) (artifact_of four)

load-write_to_file_example :
    load hash files codec new_loader
      (codes "m.bin")
      (write_to_file files codec
        (new_writer (codes "0.1") (codes "pinn-v1"))
        (artifact_of four)
        (codes "m.bin")
        []).1
    ≡ ok (artifact_of four)
unfolding program codec
load-write_to_file_example =
    load-write_to_file hash disk bincode (new_writer (codes "0.1") (codes "pinn-v1")) new_loader
      (codes "m.bin") [] four-IsSound refl
