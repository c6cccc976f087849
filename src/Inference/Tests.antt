-- ===== src/Inference/Tests.antt =====
-- crates/themql-inference/src/lib.rs: an engine that loads two models and rolls back.
use the_mql.Base.{
  ℕ, zero, suc, none, some, List, [], ◌∷◌, All, length, Result, ok, err, ◌≡◌, refl, inr,
}
use the_mql.Base.Text.{Text, codes, text_eq}
use the_mql.Schema.{safe_tensors, f32, unnormalized}
use the_mql.Artifact.{ArtifactMetadata, ModelArtifact}
use the_mql.Artifact.Transfer.{accept}
use the_mql.Artifact.Validator.{
  new_validator, validate, feature_elements, tensor_elements, sum, product,
}
use the_mql.Artifact.Validator.Soundness.{IsSound, validate_iff}
use the_mql.Inference.{
  RollbackHandle, restore, TchInferenceEngine, new_engine, handle_of, load_model, validated,
  rollback,
}
use the_mql.Inference.Engine.{IsRefusal, rollbacks, rollback-load_model, rollback_lost}

program : Unit {0}
unfolding validate validated accept load_model restore rollback text_eq feature_elements
    tensor_elements sum product
program = tt

abbrev hash : List ℕ → List ℕ
hash bytes = length bytes ∷ []

-- A module is its bytes; those that begin with zero are none.
abbrev load_data : List ℕ → Result Text (List ℕ)
load_data [] = err []
load_data (zero ∷ bytes) = err (codes "bad")
load_data (suc n ∷ bytes) = ok (suc n ∷ bytes)

abbrev metadata : Text → ArtifactMetadata ℕ
metadata id = record {
  model_id = id;
  training_version = [];
  dataset_version = [];
  feature_schema = record {
    features = record { name = codes "x"; dtype = f32; shape = [] } ∷ [];
    normalization = unnormalized;
  };
  normalization = unnormalized;
  validation_metrics = record { loss = 1; accuracy = none; custom = [] };
  pruning_metadata = none;
}

abbrev artifact : Text → List ℕ → ModelArtifact ℕ
artifact id bytes = record {
  model_bytes = bytes;
  format = safe_tensors;
  hash = hash bytes;
  metadata = metadata id;
  compatibility = record {
    runtime_version = codes "0.1";
    architecture_version = codes "a";
    tensor_schema = record {
      input_shapes = (1 ∷ []) ∷ [];
      output_shapes = [];
      dtype = codes "f32";
    };
  };
  schema_version = 1;
}

abbrev first : ModelArtifact ℕ
first = artifact (codes "first") (1 ∷ 2 ∷ 3 ∷ 4 ∷ [])

abbrev second : ModelArtifact ℕ
second = artifact (codes "second") (5 ∷ 6 ∷ 7 ∷ 8 ∷ [])

abbrev engine : TchInferenceEngine ℕ (List ℕ)
engine = record { active = some first; tch_module = some (1 ∷ 2 ∷ 3 ∷ 4 ∷ []); previous = none }

abbrev handle : List ℕ → RollbackHandle ℕ
handle bytes = record {
  previous_model_id = codes "first";
  previous_model = record {
    model_bytes = bytes;
    format = safe_tensors;
    feature_schema = (metadata []).feature_schema;
    validation_metrics = (metadata []).validation_metrics;
  };
}

loaded : (load_model hash load_data first new_engine) ≡ (ok (handle_of first), engine)
unfolding program
loaded = refl

first-IsSound : IsSound hash new_validator first
unfolding program
first-IsSound = (validate_iff hash new_validator first).0 refl

rollback-load_model_example :
    rollback hash load_data
      (handle (1 ∷ 2 ∷ 3 ∷ 4 ∷ []))
      (load_model hash load_data second engine).1
    ≡ (ok tt, record { active = some first; tch_module = engine.tch_module; previous = none })
unfolding program
rollback-load_model_example =
    rollback-load_model hash load_data first second (handle (1 ∷ 2 ∷ 3 ∷ 4 ∷ [])) engine
      (inr (first, (1 ∷ 2 ∷ 3 ∷ 4 ∷ []), refl, refl, refl, first-IsSound)) refl refl refl refl

abbrev switched : TchInferenceEngine ℕ (List ℕ)
switched = record {
  active = some second;
  tch_module = some (5 ∷ 6 ∷ 7 ∷ 8 ∷ []);
  previous = some first;
}

rollback_lost_example :
    All IsRefusal
      (rollbacks hash load_data
        (handle (0 ∷ []) ∷ handle (1 ∷ []) ∷ handle (5 ∷ []) ∷ [])
        switched).0
    × ((rollbacks hash load_data
          (handle (0 ∷ []) ∷ handle (1 ∷ []) ∷ handle (5 ∷ []) ∷ [])
          switched).1
        ≡ record switched { previous = none })
unfolding program
rollback_lost_example =
    rollback_lost hash load_data (handle (0 ∷ [])) (handle (1 ∷ []) ∷ handle (5 ∷ []) ∷ [])
      (codes "bad") switched first refl refl refl
