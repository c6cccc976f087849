-- ===== src/Artifact/Validator/Stages.antt =====
-- crates/themql-artifact/src/lib.rs: how `HashValidator::validate` stops at the first failure.
use the_mql.Base.{
  ℕ, Bool, true, false, Option, none, some, List, [], ◌∷◌, is_empty, Result, ok, err, ◌≡◌, refl,
  Bool-cases, inl, inr,
}
use the_mql.Base.Text.{text_eq}
use the_mql.Artifact.{
  ModelArtifact, ArtifactError, hash_mismatch, corrupted_artifact, missing_metadata,
  incompatible_runtime, ValidationReport, RuntimeInfo,
}
use the_mql.Artifact.Validator.{
  HashValidator, validate_schema, check_integrity, check_compat_internal, integrity_step,
  after_compatibility, compatibility_step, schema_step, validate,
}
use the_mql.Artifact.Validator.Soundness.{full_report, reached}

-- How far the validation of an artifact came: a failed step ends it with one error, and the flags
-- of the steps after it stay false.
pub data Staged : ValidationReport → Type 0 where
  at_hash : Staged (record {
    hash_ok = false;
    schema_ok = false;
    compatibility_ok = false;
    integrity_ok = false;
    errors = hash_mismatch ∷ [];
  })
  at_schema :
      (e : ArtifactError)
      → Staged (record {
        hash_ok = true;
        schema_ok = false;
        compatibility_ok = false;
        integrity_ok = false;
        errors = e ∷ [];
      })
  at_compatibility :
      (e : ArtifactError)
      → Staged (record {
        hash_ok = true;
        schema_ok = true;
        compatibility_ok = false;
        integrity_ok = false;
        errors = e ∷ [];
      })
  at_integrity : Staged (record {
    hash_ok = true;
    schema_ok = true;
    compatibility_ok = true;
    integrity_ok = false;
    errors = corrupted_artifact ∷ [];
  })
  passed : Staged full_report

module _ {F : Type 0} (artifact : ModelArtifact F) where
  integrity_step-Staged : Staged (integrity_step artifact (reached true true true))
  unfolding integrity_step
  integrity_step-Staged = elim (Bool-cases (check_integrity artifact)) [
    | inl e ↦ rw e passed
    | inr e ↦ rw e at_integrity
  ]

  after_compatibility-Staged :
      (r : Result ArtifactError (Unit {0}))
      → Staged (after_compatibility artifact (reached true true false) r)
  after_compatibility-Staged (ok _) = integrity_step-Staged
  after_compatibility-Staged (err e) = at_compatibility e

  compatibility_step-Staged :
      (target : Option RuntimeInfo)
      → Staged (compatibility_step target artifact (reached true true false))
  unfolding compatibility_step
  compatibility_step-Staged (some target) =
      after_compatibility-Staged (check_compat_internal artifact target)
  compatibility_step-Staged none =
      elim (Bool-cases (is_empty artifact.compatibility.runtime_version)) [
        | inl e ↦ rw e (at_compatibility incompatible_runtime)
        | inr e ↦ rw e integrity_step-Staged
      ]

  schema_step-Staged :
      (target : Option RuntimeInfo) (r : Result ArtifactError Bool)
      → Staged (schema_step target artifact (reached true false false) r)
  unfolding schema_step
  schema_step-Staged target (ok true) = compatibility_step-Staged target
  schema_step-Staged target (ok false) = at_schema missing_metadata
  schema_step-Staged target (err e) = at_schema e

  -- Validation always returns a report, never an error, and the report is one of a pipeline that stops
  -- at the first failure: the flags before the failed step are set, those from it on are not, and there
  -- is exactly one error; or every flag is set and there is none.
  pub validate-Staged :
      (blake3_hash : List ℕ → List ℕ) (validator : HashValidator)
      → (report : ValidationReport) × (validate blake3_hash validator artifact ≡ ok report)
        × Staged report
  unfolding validate
  validate-Staged blake3_hash validator =
      elim (Bool-cases (text_eq (blake3_hash artifact.model_bytes) artifact.hash)) [
        | inl e ↦ (_, rw e refl, schema_step-Staged validator.target (validate_schema artifact))
        | inr e ↦ (_, rw e refl, at_hash)
      ]

-- A report of the pipeline without an error is the full one.
pub Staged-full :
    {report : ValidationReport} → Staged report → report.errors ≡ [] → report ≡ full_report
Staged-full at_hash h = cc
Staged-full (at_schema e) h = cc
Staged-full (at_compatibility e) h = cc
Staged-full at_integrity h = cc
Staged-full passed h = refl
