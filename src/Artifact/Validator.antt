-- ===== src/Artifact/Validator.antt =====
-- crates/themql-artifact/src/lib.rs: `HashValidator`. The hash `blake3` is a parameter. A `usize` has
-- 64 bits, and its sums and products wrap as they do in a release build.
use the_mql.Base.{
  ℕ, ◌+◌, ◌*◌, ◌%◌, ◌^◌, max, Bool, true, false, not, ◌||◌, Option, none, some, List, [], ◌∷◌, ◌++◌,
  map, length, is_empty, leb, ◌==◌, if◌then◌else◌, Result, ok, err,
}
use the_mql.Base.Decimal.{decimal}
use the_mql.Base.Text.{Text, codes, text_eq}
use the_mql.Schema.{ModelFormat, format_eq, FeatureSpec}
use the_mql.Artifact.{
  ModelArtifact, ArtifactError, hash_mismatch, incompatible_runtime, incompatible_architecture,
  corrupted_artifact, missing_metadata, schema_mismatch, ValidationReport, RuntimeInfo,
}
pub mod Soundness
pub mod Stages

abbrev pub usize : ℕ → ℕ
usize n = n % 2 ^ 64

-- `product::<usize>()` and `sum::<usize>()`, from a value on.
unfoldable pub product : ℕ → List ℕ → ℕ
product acc [] = acc
product acc (n ∷ ns) = product (usize (acc * n)) ns

unfoldable pub sum : ℕ → List ℕ → ℕ
sum acc [] = acc
sum acc (n ∷ ns) = sum (usize (acc + n)) ns

-- `shape.iter().product::<usize>().max(1)`
abbrev pub elements : List ℕ → ℕ
elements shape = max (product 1 shape) 1

unfoldable pub feature_elements : List FeatureSpec → ℕ
unfolding sum product
feature_elements features = sum 0 (map (λ f. elements f.shape) features)

unfoldable pub tensor_elements : List (List ℕ) → ℕ
unfolding sum product
tensor_elements shapes = sum 0 (map elements shapes)

pub record HashValidator : Type 0 where
  pub target : Option RuntimeInfo

-- `HashValidator::new`
abbrev pub new_validator : HashValidator
new_validator = record { target = none }

-- `HashValidator::with_target`
abbrev pub validator_with_target : RuntimeInfo → HashValidator
validator_with_target target = record { target = some target }

-- `target.supported_formats.contains(&artifact.format)`
unfoldable pub contains_format : List ModelFormat → ModelFormat → Bool
unfolding format_eq
contains_format [] format = false
contains_format (f ∷ formats) format = format_eq f format || contains_format formats format

-- `report.errors.push(e)`
abbrev pub push_error : ArtifactError → ValidationReport → ValidationReport
push_error e report = record report { errors = report.errors ++ e ∷ [] }

abbrev pub blank_report : ValidationReport
blank_report = record {
  hash_ok = false;
  schema_ok = false;
  compatibility_ok = false;
  integrity_ok = false;
  errors = [];
}

module _ {F : Type 0} where
  -- `validate_schema`
  unfoldable pub validate_schema : ModelArtifact F → Result ArtifactError Bool
  unfolding feature_elements tensor_elements decimal
  validate_schema artifact =
      let features = artifact.metadata.feature_schema.features in
      let tensor_input = artifact.compatibility.tensor_schema.input_shapes in
      if is_empty features
      then ok false
      else if is_empty tensor_input
      then ok false
      else if not (feature_elements features == tensor_elements tensor_input)
      then err (
          schema_mismatch (decimal (tensor_elements tensor_input) ++ codes " tensor input elements")
            (decimal (feature_elements features) ++ codes " feature elements"))
      else ok true

  -- `check_integrity`
  abbrev pub check_integrity : ModelArtifact F → Bool
  check_integrity artifact = leb 4 (length artifact.model_bytes)

  -- `HashValidator::check_compat_internal`
  unfoldable pub check_compat_internal :
      ModelArtifact F → RuntimeInfo → Result ArtifactError (Unit {0})
  unfolding contains_format text_eq
  check_compat_internal artifact target =
      let compatibility = artifact.compatibility in
      if not (text_eq compatibility.runtime_version target.runtime_version)
      then err incompatible_runtime
      else if not (text_eq compatibility.architecture_version target.architecture_version)
      then err incompatible_architecture
      else if not (contains_format target.supported_formats artifact.format)
      then err incompatible_runtime
      else ok tt

  -- Step 4 of `validate`.
  unfoldable pub integrity_step : ModelArtifact F → ValidationReport → ValidationReport
  integrity_step artifact report =
      if check_integrity artifact
      then record report { integrity_ok = true }
      else push_error corrupted_artifact (record report { integrity_ok = false })

  -- The `match` of step 3 on `check_compat_internal`.
  abbrev pub after_compatibility :
      ModelArtifact F → ValidationReport → Result ArtifactError (Unit {0}) → ValidationReport
  after_compatibility artifact report (ok _) =
      integrity_step artifact (record report { compatibility_ok = true })
  after_compatibility artifact report (err e) =
      push_error e (record report { compatibility_ok = false })

  -- Step 3, with a target or without.
  unfoldable pub compatibility_step :
      Option RuntimeInfo → ModelArtifact F → ValidationReport → ValidationReport
  unfolding check_compat_internal integrity_step
  compatibility_step (some target) artifact report =
      after_compatibility artifact report (check_compat_internal artifact target)
  compatibility_step none artifact report =
      if is_empty artifact.compatibility.runtime_version
      then push_error incompatible_runtime (record report { compatibility_ok = false })
      else integrity_step artifact (record report { compatibility_ok = true })

  -- The `match` of step 2 on `validate_schema`.
  unfoldable pub schema_step :
      Option RuntimeInfo
      → ModelArtifact F
      → ValidationReport
      → Result ArtifactError Bool
      → ValidationReport
  unfolding compatibility_step
  schema_step target artifact report (ok true) =
      compatibility_step target artifact (record report { schema_ok = true })
  schema_step target artifact report (ok false) =
      push_error missing_metadata (record report { schema_ok = false })
  schema_step target artifact report (err e) = push_error e (record report { schema_ok = false })

  -- `HashValidator::validate`, over the hash.
  unfoldable pub validate :
      (List ℕ → List ℕ) → HashValidator → ModelArtifact F → Result ArtifactError ValidationReport
  unfolding schema_step validate_schema text_eq
  validate blake3_hash validator artifact =
      if not (text_eq (blake3_hash artifact.model_bytes) artifact.hash)
      then ok (push_error hash_mismatch (record blank_report { hash_ok = false }))
      else ok (
          schema_step validator.target artifact (record blank_report { hash_ok = true })
            (validate_schema artifact))

  -- `HashValidator::check_compatibility`
  unfoldable pub check_compatibility :
      HashValidator → ModelArtifact F → RuntimeInfo → Result ArtifactError (Unit {0})
  unfolding check_compat_internal
  check_compatibility validator artifact target = check_compat_internal artifact target
