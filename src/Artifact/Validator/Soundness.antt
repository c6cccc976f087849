-- ===== src/Artifact/Validator/Soundness.antt =====
-- crates/themql-artifact/src/lib.rs: what an artifact that passes `HashValidator::validate` is.
use the_mql.Base.{
  ℕ, ◌≤◌, Bool, true, false, Option, none, some, List, [], ◌∷◌, length, is_empty, Result, ok, err,
  ◌≡◌, ◌≢◌, ◌↔◌, Any, arith,
}
use the_mql.Base.Text.{text_eq_iff}
use the_mql.Schema.{ModelFormat, format_eq}
use the_mql.Artifact.{ModelArtifact, ArtifactError, ValidationReport, RuntimeInfo}
use the_mql.Artifact.Validator.{
  HashValidator, feature_elements, tensor_elements, contains_format, validate_schema,
  check_compat_internal, integrity_step, after_compatibility, compatibility_step, schema_step,
  validate,
}

format_eq_iff : (f g : ModelFormat) → (format_eq f g ≡ true) ↔ (f ≡ g)
unfolding format_eq
format_eq_iff f g = ground arith

contains_format_iff :
    (formats : List ModelFormat) (format : ModelFormat)
    → (contains_format formats format ≡ true) ↔ Any (λ f. f ≡ format) formats
unfolding contains_format
contains_format_iff [] format = ground arith
contains_format_iff (f ∷ formats) format =
    ground (arith, format_eq_iff f format, contains_format_iff formats format)

is_empty_iff : {A : Type 0} (xs : List A) → (is_empty xs ≡ true) ↔ (xs ≡ [])
is_empty_iff xs = ground arith

-- The report of an artifact that passed every step.
abbrev pub full_report : ValidationReport
full_report = record {
  hash_ok = true;
  schema_ok = true;
  compatibility_ok = true;
  integrity_ok = true;
  errors = [];
}

-- A report without errors whose last flag is not set.
abbrev pub reached : Bool → Bool → Bool → ValidationReport
reached h s c = record {
  hash_ok = h;
  schema_ok = s;
  compatibility_ok = c;
  integrity_ok = false;
  errors = [];
}

module _ {F : Type 0} where
  -- The artifact suits the runtime, or names a runtime if the validator has no target.
  abbrev pub Suits : Option RuntimeInfo → ModelArtifact F → Type 0
  Suits none artifact = artifact.compatibility.runtime_version ≢ []
  Suits (some target) artifact =
      (artifact.compatibility.runtime_version ≡ target.runtime_version)
      × (artifact.compatibility.architecture_version ≡ target.architecture_version)
      × Any (λ f. f ≡ artifact.format) target.supported_formats

  check_compat_iff :
      (artifact : ModelArtifact F) (target : RuntimeInfo)
      → (check_compat_internal artifact target ≡ ok tt) ↔ Suits (some target) artifact
  unfolding check_compat_internal
  check_compat_iff artifact target = ground (
    arith,
    text_eq_iff artifact.compatibility.runtime_version target.runtime_version,
    text_eq_iff artifact.compatibility.architecture_version target.architecture_version,
    contains_format_iff target.supported_formats artifact.format,
  )

  -- The features are there, and have as many elements as the inputs of the tensors.
  abbrev pub IsShaped : ModelArtifact F → Type 0
  IsShaped artifact =
      (artifact.metadata.feature_schema.features ≢ [])
      × (artifact.compatibility.tensor_schema.input_shapes ≢ [])
      × (feature_elements artifact.metadata.feature_schema.features
          ≡ tensor_elements artifact.compatibility.tensor_schema.input_shapes)

  validate_schema_iff :
      (artifact : ModelArtifact F) → (validate_schema artifact ≡ ok true) ↔ IsShaped artifact
  unfolding validate_schema
  validate_schema_iff artifact = ground (
    arith,
    is_empty_iff artifact.metadata.feature_schema.features,
    is_empty_iff artifact.compatibility.tensor_schema.input_shapes,
  )

  full_at_integrity :
      (artifact : ModelArtifact F)
      → (integrity_step artifact (reached true true true) ≡ full_report)
        ↔ (4 ≤ length artifact.model_bytes)
  unfolding integrity_step
  full_at_integrity artifact = ground arith

  full_after_compatibility :
      (artifact : ModelArtifact F) (r : Result ArtifactError (Unit {0}))
      → (after_compatibility artifact (reached true true false) r ≡ full_report)
        ↔ ((r ≡ ok tt) × (4 ≤ length artifact.model_bytes))
  full_after_compatibility artifact (ok tt) = ground (arith, full_at_integrity artifact)
  full_after_compatibility artifact (err e) = ground arith

  full_at_compatibility :
      (target : Option RuntimeInfo) (artifact : ModelArtifact F)
      → (compatibility_step target artifact (reached true true false) ≡ full_report)
        ↔ (Suits target artifact × (4 ≤ length artifact.model_bytes))
  unfolding compatibility_step
  full_at_compatibility (some target) artifact = ground (
    arith,
    full_after_compatibility artifact (check_compat_internal artifact target),
    check_compat_iff artifact target,
  )
  full_at_compatibility none artifact =
      ground
        (arith, is_empty_iff artifact.compatibility.runtime_version, full_at_integrity artifact)

  full_at_schema :
      (target : Option RuntimeInfo) (artifact : ModelArtifact F) (r : Result ArtifactError Bool)
      → (schema_step target artifact (reached true false false) r ≡ full_report)
        ↔ ((r ≡ ok true) × Suits target artifact × (4 ≤ length artifact.model_bytes))
  unfolding schema_step
  full_at_schema target artifact (ok true) = ground (arith, full_at_compatibility target artifact)
  full_at_schema target artifact (ok false) = ground arith
  full_at_schema target artifact (err e) = ground arith

  -- What the validator promises of an artifact: the bytes have the hash that it carries, the features
  -- match the tensors, the runtime suits, and there are at least four bytes.
  pub record IsSound (blake3_hash : List ℕ → List ℕ) (validator : HashValidator)
      (artifact : ModelArtifact F) : Type 0 where
    pub hash : blake3_hash artifact.model_bytes ≡ artifact.hash
    pub shaped : IsShaped artifact
    pub suits : Suits validator.target artifact
    pub intact : 4 ≤ length artifact.model_bytes

  full_iff :
      (blake3_hash : List ℕ → List ℕ) (validator : HashValidator) (artifact : ModelArtifact F)
      → (validate blake3_hash validator artifact ≡ ok full_report) ↔ (
          (blake3_hash artifact.model_bytes ≡ artifact.hash)
          × IsShaped artifact
          × Suits validator.target artifact
          × (4 ≤ length artifact.model_bytes))
  unfolding validate
  full_iff blake3_hash validator artifact = ground (
    arith,
    text_eq_iff (blake3_hash artifact.model_bytes) artifact.hash,
    full_at_schema validator.target artifact (validate_schema artifact),
    validate_schema_iff artifact,
  )

  -- The report of an artifact has every flag set and no error exactly if the bytes have the hash
  -- that the artifact carries, it has features and input shapes whose numbers of elements are equal
  -- (as they are counted, modulo 2 ^ 64), its runtime suits the target of the validator (or is
  -- named, without a target), and it has at least four bytes. The normalizations that the artifact
  -- declares have no part in this.
  pub validate_iff :
      (blake3_hash : List ℕ → List ℕ) (validator : HashValidator) (artifact : ModelArtifact F)
      → (validate blake3_hash validator artifact ≡ ok full_report)
        ↔ IsSound blake3_hash validator artifact
  validate_iff blake3_hash validator artifact =
      let (there, back) = full_iff blake3_hash validator artifact in
      (
        (λ e. let (h, s, u, i) = there e in record { hash = h; shaped = s; suits = u; intact = i }),
        (λ s. back (s.hash, s.shaped, s.suits, s.intact)),
      )
