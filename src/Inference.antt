-- ===== src/Inference.antt =====
-- crates/themql-inference/src/lib.rs: budgets, rollback handles, errors, the fallback, and the engine
-- `TchInferenceEngine` as far as it keeps models. The modules of `tch`, the vectors and the
-- floating-point numbers are parameters; the forward pass of `infer` is not modelled.
use the_mql.Base.{
  ℕ, Bool, true, false, not, Option, none, some, List, [], ◌∷◌, ◌++◌, is_empty, ltb, if◌then◌else◌,
  Result, ok, err, map_err,
}
use the_mql.Base.Decimal.{decimal}
use the_mql.Base.Effects.{M}
use the_mql.Base.Results
use the_mql.Base.Text.{Text, codes}
use the_mql.Core.Error.{Error, internal_error}
use the_mql.Core.Time.{now_monotonic}
use the_mql.Schema.{TrainedModel}
use the_mql.Artifact.{
  ModelArtifact, ArtifactError, validation_failed, artifact_error_text, ActivationHandle,
}
use the_mql.Artifact.Transfer.{accept}
use the_mql.Artifact.Validator.{new_validator, validate}
pub mod Engine
mod Tests

pub record ResourceBudget : Type 0 where
  pub cpu_budget_pct : ℕ
  pub memory_budget_bytes : ℕ
  pub inference_deadline_ms : ℕ
  pub adaptation_deadline_ms : ℕ

pub data InferenceError : Type 0 where
  artifact_invalid : ArtifactError → InferenceError
  budget_exceeded : ResourceBudget → ResourceBudget → InferenceError
  deadline_exceeded : ℕ → ℕ → InferenceError
  model_not_loaded : InferenceError
  rollback_failed inference_failed adaptation_not_implemented internal_failure :
      Text → InferenceError
  schema_mismatch : Text → Text → InferenceError

-- The derived `Debug` of `ResourceBudget`.
unfoldable pub budget_debug : ResourceBudget → Text
unfolding decimal
budget_debug b =
    codes "ResourceBudget { cpu_budget_pct: "
    ++ decimal b.cpu_budget_pct
    ++ codes ", memory_budget_bytes: "
    ++ decimal b.memory_budget_bytes
    ++ codes ", inference_deadline_ms: "
    ++ decimal b.inference_deadline_ms
    ++ codes ", adaptation_deadline_ms: "
    ++ decimal b.adaptation_deadline_ms
    ++ codes " }"

-- The `#[error("…")]` texts.
unfoldable pub inference_error_text : InferenceError → Text
unfolding artifact_error_text budget_debug decimal
inference_error_text (artifact_invalid e) = codes "artifact invalid: " ++ artifact_error_text e
inference_error_text (budget_exceeded used limit) =
    codes "budget exceeded: used " ++ budget_debug used ++ codes " > limit " ++ budget_debug limit
inference_error_text (deadline_exceeded deadline_ms actual_ms) =
    codes "deadline exceeded: deadline_ms "
    ++ decimal deadline_ms
    ++ codes ", actual_ms "
    ++ decimal actual_ms
inference_error_text (rollback_failed e) = codes "rollback failed: " ++ e
inference_error_text model_not_loaded = codes "model not loaded"
inference_error_text (inference_failed e) = codes "inference failed: " ++ e
inference_error_text (schema_mismatch expected got) =
    codes "schema mismatch: expected " ++ expected ++ codes ", got " ++ got
inference_error_text (adaptation_not_implemented e) =
    codes "online adaptation not implemented: " ++ e
inference_error_text (internal_failure e) = codes "internal error: " ++ e

-- `From<InferenceError> for Error`
unfoldable pub error_of_inference_error : {J U : Type 0} → InferenceError → Error J U
unfolding internal_error inference_error_text
error_of_inference_error e = internal_error (inference_error_text e)

-- `ResourceBudget::new`
unfoldable pub new_budget : ℕ → ℕ → ℕ → ℕ → Result InferenceError ResourceBudget
new_budget cpu memory inference adaptation =
    let budget : ResourceBudget = record {
      cpu_budget_pct = cpu;
      memory_budget_bytes = memory;
      inference_deadline_ms = inference;
      adaptation_deadline_ms = adaptation;
    } in
    if ltb 100 cpu
    then err (budget_exceeded budget (record budget { cpu_budget_pct = 100 }))
    else ok budget

pub record RollbackHandle (F : Type 0) : Type 0 where
  pub previous_model_id : Text
  pub previous_model : TrainedModel F

-- `RollbackHandle::restore`
unfoldable pub restore : {F : Type 0} → RollbackHandle F → Result InferenceError (TrainedModel F)
restore handle =
    if is_empty handle.previous_model.model_bytes
    then err (rollback_failed (codes "no previous model bytes retained"))
    else if is_empty handle.previous_model_id
    then err (rollback_failed (codes "previous model id missing"))
    else ok handle.previous_model

pub record InferenceInput (V : Type 0) : Type 0 where
  pub state : V
  pub budget : ResourceBudget

pub record InferenceOutput (F V : Type 0) : Type 0 where
  pub state_correction : V
  pub confidence : F
  pub latency_ns : ℕ

pub data InferenceOutcome (F V : Type 0) : Type 0 where
  success : InferenceOutput F V → InferenceOutcome F V
  degraded : InferenceOutput F V → InferenceError → InferenceOutcome F V

-- `infer_with_fallback`, by what the engine returned; `zeros` and `0.0` are given.
unfoldable pub infer_with_fallback :
    {F V : Type 0} → V → F → Result InferenceError (InferenceOutput F V) → InferenceOutcome F V
infer_with_fallback zeros zero (ok output) = success output
infer_with_fallback zeros zero (err e) =
    degraded (record { state_correction = zeros; confidence = zero; latency_ns = 0 }) e

-- `InferenceOutcome::into_output`
unfoldable pub into_output : {F V : Type 0} → InferenceOutcome F V → InferenceOutput F V
into_output (success output) = output
into_output (degraded correction e) = correction

-- `InferenceOutcome::is_degraded`
unfoldable pub is_degraded : {F V : Type 0} → InferenceOutcome F V → Bool
is_degraded (success output) = false
is_degraded (degraded correction e) = true

-- `TchInferenceEngine`, where `C` is `tch::CModule`.
pub record TchInferenceEngine (F C : Type 0) : Type 0 where
  pub active : Option (ModelArtifact F)
  pub tch_module : Option C
  pub previous : Option (ModelArtifact F)

-- `TchInferenceEngine::new`
abbrev pub new_engine : {F C : Type 0} → TchInferenceEngine F C
new_engine = record { active = none; tch_module = none; previous = none }

-- `if let Some(prev) = self.active.take() { self.previous = Some(prev); }`
abbrev pub retained :
    {F : Type 0} → Option (ModelArtifact F) → Option (ModelArtifact F) → Option (ModelArtifact F)
retained none previous = previous
retained (some active) previous = some active

-- The handle that `load` returns.
abbrev pub handle_of : {F : Type 0} → ModelArtifact F → ActivationHandle
handle_of artifact = record { model_id = artifact.metadata.model_id; activated_at = now_monotonic }

module _ {F C : Type 0} (blake3_hash : List ℕ → List ℕ) (load_data : List ℕ → Result Text C) where
  -- What `load` does with the module that the bytes gave.
  abbrev pub install :
      ModelArtifact F → Result Text C → M (TchInferenceEngine F C) InferenceError ActivationHandle
  install artifact (err e) engine = (err (artifact_invalid (validation_failed e)), engine)
  install artifact (ok cmodule) engine = (
    ok (handle_of artifact),
    record {
      active = some artifact;
      tch_module = some cmodule;
      previous = retained engine.active engine.previous;
    },
  )

  -- `validate`, and the refusal of an artifact whose report has errors.
  unfoldable pub validated : ModelArtifact F → Result InferenceError (ModelArtifact F)
  unfolding validate accept
  validated artifact = map_err artifact_invalid (
      Results.◌>>=◌ (validate blake3_hash new_validator artifact)
        (accept validation_failed artifact))

  abbrev pub install_valid :
      Result InferenceError (ModelArtifact F)
      → M (TchInferenceEngine F C) InferenceError ActivationHandle
  install_valid (err e) engine = (err e, engine)
  install_valid (ok artifact) engine = install artifact (load_data artifact.model_bytes) engine

  -- `TchInferenceEngine::load`
  unfoldable pub load_model :
      ModelArtifact F → M (TchInferenceEngine F C) InferenceError ActivationHandle
  unfolding validated now_monotonic
  load_model artifact engine =
      if is_empty artifact.model_bytes
      then (err (artifact_invalid (validation_failed (codes "empty model bytes"))), engine)
      else install_valid (validated artifact) engine

  -- The last steps of `rollback`, after `self.previous.take()` gave an artifact.
  abbrev pub reinstall :
      ModelArtifact F → Result Text C → M (TchInferenceEngine F C) InferenceError (Unit {0})
  reinstall prev (err e) engine = (err (rollback_failed e), engine)
  reinstall prev (ok cmodule) engine =
      (ok tt, record engine { tch_module = some cmodule; active = some prev })

  -- The rest of `rollback`, by what is retained; `take` leaves nothing behind.
  abbrev pub roll_to :
      TrainedModel F
      → Option (ModelArtifact F)
      → M (TchInferenceEngine F C) InferenceError (Unit {0})
  roll_to model none engine = (err (rollback_failed (codes "no previous model retained")), engine)
  roll_to model (some prev) engine =
      reinstall prev (load_data model.model_bytes) (record engine { previous = none })

  abbrev pub roll_back :
      Result InferenceError (TrainedModel F) → M (TchInferenceEngine F C) InferenceError (Unit {0})
  roll_back (err e) engine = (err e, engine)
  roll_back (ok model) engine = roll_to model engine.previous engine

  -- `TchInferenceEngine::rollback`
  unfoldable pub rollback : RollbackHandle F → M (TchInferenceEngine F C) InferenceError (Unit {0})
  rollback handle = roll_back (restore handle)
