-- ===== src/Inference/Engine.antt =====
-- crates/themql-inference/src/lib.rs: which model the engine runs, and what a rollback leaves.
use the_mql.Base.{
  ℕ, false, none, some, List, [], ◌∷◌, All, is_empty, Result, ok, err, map_err, ◌≡◌, ◌⊎◌, inl, inr,
  refl, sym, ap, ◌∙◌, Bool-cases, Result-cases,
}
use the_mql.Base.Results
use the_mql.Base.Text.{Text, codes}
use the_mql.Artifact.{ModelArtifact, validation_failed}
use the_mql.Artifact.Transfer.{accept, new_loader}
use the_mql.Artifact.Transfer.Loading.{filled, accepted_iff}
use the_mql.Artifact.Validator.{new_validator, validate}
use the_mql.Artifact.Validator.Soundness.{IsSound}
use the_mql.Schema.{TrainedModel}
use the_mql.Inference.{
  InferenceError, artifact_invalid, RollbackHandle, restore, TchInferenceEngine, retained,
  handle_of, validated, rollback_failed, load_model, rollback, roll_back, roll_to, reinstall,
}

-- The outcome of a rollback that failed.
abbrev pub IsRefusal : Result InferenceError (Unit {0}) → Type 0
IsRefusal r = (f : InferenceError) × (r ≡ err f)

module _ {F C : Type 0} (blake3_hash : List ℕ → List ℕ) (load_data : List ℕ → Result Text C) where
  validated-cases :
      (artifact : ModelArtifact F)
      → ((e : InferenceError) × (validated blake3_hash load_data artifact ≡ err e))
        ⊎ (IsSound blake3_hash new_validator artifact
            × (validated blake3_hash load_data artifact ≡ ok artifact))
  unfolding validated
  validated-cases artifact =
      elim (Result-cases (
        Results.◌>>=◌ (validate blake3_hash new_validator artifact)
          (accept validation_failed artifact))) [
            | inl (found, e) ↦
                let (sound, same) =
                  (accepted_iff blake3_hash new_loader validation_failed artifact found artifact).0
                    e in
                inr (sound, ap (map_err artifact_invalid) e ∙ ap ok (sym same))
            | inr (e, h) ↦ inl (artifact_invalid e, ap (map_err artifact_invalid) h)
          ]

  -- Loading a model refuses it and leaves the engine as it was, or the artifact is sound, its bytes give
  -- a module, and the engine runs that module with the artifact, and keeps the one before it.
  pub load_model-cases :
      (artifact : ModelArtifact F) (engine : TchInferenceEngine F C)
      → ((e : InferenceError) × (load_model blake3_hash load_data artifact engine
            ≡ (err e, engine)))
        ⊎ (IsSound blake3_hash new_validator artifact
            × ((m : C) × (load_data artifact.model_bytes ≡ ok m)
                × (load_model blake3_hash load_data artifact engine ≡ (
                  ok (handle_of artifact),
                  record {
                    active = some artifact;
                    tch_module = some m;
                    previous = retained engine.active engine.previous;
                  },
                ))))
  unfolding load_model
  load_model-cases artifact engine = elim (Bool-cases (is_empty artifact.model_bytes)) [
    | inl e ↦ inl (artifact_invalid (validation_failed (codes "empty model bytes")), rw e refl)
    | inr e ↦ elim (validated-cases artifact) [
      | inl (f, h) ↦ inl (f, rw (e, h) refl)
      | inr (sound, h) ↦ elim (Result-cases (load_data artifact.model_bytes)) [
        | inl (m, k) ↦ inr (sound, (m, k, rw (e, h, k) refl))
        | inr (f, k) ↦ inl (artifact_invalid (validation_failed f), rw (e, h, k) refl)
      ]
    ]
  ]

  -- The module of the engine is that of the active model, and both are there or neither.
  abbrev pub IsCoherent : TchInferenceEngine F C → Type 0
  IsCoherent engine =
      ((engine.active ≡ none) × (engine.tch_module ≡ none))
      ⊎ ((a : ModelArtifact F) × (m : C) × (engine.active ≡ some a)
          × (engine.tch_module ≡ some m)
          × (load_data a.model_bytes ≡ ok m)
          × IsSound blake3_hash new_validator a)

  -- If the engine is new or was loaded, it runs a sound model from its own bytes, and loading another
  -- artifact keeps that, whether the artifact is accepted or refused.
  pub load_model-IsCoherent :
      (artifact : ModelArtifact F) (engine : TchInferenceEngine F C)
      → IsCoherent engine
      → IsCoherent (load_model blake3_hash load_data artifact engine).1
  load_model-IsCoherent artifact engine c = elim (load_model-cases artifact engine) [
    | inl (e, h) ↦ rw h c
    | inr (sound, (m, k, h)) ↦ rw h (inr (artifact, m, refl, refl, k, sound))
  ]

  restore-eq-ok :
      (handle : RollbackHandle F)
      → is_empty handle.previous_model.model_bytes ≡ false
      → is_empty handle.previous_model_id ≡ false
      → restore handle ≡ ok handle.previous_model
  unfolding restore
  restore-eq-ok handle h k = rw (h, k) refl

  -- After a coherent engine loaded another model, a rollback with the bytes of the model before it and
  -- its identifier brings the engine back to that model and its module; nothing is retained any more.
  pub rollback-load_model :
      (before next : ModelArtifact F) (handle : RollbackHandle F) (engine : TchInferenceEngine F C)
      → IsCoherent engine
      → engine.active ≡ some before
      → (load_model blake3_hash load_data next engine).0 ≡ ok (handle_of next)
      → handle.previous_model.model_bytes ≡ before.model_bytes
      → is_empty handle.previous_model_id ≡ false
      → rollback blake3_hash load_data handle (load_model blake3_hash load_data next engine).1
        ≡ (ok tt, record { active = some before; tch_module = engine.tch_module; previous = none })
  unfolding rollback
  rollback-load_model before next handle engine c a l same named = elim c [
    | inl (gone, _) ↦ absurd (cc (gone, a))
    | inr (active, m, here, there, loads, sound) ↦ elim (load_model-cases next engine) [
      | inl (e, h) ↦ absurd (cc (h, l))
      | inr (_, (m₂, k, h)) ↦
          let one : active ≡ before = cc (here, a) in
          let bytes : load_data handle.previous_model.model_bytes ≡ ok m =
            ap load_data (same ∙ ap (λ b. b.model_bytes) (sym one)) ∙ loads in
          let restored =
            restore-eq-ok handle
              (ap is_empty same
                ∙ ap (λ b. is_empty b.model_bytes) (sym one)
                ∙ filled active.model_bytes sound.intact)
              named in
          rw (restored, h, a, bytes, there) refl
    ]
  ]

  -- The outcomes of rollbacks, one after another, and the engine after them.
  abbrev pub rollbacks :
      List (RollbackHandle F)
      → TchInferenceEngine F C
      → List (Result InferenceError (Unit {0})) × TchInferenceEngine F C
  rollbacks [] engine = ([], engine)
  rollbacks (handle ∷ handles) engine =
      let (outcome, next) = rollback blake3_hash load_data handle engine in
      let (outcomes, last) = rollbacks handles next in (outcome ∷ outcomes, last)

  -- Without a retained model a rollback fails, and changes nothing.
  rollback_none :
      (r : Result InferenceError (TrainedModel F)) (engine : TchInferenceEngine F C)
      → engine.previous ≡ none
      → (f : InferenceError) × (roll_back blake3_hash load_data r engine ≡ (err f, engine))
  rollback_none (err f) engine h = (f, refl)
  rollback_none (ok model) engine h = (
    rollback_failed (codes "no previous model retained"),
    ap (λ x. roll_to blake3_hash load_data model x engine) h,
  )

  rollbacks-none :
      (handles : List (RollbackHandle F)) (engine : TchInferenceEngine F C)
      → engine.previous ≡ none
      → All IsRefusal (rollbacks handles engine).0 × ((rollbacks handles engine).1 ≡ engine)
  unfolding rollback
  rollbacks-none [] engine h = (tt, refl)
  rollbacks-none (handle ∷ handles) engine h =
      let (f, same) = rollback_none (restore handle) engine h in
      let rest = rollbacks-none handles engine h in rw same (((f, refl), rest.0), rest.1)

  lost_state :
      (handle : RollbackHandle F) (e : Text) (engine : TchInferenceEngine F C)
      (kept : ModelArtifact F)
      → restore handle ≡ ok handle.previous_model
      → engine.previous ≡ some kept
      → load_data handle.previous_model.model_bytes ≡ err e
      → rollback blake3_hash load_data handle engine
        ≡ (err (rollback_failed e), record engine { previous = none })
  unfolding rollback
  lost_state handle e engine kept r h fails =
      ap (λ x. roll_back blake3_hash load_data x engine) r
      ∙ ap (λ x. roll_to blake3_hash load_data handle.previous_model x engine) h
      ∙ ap (λ x. reinstall blake3_hash load_data kept x (record engine { previous = none })) fails

  -- If a rollback has a handle with bytes and an identifier, but the bytes do not load, then it fails
  -- and so does each of the rollbacks that follow it, whatever their handles, as long as no model is
  -- loaded in between; after them the engine runs the model that it ran, and retains none.
  pub rollback_lost :
      (handle : RollbackHandle F) (later : List (RollbackHandle F)) (e : Text)
      (engine : TchInferenceEngine F C) (kept : ModelArtifact F)
      → restore handle ≡ ok handle.previous_model
      → engine.previous ≡ some kept
      → load_data handle.previous_model.model_bytes ≡ err e
      → All IsRefusal (rollbacks (handle ∷ later) engine).0
        × ((rollbacks (handle ∷ later) engine).1 ≡ record engine { previous = none })
  rollback_lost handle later e engine kept r h fails =
      let rest = rollbacks-none later (record engine { previous = none }) refl in
      rw (lost_state handle e engine kept r h fails) (((rollback_failed e, refl), rest.0), rest.1)
