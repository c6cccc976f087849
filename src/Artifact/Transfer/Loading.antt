-- ===== src/Artifact/Transfer/Loading.antt =====
-- crates/themql-artifact/src/lib.rs: what the loader lets through.
use the_mql.Base.{
  ℕ, ◌≤◌, false, List, [], ◌∷◌, length, is_empty, Result, ok, err, map_err, ◌>>=◌, >>=-eq-ok, ◌≡◌,
  ◌↔◌, refl, sym, ap, ◌∙◌, arith, Bool-cases, inl, inr, subst,
}
use the_mql.Base.Text.{Text}
use the_mql.Core.Time.{now_wall_clock}
use the_mql.Artifact.{
  ModelArtifact, ArtifactError, activation_failed, validation_failed, io, serialization,
  ValidationReport, ActivationHandle,
}
use the_mql.Artifact.Validator.{validate}
use the_mql.Artifact.Validator.Soundness.{IsSound, validate_iff}
use the_mql.Artifact.Validator.Stages.{Staged, Staged-full, validate-Staged}
use the_mql.Artifact.Transfer.{Files, Codec, FileArtifactLoader, activate, load, accept}

accept_iff :
    {A : Type 0} (fail : Text → ArtifactError) (a b : A) (report : ValidationReport)
    → (accept fail a report ≡ ok b) ↔ ((report.errors ≡ []) × (a ≡ b))
unfolding accept
accept_iff fail a b report = ground arith

abbrev errors_of : Result ArtifactError ValidationReport → List ArtifactError
errors_of (ok report) = report.errors
errors_of (err e) = []

pub map_err-eq-ok :
    {E A : Type 0} (f : E → ArtifactError) {a : A} (r : Result E A) → map_err f r ≡ ok a → r ≡ ok a
map_err-eq-ok f (ok b) h = cc
map_err-eq-ok f (err e) h = cc

pub filled : (bytes : List ℕ) → 4 ≤ length bytes → is_empty bytes ≡ false
filled [] h = absurd (omega arith)
filled (b ∷ bytes) h = refl

module _ {F : Type 0} (blake3_hash : List ℕ → List ℕ) (loader : FileArtifactLoader) where
  -- The report of an artifact is without errors exactly if the artifact is sound.
  clean_iff :
      (artifact : ModelArtifact F) (report : ValidationReport)
      → validate blake3_hash loader.validator artifact ≡ ok report
      → Staged report
      → (report.errors ≡ []) ↔ IsSound blake3_hash loader.validator artifact
  clean_iff artifact report made staged =
      let (there, back) = validate_iff blake3_hash loader.validator artifact in
      (
        (λ clean. there (made ∙ ap ok (Staged-full staged clean))),
        (λ sound. ap errors_of (sym made ∙ back sound)),
      )

  -- A value is returned exactly for a sound artifact.
  pub accepted_iff :
      {A : Type 0} (fail : Text → ArtifactError) (a b : A) (artifact : ModelArtifact F)
      → ((validate blake3_hash loader.validator artifact >>= accept fail a) ≡ ok b)
        ↔ (IsSound blake3_hash loader.validator artifact × (a ≡ b))
  accepted_iff fail a b artifact =
      let (report, made, staged) = validate-Staged artifact blake3_hash loader.validator in
      let (there, back) = clean_iff artifact report made staged in
      let (in_, out) = accept_iff fail a b report in
      (
        (λ h. let (clean, same) = in_ (rw made at h) in (there clean, same)),
        (λ h. rw made (out (back h.0, h.1))),
      )

  -- An artifact is activated exactly if it is sound for the validator of the loader; the handle names
  -- its model, at the timestamp of a wall clock that is not read.
  activate_iff :
      (artifact : ModelArtifact F) (handle : ActivationHandle)
      → (activate blake3_hash loader artifact ≡ ok handle) ↔ (
          IsSound blake3_hash loader.validator artifact
          × (record { model_id = artifact.metadata.model_id; activated_at = now_wall_clock }
              ≡ handle))
  unfolding activate
  activate_iff artifact handle =
      let checked =
        accepted_iff activation_failed
          (record { model_id = artifact.metadata.model_id; activated_at = now_wall_clock }) handle
          artifact in
      elim (Bool-cases (is_empty artifact.model_bytes)) [
        | inl e ↦ rw e ((λ h. cc), (λ h. absurd (cc (filled artifact.model_bytes h.0.intact, e))))
        | inr e ↦ rw e checked
      ]

  module _ {W : Type 0} (files : Files W) (codec : Codec F) where
    -- A file loads as an artifact exactly if it can be read, its bytes decode to that artifact, and the
    -- artifact is sound for the validator of the loader.
    pub load_iff :
        (path : Text) (w : W) (artifact : ModelArtifact F)
        → (load blake3_hash files codec loader path w ≡ ok artifact) ↔ (
            ((bytes : List ℕ) × (files.read path w ≡ ok bytes)
              × (codec.deserialize bytes ≡ ok artifact))
            × IsSound blake3_hash loader.validator artifact)
    unfolding load
    load_iff path w artifact = (
      (λ h.
          let (bytes, r, h₁) = >>=-eq-ok (map_err io (files.read path w)) _ h in
          let (found, d, h₂) = >>=-eq-ok (map_err serialization (codec.deserialize bytes)) _ h₁ in
          let (sound, same) = (accepted_iff validation_failed found artifact found).0 h₂ in
          (
            (bytes, map_err-eq-ok io _ r, map_err-eq-ok serialization _ d ∙ ap ok same),
            subst (IsSound blake3_hash loader.validator) same sound,
          )),
      (λ h.
          rw (h.0.1, h.0.2)
            ((accepted_iff validation_failed artifact artifact artifact).1 (h.1, refl))),
    )
