-- ===== src/Artifact/Transfer/RoundTrip.antt =====
-- crates/themql-artifact/src/lib.rs: an artifact on its way from the writer to the loader.
use the_mql.Base.{
  ℕ, ◌+◌, ◌^◌, ◌≤◌, ◌<◌, max, List, [], ◌∷◌, map, length, Result, ok, err, ◌≡◌, ◌≢◌, ◌↔◌, refl, sym,
  ◌∙◌, arith,
}
use the_mql.Base.Text.{Text}
use the_mql.Schema.{TrainedModel, FeatureSpec}
use the_mql.Artifact.{ArtifactMetadata, ModelArtifact, io}
use the_mql.Artifact.Validator.{
  HashValidator, usize, sum, product, elements, feature_elements, tensor_elements,
}
use the_mql.Artifact.Validator.Soundness.{IsSound, Suits}
use the_mql.Artifact.Transfer.{
  Files, Codec, FileArtifactLoader, BincodeArtifactWriter, packaged, write, write_bytes,
  write_to_file, load,
}
use the_mql.Artifact.Transfer.Loading.{load_iff, map_err-eq-ok}

sum-lt : (acc : ℕ) (ns : List ℕ) → acc < 2 ^ 64 → sum acc ns < 2 ^ 64
unfolding sum
sum-lt acc [] h = h
sum-lt acc (n ∷ ns) h = sum-lt (usize (acc + n)) ns (omega arith)

-- The elements of the one input shape that the writer gives an artifact.
one_shape : (n : ℕ) → n < 2 ^ 64 → tensor_elements ((n ∷ []) ∷ []) ≡ max n 1
unfolding tensor_elements sum product
one_shape n h = omega arith

feature_elements-lt : (features : List FeatureSpec) → feature_elements features < 2 ^ 64
unfolding feature_elements
feature_elements-lt features = sum-lt 0 (map (λ f. elements f.shape) features) (omega arith)

positive_max : {n : ℕ} → n ≢ 0 → max n 1 ≡ n
positive_max h = omega arith

module _ {F : Type 0} (blake3_hash : List ℕ → List ℕ) (writer : BincodeArtifactWriter) where
  packaged_iff :
      (validator : HashValidator) (model : TrainedModel F) (metadata : ArtifactMetadata F)
      → IsSound blake3_hash validator (packaged blake3_hash writer model metadata) ↔ (
          (metadata.feature_schema.features ≢ [])
          × (feature_elements metadata.feature_schema.features ≢ 0)
          × Suits validator.target (packaged blake3_hash writer model metadata)
          × (4 ≤ length model.model_bytes))
  unfolding packaged
  packaged_iff validator model metadata =
      let features = metadata.feature_schema.features in
      let shape = one_shape (feature_elements features) (feature_elements-lt features) in
      (
        (λ s. (s.shaped.0, (λ e. ground (arith, s.shaped.2, shape, e)), s.suits, s.intact)),
        (λ h. record {
          hash = refl;
          shaped = (h.0, (λ e. cc), sym (shape ∙ positive_max h.1));
          suits = h.2;
          intact = h.3;
        }),
      )

  write-eq-ok :
      (model : TrainedModel F) (metadata : ArtifactMetadata F) (artifact : ModelArtifact F)
      → write blake3_hash writer model metadata ≡ ok artifact
      → packaged blake3_hash writer model metadata ≡ artifact
  unfolding write
  write-eq-ok model metadata artifact h = ground arith

  -- The artifact that the writer makes of a model passes the validation exactly if the metadata has
  -- features, whose elements do not wrap around to none, the runtime of the writer suits the
  -- validator, and the model has at least four bytes.
  write-IsSound :
      (validator : HashValidator) (model : TrainedModel F) (metadata : ArtifactMetadata F)
      (artifact : ModelArtifact F)
      → write blake3_hash writer model metadata ≡ ok artifact
      → IsSound blake3_hash validator artifact ↔ (
          (metadata.feature_schema.features ≢ [])
          × (feature_elements metadata.feature_schema.features ≢ 0)
          × Suits validator.target artifact
          × (4 ≤ length model.model_bytes))
  write-IsSound validator model metadata artifact h =
      rw (sym (write-eq-ok model metadata artifact h)) (packaged_iff validator model metadata)

-- What is relied on of the files: a file that was written is read back until it is written again.
pub record FilesLaws {W : Type 0} (files : Files W) : Type 0 where
  pub read-write :
      (path : Text) (bytes : List ℕ) (w : W)
      → (files.write path bytes w).0 ≡ ok tt
      → files.read path (files.write path bytes w).1 ≡ ok bytes

-- What is relied on of `bincode`: the bytes of this artifact decode to it.
pub record CodecLaws {F : Type 0} (codec : Codec F) (artifact : ModelArtifact F) : Type 0 where
  pub deserialize-serialize :
      (bytes : List ℕ) → codec.serialize artifact ≡ ok bytes → codec.deserialize bytes ≡ ok artifact

module _ {F W : Type 0} (blake3_hash : List ℕ → List ℕ) {files : Files W} {codec : Codec F}
    (disk : FilesLaws files) {artifact : ModelArtifact F} (bincode : CodecLaws codec artifact) where
  written :
      (path : Text) (r : Result Text (List ℕ)) (w : W)
      → codec.serialize artifact ≡ r
      → (write_bytes files codec path r w).0 ≡ ok tt
      → (bytes : List ℕ) × (files.read path (write_bytes files codec path r w).1 ≡ ok bytes)
        × (codec.deserialize bytes ≡ ok artifact)
  written path (err e) w s h = cc
  written path (ok bytes) w s h = (
    bytes,
    disk.read-write path bytes w (map_err-eq-ok io (files.write path bytes w).0 h),
    bincode.deserialize-serialize bytes s,
  )

  -- A sound artifact that was written to a file without an error loads from there as itself.
  pub load-write_to_file :
      (writer : BincodeArtifactWriter) (loader : FileArtifactLoader) (path : Text) (w : W)
      → IsSound blake3_hash loader.validator artifact
      → (write_to_file files codec writer artifact path w).0 ≡ ok tt
      → load blake3_hash files codec loader path
          (write_to_file files codec writer artifact path w).1
        ≡ ok artifact
  unfolding write_to_file
  load-write_to_file writer loader path w sound h =
      (load_iff blake3_hash loader files codec path _ artifact).1
        (written path (codec.serialize artifact) w refl h, sound)
