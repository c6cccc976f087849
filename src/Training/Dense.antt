-- ===== src/Training/Dense.antt =====
-- crates/themql-training/src/lib.rs: `train_dense`. The tensors, the network and the optimiser are
-- those of `tch`, which is a parameter; a loop that runs out of fuel is `none`.
use the_mql.Base.{
  ℕ, zero, suc, ◌+◌, ◌-◌, ◌*◌, ◌^◌, max, min, Bool, not, Option, none, some, List, [], ◌∷◌, ◌++◌,
  is_empty, length, ltb, leb, ◌==◌, if◌then◌else◌, Result, ok, err, map_err, ◌>>=◌, ◌>>◌,
}
use the_mql.Base.Decimal.{decimal}
use the_mql.Base.Floats.{Floats}
use the_mql.Base.Text.{Text, codes}
use the_mql.Analysis.{Polars, Dataset}
use the_mql.Artifact.{validation_failed}
use the_mql.Schema.{TrainedModel, torch_script}
use the_mql.Training.{
  EarlyStoppingConfig, TrainingConfig, TrainingError, dataset_invalid, config_invalid,
  internal_failure, diverged, artifact_emission_failed,
}
use the_mql.Training.Frames.{Columns, frame_to_row_major_f32}

-- `tch`: `T` is a tensor, and `S` the network with its variables and its optimiser. `train_on` is one
-- backward step, with the loss of the batch, which is infinite where it cannot be read.
pub record Tch (F G T S : Type 0) : Type 0 where
  pub build : ℕ → ℕ → ℕ → F → F → Result Text S
  pub tensor : List G → ℕ → ℕ → T
  pub narrow : T → ℕ → ℕ → T
  pub train_on : T → T → S → F × S
  pub export_torchscript : S → ℕ → ℕ → Result Text (List ℕ)

-- What the first half of `train_dense` has found.
pub record Prepared (G : Type 0) : Type 0 where
  pub features_mat : List (List G)
  pub labels_mat : List (List G)
  pub n_rows : ℕ
  pub n_features : ℕ
  pub n_labels : ℕ
  pub hidden : ℕ

pub record Progress (F : Type 0) : Type 0 where
  pub best_loss : F
  pub best_epoch : ℕ
  pub stale : ℕ

-- What an epoch leads to.
pub data Verdict (F : Type 0) : Type 0 where
  fails : F → Verdict F
  stops goes_on : Progress F → Verdict F

abbrev pub first_width : {G : Type 0} → List (List G) → ℕ
first_width [] = 0
first_width (row ∷ rows) = length row

abbrev pub flatten : {G : Type 0} → List (List G) → List G
flatten [] = []
flatten (row ∷ rows) = row ++ flatten rows

module _ {F G D C T S : Type 0} (floats : Floats F) (polars : Polars F D C) (cols : Columns F G C)
    (tch : Tch F G T S) where
  open floats use {lit, of_nat, add, sub, div, lt, le, is_finite, infinity}

  abbrev pub reject_if : Bool → TrainingError F → Result (TrainingError F) (Unit {0})
  reject_if test e = if test then err e else ok tt

  -- `i64::try_from(n)`
  abbrev pub to_i64 : ℕ → Text → Result (TrainingError F) ℕ
  to_i64 n e = if ltb n (2 ^ 63) then ok n else err (dataset_invalid e)

  -- The tests of `train_dense` on its arguments.
  unfoldable pub prepare : Dataset D → TrainingConfig F G → Result (TrainingError F) (Prepared G)
  unfolding frame_to_row_major_f32
  prepare dataset config = do
    reject_if (config.epochs == 0) (config_invalid (codes "epochs must be > 0"))
    reject_if (config.batch_size == 0) (config_invalid (codes "batch_size must be > 0"))
    reject_if (le config.learning_rate (lit 0 1))
        (config_invalid (codes "learning_rate must be > 0"))
    let n_features = length dataset.feature_schema.features
    reject_if (n_features == 0) (dataset_invalid (codes "feature_schema has no features"))
    features_mat ←
        map_err dataset_invalid (frame_to_row_major_f32 floats polars cols dataset.features)
    labels_mat ← map_err dataset_invalid (frame_to_row_major_f32 floats polars cols dataset.labels)
    reject_if (is_empty features_mat) (dataset_invalid (codes "empty dataset"))
    let n_rows = length features_mat
    let row_width = first_width features_mat
    reject_if (not (row_width == n_features)) (
        dataset_invalid (
          codes "feature width "
          ++ decimal row_width
          ++ codes " != schema width "
          ++ decimal n_features))
    reject_if (not (length labels_mat == n_rows)) (
        dataset_invalid (
          codes "labels rows "
          ++ decimal (length labels_mat)
          ++ codes " != features rows "
          ++ decimal n_rows))
    let n_labels = first_width labels_mat
    reject_if (n_labels == 0) (dataset_invalid (codes "labels have zero width"))
    rows_i64 ← to_i64 n_rows (codes "row count overflow")
    feat_i64 ← to_i64 n_features (codes "feature width overflow")
    lab_i64 ← to_i64 n_labels (codes "label width overflow")
    hidden_i64 ← to_i64 (max (n_features * 2) 16) (codes "hidden width overflow")
    ok (record {
      features_mat = features_mat;
      labels_mat = labels_mat;
      n_rows = rows_i64;
      n_features = feat_i64;
      n_labels = lab_i64;
      hidden = hidden_i64;
    })

  -- `n.saturating_add(1)` on a `u32`
  abbrev pub next_u32 : ℕ → ℕ
  next_u32 n = min (n + 1) (2 ^ 32 - 1)

  -- The loop over the batches of an epoch, from `start`: the sum of the losses and the number of
  -- batches.
  unfoldable pub run_batches : T → T → ℕ → ℕ → ℕ → ℕ → F → ℕ → S → Option (F × ℕ × S)
  run_batches xs_all ys_all n_rows batch zero start epoch_loss n_batches net = none
  run_batches xs_all ys_all n_rows batch (suc fuel) start epoch_loss n_batches net =
      let end = min (start + batch) n_rows in
      let trained =
        tch.train_on (tch.narrow xs_all start (end - start)) (tch.narrow ys_all start (end - start))
          net in
      let rest =
        run_batches xs_all ys_all n_rows batch fuel end (add epoch_loss trained.0)
          (next_u32 n_batches) trained.1 in
      if ltb start n_rows then rest else some (epoch_loss, n_batches, net)

  abbrev pub mean_loss : F → ℕ → F
  mean_loss epoch_loss n_batches =
      if ltb 0 n_batches then div epoch_loss (of_nat n_batches) else epoch_loss

  -- With a stale epoch more.
  abbrev pub staled : EarlyStoppingConfig F → Progress F → Verdict F
  staled es p =
      let p' = record p { stale = next_u32 p.stale } in
      if leb es.patience p'.stale then stops p' else goes_on p'

  -- The tests at the end of an epoch on its mean loss that is finite.
  abbrev pub compare_best : Option (EarlyStoppingConfig F) → ℕ → F → Progress F → Verdict F
  compare_best (some es) epoch loss p =
      if lt loss (sub p.best_loss es.min_delta)
      then goes_on (record { best_loss = loss; best_epoch = epoch; stale = 0 })
      else staled es p
  compare_best none epoch loss p =
      if lt loss p.best_loss
      then goes_on (record p { best_loss = loss; best_epoch = epoch })
      else goes_on p

  unfoldable pub judge : Option (EarlyStoppingConfig F) → ℕ → F → Progress F → Verdict F
  judge stopping epoch loss p =
      if is_finite loss then compare_best stopping epoch loss p else fails loss

  -- Where the verdict leads: to the end of the loop, or to its next round.
  abbrev pub conclude :
      ℕ
      → (Progress F → S → Option (Result (TrainingError F) (Progress F) × S))
      → S
      → Verdict F
      → Option (Result (TrainingError F) (Progress F) × S)
  conclude epoch next_round net (fails loss) = some (err (diverged epoch loss), net)
  conclude epoch next_round net (stops p) = some (ok p, net)
  conclude epoch next_round net (goes_on p) = next_round p net

  abbrev pub end_epoch :
      Option (EarlyStoppingConfig F)
      → ℕ
      → Progress F
      → (Progress F → S → Option (Result (TrainingError F) (Progress F) × S))
      → Option (F × ℕ × S)
      → Option (Result (TrainingError F) (Progress F) × S)
  end_epoch stopping epoch p next_round none = none
  end_epoch stopping epoch p next_round (some (epoch_loss, n_batches, net)) =
      conclude epoch next_round net (judge stopping epoch (mean_loss epoch_loss n_batches) p)

  -- The loop over the epochs, by how many are left.
  unfoldable pub run_epochs :
      T
      → T
      → ℕ
      → ℕ
      → Option (EarlyStoppingConfig F)
      → ℕ
      → ℕ
      → Progress F
      → S
      → Option (Result (TrainingError F) (Progress F) × S)
  run_epochs xs_all ys_all n_rows batch stopping zero epoch p net = some (ok p, net)
  run_epochs xs_all ys_all n_rows batch stopping (suc left) epoch p net =
      end_epoch stopping epoch p (run_epochs xs_all ys_all n_rows batch stopping left (epoch + 1))
        (run_batches xs_all ys_all n_rows batch (suc n_rows) 0 (lit 0 1) 0 net)

  -- The model that is returned.
  abbrev pub trained_model : Dataset D → Progress F → List ℕ → TrainedModel F
  trained_model dataset p model_bytes = record {
    model_bytes = model_bytes;
    format = torch_script;
    feature_schema = dataset.feature_schema;
    validation_metrics = record {
      loss = if is_finite p.best_loss then p.best_loss else lit 0 1;
      accuracy = none;
      custom = (codes "epochs_run", of_nat (next_u32 p.best_epoch)) ∷ [];
    };
  }

  abbrev pub exported :
      Dataset D
      → Prepared G
      → Result (TrainingError F) (Progress F) × S
      → Result (TrainingError F) (TrainedModel F)
  exported dataset pre (outcome, net) = do
    p ← outcome
    model_bytes ←
        map_err (λ e. artifact_emission_failed (validation_failed e))
          (tch.export_torchscript net pre.n_features pre.n_labels)
    ok (trained_model dataset p model_bytes)

  abbrev pub exported_if :
      Dataset D
      → Prepared G
      → Option (Result (TrainingError F) (Progress F) × S)
      → Option (Result (TrainingError F) (TrainedModel F))
  exported_if dataset pre none = none
  exported_if dataset pre (some r) = some (exported dataset pre r)

  -- The second half of `train_dense`.
  unfoldable pub fit :
      Dataset D
      → TrainingConfig F G
      → Prepared G
      → Result Text S
      → Option (Result (TrainingError F) (TrainedModel F))
  fit dataset config pre (err e) = some (err (internal_failure e))
  fit dataset config pre (ok net) = exported_if dataset pre (
      run_epochs (tch.tensor (flatten pre.features_mat) pre.n_rows pre.n_features)
        (tch.tensor (flatten pre.labels_mat) pre.n_rows pre.n_labels) pre.n_rows config.batch_size
        config.early_stopping config.epochs 0
        (record { best_loss = infinity; best_epoch = 0; stale = 0 }) net)

  abbrev pub decay_of : Option F → F
  decay_of none = lit 0 1
  decay_of (some wd) = wd

  abbrev pub fit_prepared :
      Dataset D
      → TrainingConfig F G
      → Result (TrainingError F) (Prepared G)
      → Option (Result (TrainingError F) (TrainedModel F))
  fit_prepared dataset config (err e) = some (err e)
  fit_prepared dataset config (ok pre) = fit dataset config pre (
      tch.build pre.n_features pre.hidden pre.n_labels (decay_of config.weight_decay)
        config.learning_rate)

  -- `train_dense`
  unfoldable pub train_dense :
      Dataset D → TrainingConfig F G → Option (Result (TrainingError F) (TrainedModel F))
  unfolding prepare fit run_epochs run_batches judge
  train_dense dataset config = fit_prepared dataset config (prepare dataset config)
