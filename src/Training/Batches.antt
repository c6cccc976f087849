-- ===== src/Training/Batches.antt =====
-- crates/themql-training/src/lib.rs: the batches of an epoch, and that training ends.
use the_mql.Base.{
  ℕ, zero, suc, ◌+◌, ◌-◌, ◌≤◌, ◌<◌, min, Option, some, List, [], ◌∷◌, ltb, ◌==◌, Result, ok, err,
  ◌≡◌, refl, subst, ◌⊎◌, inl, inr, arith, Bool-cases, Result-cases,
}
use the_mql.Base.Floats.{Floats}
use the_mql.Base.Text.{Text}
use the_mql.Analysis.{Polars, Dataset}
use the_mql.Schema.{TrainedModel}
use the_mql.Training.{TrainingConfig, TrainingError, diverged, EarlyStoppingConfig}
use the_mql.Training.Frames.{Columns}
use the_mql.Training.Dense.{
  Tch, Prepared, Progress, Verdict, fails, stops, goes_on, next_u32, run_batches, judge, mean_loss,
  run_epochs, prepare, fit, train_dense, flatten, exported, decay_of,
}

end_bounds :
    (start batch n_rows : ℕ)
    → 0 < batch
    → start < n_rows
    → let end = min (start + batch) n_rows in
      (start < end) × (end ≤ n_rows) × (end ≤ start + batch) × (end ≡ start + (end - start))
end_bounds start batch n_rows b s = (ground arith, ground arith, ground arith, ground arith)

-- The ranges, each a start and a length, follow one another from `start` to `n_rows`, and each has a
-- row at least and `batch` rows at most.
abbrev pub Tiles : ℕ → ℕ → ℕ → List (ℕ × ℕ) → Type 0
Tiles n_rows batch start [] = start ≡ n_rows
Tiles n_rows batch start ((from, len) ∷ ranges) =
    (from ≡ start) × (0 < len) × (len ≤ batch) × Tiles n_rows batch (start + len) ranges

Verdict-cases :
    {F : Type 0} (v : Verdict F)
    → ((loss : F) × (v ≡ fails loss))
      ⊎ (((p : Progress F) × (v ≡ stops p)) ⊎ ((p : Progress F) × (v ≡ goes_on p)))
Verdict-cases (fails loss) = inl (loss, refl)
Verdict-cases (stops p) = inr (inl (p, refl))
Verdict-cases (goes_on p) = inr (inr (p, refl))

module _ {F G D C T S : Type 0} (floats : Floats F) (polars : Polars F D C) (cols : Columns F G C)
    (tch : Tch F G T S) where
  -- One step of training on each of the ranges, in order.
  abbrev pub train_all : T → T → List (ℕ × ℕ) → F → ℕ → S → F × ℕ × S
  train_all xs_all ys_all [] loss n net = (loss, n, net)
  train_all xs_all ys_all ((from, len) ∷ ranges) loss n net =
      let trained = tch.train_on (tch.narrow xs_all from len) (tch.narrow ys_all from len) net in
      train_all xs_all ys_all ranges (floats.add loss trained.0) (next_u32 floats polars cols tch n)
        trained.1

  run_batches-from :
      (xs_all ys_all : T) (n_rows batch fuel start : ℕ) (loss : F) (n : ℕ) (net : S)
      → 0 < batch
      → start ≤ n_rows
      → n_rows < start + fuel
      → (ranges : List (ℕ × ℕ)) × Tiles n_rows batch start ranges
        × (run_batches floats polars cols tch xs_all ys_all n_rows batch fuel start loss n net
            ≡ some (train_all xs_all ys_all ranges loss n net))
  unfolding run_batches
  run_batches-from xs_all ys_all n_rows batch zero start loss n net b s f = absurd (omega arith)
  run_batches-from xs_all ys_all n_rows batch (suc fuel) start loss n net b s f =
      elim (Bool-cases (ltb start n_rows)) [
        | inr e ↦ ([], ground arith, rw e refl)
        | inl e ↦
            let end = min (start + batch) n_rows in
            let len = end - start in
            let trained =
              tch.train_on (tch.narrow xs_all start len) (tch.narrow ys_all start len) net in
            let (after, within, wide, reached) = end_bounds start batch n_rows b (ground arith) in
            let (ranges, t, r) =
              run_batches-from xs_all ys_all n_rows batch fuel end (floats.add loss trained.0)
                (next_u32 floats polars cols tch n) trained.1 b within (omega arith) in
            (
              (start, len) ∷ ranges,
              (refl, omega arith, omega arith, subst (λ k. Tiles n_rows batch k ranges) reached t),
              rw e r,
            )
      ]

  -- With a batch size that is not 0, the loop of an epoch ends: it trains on ranges of rows that follow
  -- one another from the first row to the last, none of which is empty or longer than a batch.
  pub run_batches-Tiles :
      (xs_all ys_all : T) (n_rows batch : ℕ) (loss : F) (n : ℕ) (net : S)
      → 0 < batch
      → (ranges : List (ℕ × ℕ)) × Tiles n_rows batch 0 ranges
        × (run_batches floats polars cols tch xs_all ys_all n_rows batch (suc n_rows) 0 loss n net
            ≡ some (train_all xs_all ys_all ranges loss n net))
  run_batches-Tiles xs_all ys_all n_rows batch loss n net b =
      run_batches-from xs_all ys_all n_rows batch (suc n_rows) 0 loss n net b (omega arith)
        (omega arith)

  run_epochs-returns :
      (xs_all ys_all : T) (n_rows batch : ℕ) (stopping : Option (EarlyStoppingConfig F))
      (left epoch : ℕ) (p : Progress F) (net : S)
      → 0 < batch
      → (r : Result (TrainingError F) (Progress F) × S) × (run_epochs floats polars cols tch xs_all
            ys_all n_rows batch stopping left epoch p net
          ≡ some r)
  unfolding run_epochs
  run_epochs-returns xs_all ys_all n_rows batch stopping zero epoch p net b = (_, refl)
  run_epochs-returns xs_all ys_all n_rows batch stopping (suc left) epoch p net b =
      let (ranges, _, e) = run_batches-Tiles xs_all ys_all n_rows batch (floats.lit 0 1) 0 net b in
      let (epoch_loss, n_batches, net') = train_all xs_all ys_all ranges (floats.lit 0 1) 0 net in
      elim (Verdict-cases (
        judge floats polars cols tch stopping epoch
          (mean_loss floats polars cols tch epoch_loss n_batches) p)) [
            | inl (loss, j) ↦ ((err (diverged epoch loss), net'), rw (e, j) refl)
            | inr (inl (p', j)) ↦ ((ok p', net'), rw (e, j) refl)
            | inr (inr (p', j)) ↦
                let (r, h) =
                  run_epochs-returns xs_all ys_all n_rows batch stopping left (epoch + 1) p' net'
                    b in
                (r, rw (e, j) h)
          ]

  fit-returns :
      (dataset : Dataset D) (config : TrainingConfig F G) (pre : Prepared G)
      → 0 < config.batch_size
      → (built : Result Text S)
      → (r : Result (TrainingError F) (TrainedModel F)) × (fit floats polars cols tch dataset config
            pre built
          ≡ some r)
  unfolding fit
  fit-returns dataset config pre b (err e) = (_, refl)
  fit-returns dataset config pre b (ok net) =
      let fresh : Progress F = record { best_loss = floats.infinity; best_epoch = 0; stale = 0 } in
      let (r, h) =
        run_epochs-returns (tch.tensor (flatten pre.features_mat) pre.n_rows pre.n_features)
          (tch.tensor (flatten pre.labels_mat) pre.n_rows pre.n_labels) pre.n_rows config.batch_size
          config.early_stopping config.epochs 0 fresh net b in
      (exported floats polars cols tch dataset pre r, rw h refl)

  -- A configuration that passes has a batch size.
  prepare_batch :
      (dataset : Dataset D) (config : TrainingConfig F G) (pre : Prepared G)
      → prepare floats polars cols tch dataset config ≡ ok pre
      → 0 < config.batch_size
  unfolding prepare
  prepare_batch dataset config pre h = elim (Bool-cases (config.epochs == 0)) [
    | inl e ↦ absurd (cc (rw e at h))
    | inr e ↦ elim (Bool-cases (config.batch_size == 0)) [
      | inl b ↦ absurd (cc (rw (e, b) at h))
      | inr b ↦ ground arith
    ]
  ]

  -- Training always ends: whatever the data set, the configuration, and the tensors do, it returns a
  -- model or an error.
  pub train_dense-returns :
      (dataset : Dataset D) (config : TrainingConfig F G)
      → (r : Result (TrainingError F) (TrainedModel F)) × (train_dense floats polars cols tch
            dataset config
          ≡ some r)
  unfolding train_dense
  train_dense-returns dataset config =
      elim (Result-cases (prepare floats polars cols tch dataset config)) [
        | inr (e, h) ↦ (err e, rw h refl)
        | inl (pre, h) ↦
            let (r, f) = fit-returns dataset config pre (prepare_batch dataset config pre h) (
              tch.build pre.n_features pre.hidden pre.n_labels
                (decay_of floats polars cols tch config.weight_decay) config.learning_rate) in
            (r, rw h f)
      ]
