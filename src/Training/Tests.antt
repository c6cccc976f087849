-- ===== src/Training/Tests.antt =====
-- crates/themql-training/src/lib.rs: a data set of five rows in batches of two, whose losses are the
-- lengths of the batches.
use the_mql.Base.{
  ℕ, ◌+◌, true, none, some, List, [], ◌∷◌, length, map, Result, ok, ◌≡◌, refl, arith,
}
use the_mql.Base.Floats.{naturals}
use the_mql.Base.Slices.{take}
use the_mql.Base.Text.{codes}
use the_mql.Analysis.{Polars, Dataset}
use the_mql.Schema.{TrainedModel, f64, unnormalized, torch_script}
use the_mql.Training.{TrainingConfig, TrainingError, dense}
use the_mql.Training.Frames.{Columns}
use the_mql.Training.Dense.{Tch, run_batches, train_dense}
use the_mql.Training.Batches.{Tiles, train_all, run_batches-Tiles, train_dense-returns}

abbrev Frame : Type 0
Frame = List (List ℕ)

abbrev polars : Polars ℕ Frame (List ℕ)
polars = record {
  empty = [];
  select = λ frame names. ok frame;
  collect = λ series. ok [];
  height = λ frame. 5;
  width = λ frame. length frame;
  columns = λ frame. frame;
  column_name = λ col. [];
  null_count = λ col. 0;
}

abbrev cols : Columns ℕ ℕ (List ℕ)
cols = record {
  is_f64 = λ col. true;
  cast = λ col. ok col;
  values = λ col. ok (map some col);
  narrow_to_f32 = λ v. v;
}

-- A tensor is the list of its elements, and the network counts its steps.
abbrev tch : Tch ℕ ℕ (List ℕ) ℕ
tch = record {
  build = λ inputs hidden outputs wd lr. ok 0;
  tensor = λ elements rows width. elements;
  narrow = λ t start len. take len t;
  train_on = λ xs ys net. (length ys, net + 1);
  export_torchscript = λ net inputs outputs. ok (net ∷ []);
}

abbrev column : List ℕ
column = 1 ∷ 2 ∷ 3 ∷ 4 ∷ 5 ∷ []

abbrev dataset : Dataset Frame
dataset = record {
  features = column ∷ column ∷ [];
  labels = column ∷ [];
  feature_schema = record {
    features =
        record { name = codes "a"; dtype = f64; shape = [] }
        ∷ record { name = codes "b"; dtype = f64; shape = [] }
        ∷ [];
    normalization = unnormalized;
  };
}

abbrev config : TrainingConfig ℕ ℕ
config = record {
  kind = dense;
  epochs = 3;
  batch_size = 2;
  learning_rate = 1;
  weight_decay = none;
  early_stopping = some (record { patience = 2; min_delta = 0; metric = codes "loss" });
  pruning = none;
  sparsification = none;
}

-- Three batches in each of the three epochs; the first is the best.
trained :
    train_dense naturals polars cols tch dataset config
    ≡ some (
        ok (record {
          model_bytes = 9 ∷ [];
          format = torch_script;
          feature_schema = dataset.feature_schema;
          validation_metrics = record {
            loss = 1;
            accuracy = none;
            custom = (codes "epochs_run", 1) ∷ [];
          };
        }))
unfolding train_dense
trained = refl

train_dense-returns_example :
    (r : Result (TrainingError ℕ) (TrainedModel ℕ)) × (train_dense naturals polars cols tch dataset
        config
      ≡ some r)
train_dense-returns_example = train_dense-returns naturals polars cols tch dataset config

run_batches-Tiles_example :
    (ranges : List (ℕ × ℕ)) × Tiles 5 2 0 ranges
    × (run_batches naturals polars cols tch column column 5 2 6 0 0 0 0
        ≡ some (train_all naturals polars cols tch column column ranges 0 0 0))
run_batches-Tiles_example =
    run_batches-Tiles naturals polars cols tch column column 5 2 0 0 0 (omega arith)
