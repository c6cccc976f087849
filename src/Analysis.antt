-- ===== src/Analysis.antt =====
-- crates/themql-analysis/src/lib.rs: inputs, results, errors, the builders of data sets, and the two
-- pipelines. Data frames are those of `polars`, which is a parameter.
use the_mql.Base.{
  ℕ, zero, suc, ◌+◌, ◌-◌, ◌%◌, ◌^◌, min, Bool, Option, none, some, List, [], ◌∷◌, ◌++◌, map,
  is_empty, length, get_or, ◌==◌, if◌then◌else◌, Result, ok, err, map_err, ◌>>=◌,
}
use the_mql.Base.Decimal.{decimal}
use the_mql.Base.Effects.{M, return, throw}
use the_mql.Base.Floats.{Floats}
use the_mql.Base.Text.{Text, codes, as_bytes}
use the_mql.Core.Error.{Error, new_error, validation_error}
use the_mql.Core.ErrorCode.{resolver_error}
use the_mql.Core.Pattern.{SubjectPattern}
use the_mql.Core.Time.{Timestamp, now_monotonic}
use the_mql.Schema.{FeatureSchema, FeatureSpec, f64, NormalizationSpec, unnormalized}
use the_mql.Storage.{
  StorageError, storage_error_text, StorageQuery, StorageResultSet, StorageKey, StorageValue,
  Storage,
}
pub mod Rows
mod Tests

-- `polars`: `D` is `DataFrame` and `C` a column. `collect` is `new_infer_height` of named columns.
pub record Polars (F D C : Type 0) : Type 0 where
  pub empty : D
  pub select : D → List Text → Result Text D
  pub collect : List (Text × List F) → Result Text D
  pub height : D → ℕ
  pub width : D → ℕ
  pub columns : D → List C
  pub column_name : C → Text
  pub null_count : C → ℕ

pub data AnalysisInput (J D : Type 0) : Type 0 where
  telemetry : Timestamp → Timestamp → SubjectPattern → AnalysisInput J D
  storage_query : StorageQuery J → AnalysisInput J D
  data_frame : D → AnalysisInput J D

pub record AnalysisStats : Type 0 where
  pub rows : ℕ
  pub columns : ℕ
  pub null_count : ℕ
  pub generated_at : Timestamp

pub record AnalysisResult (D : Type 0) : Type 0 where
  pub frame : D
  pub schema : FeatureSchema
  pub stats : AnalysisStats

pub record Dataset (D : Type 0) : Type 0 where
  pub features : D
  pub labels : D
  pub feature_schema : FeatureSchema

pub record DatasetBuilder : Type 0 where
  pub feature_columns : List Text
  pub label_columns : List Text
  pub normalization : NormalizationSpec

pub data AnalysisError : Type 0 where
  polars_error storage_failure thedaf_error internal_failure : Text → AnalysisError
  schema_mismatch : Text → Text → AnalysisError

-- The `#[error("…")]` texts.
unfoldable pub analysis_error_text : AnalysisError → Text
analysis_error_text (polars_error e) = codes "polars error: " ++ e
analysis_error_text (storage_failure e) = codes "storage error: " ++ e
analysis_error_text (thedaf_error e) = codes "thedaf error: " ++ e
analysis_error_text (schema_mismatch expected got) =
    codes "schema mismatch: expected " ++ expected ++ codes ", got " ++ got
analysis_error_text (internal_failure e) = codes "internal error: " ++ e

-- `From<StorageError> for AnalysisError`
unfoldable pub analysis_error_of_storage_error : StorageError → AnalysisError
unfolding storage_error_text
analysis_error_of_storage_error e = storage_failure (storage_error_text e)

-- `From<AnalysisError> for Error`
unfoldable pub error_of_analysis_error : {J U : Type 0} → AnalysisError → Error J U
unfolding analysis_error_text validation_error
error_of_analysis_error (schema_mismatch expected got) =
    validation_error (analysis_error_text (schema_mismatch expected got))
error_of_analysis_error (polars_error e) =
    new_error resolver_error (analysis_error_text (polars_error e))
error_of_analysis_error (storage_failure e) =
    new_error resolver_error (analysis_error_text (storage_failure e))
error_of_analysis_error (thedaf_error e) =
    new_error resolver_error (analysis_error_text (thedaf_error e))
error_of_analysis_error (internal_failure e) =
    new_error resolver_error (analysis_error_text (internal_failure e))

-- `StubThedafAdapter`: both methods.
unfoldable pub fetch_legacy : {A : Type 0} → Text → Result AnalysisError A
fetch_legacy query =
    err (thedaf_error (codes "thedaf adapter not configured: no legacy store connected"))

unfoldable pub list_legacy_datasets : {A : Type 0} → Result AnalysisError A
list_legacy_datasets =
    err (thedaf_error (codes "thedaf adapter not configured: no legacy store connected"))

-- A feature without dimensions.
abbrev pub scalar_feature : Text → FeatureSpec
scalar_feature name = record { name = name; dtype = f64; shape = [] }

module _ {F D C : Type 0} (floats : Floats F) (polars : Polars F D C) where
  -- `select_columns`, with the `Debug` of a list of texts.
  unfoldable pub select_columns : (List Text → Text) → D → List Text → Result AnalysisError D
  select_columns debug frame columns =
      if is_empty columns
      then ok polars.empty
      else map_err (schema_mismatch (debug columns)) (polars.select frame columns)

  -- `DatasetBuilder::build`
  unfoldable pub build :
      (List Text → Text) → DatasetBuilder → AnalysisResult D → Result AnalysisError (Dataset D)
  unfolding select_columns
  build debug builder result =
      select_columns debug result.frame builder.feature_columns >>= λ feature_frame.
      select_columns debug result.frame builder.label_columns >>= λ label_frame. ok (record {
        features = feature_frame;
        labels = label_frame;
        feature_schema = record {
          features = map scalar_feature builder.feature_columns;
          normalization = builder.normalization;
        };
      })

  -- The error of a row that has another width.
  abbrev pub misfit : ℕ → List F → AnalysisError
  misfit n_cols row =
      schema_mismatch (decimal n_cols ++ codes " columns")
        (decimal (length row) ++ codes " columns")

  -- The loop over the rows, for the column `col_idx`. A row that is read has `n_cols` elements.
  unfoldable pub column_of : ℕ → ℕ → List (List F) → Result AnalysisError (List F)
  column_of n_cols col_idx [] = ok []
  column_of n_cols col_idx (row ∷ rows) =
      let rest = column_of n_cols col_idx rows in
      if length row == n_cols
      then (rest >>= λ col_buf. ok (get_or row col_idx (floats.lit 0 1) ∷ col_buf))
      else err (misfit n_cols row)

  -- The loop over the columns, from the one of index `col_idx`, by the headers that are left.
  unfoldable pub columns_from :
      ℕ → ℕ → List Text → List (List F) → Result AnalysisError (List (Text × List F))
  unfolding column_of
  columns_from n_cols col_idx [] rows = ok []
  columns_from n_cols col_idx (header ∷ headers) rows = column_of n_cols col_idx rows >>= λ col_buf.
      columns_from n_cols (col_idx + 1) headers rows >>= λ series. ok ((header, col_buf) ∷ series)

  -- `PolarsDatasetBuilder::build_from_rows`, which does not read the headers of the builder.
  unfoldable pub build_from_rows : List Text → List (List F) → Result AnalysisError D
  unfolding columns_from
  build_from_rows headers rows =
      if is_empty headers
      then err (polars_error (codes "no headers provided"))
      else columns_from (length headers) 0 headers rows >>= λ series.
          map_err polars_error (polars.collect series)

  -- The loop of `count_nulls` over the columns; `count` is a `u64`.
  abbrev pub sum_nulls : ℕ → List C → ℕ
  sum_nulls count [] = count
  sum_nulls count (col ∷ columns) = sum_nulls ((count + polars.null_count col) % 2 ^ 64) columns

  -- `count_nulls`: the columns of the first `width` indices are all of them.
  unfoldable pub count_nulls : D → ℕ
  count_nulls frame = sum_nulls 0 (polars.columns frame)

  -- `schema_from_frame`
  unfoldable pub schema_from_frame : D → FeatureSchema
  schema_from_frame frame = record {
    features = map (λ col. scalar_feature (polars.column_name col)) (polars.columns frame);
    normalization = unnormalized;
  }

  abbrev pub lengths : List (StorageKey × StorageValue) → List (List F)
  unfolding as_bytes
  lengths [] = []
  lengths ((k, v) ∷ entries) =
      (floats.of_nat (length (as_bytes k.text)) ∷ floats.of_nat (length v.bytes) ∷ [])
      ∷ lengths entries

  -- `storage_result_to_frame`
  unfoldable pub storage_result_to_frame : StorageResultSet → Result AnalysisError D
  unfolding build_from_rows as_bytes
  storage_result_to_frame rs =
      if is_empty rs.entries
      then ok polars.empty
      else build_from_rows (codes "key" ∷ codes "value" ∷ []) (lengths rs.entries)

  -- A result without its rows of nulls counted.
  abbrev pub described : D → ℕ → AnalysisResult D
  unfolding schema_from_frame now_monotonic
  described frame null_count = record {
    frame = frame;
    schema = schema_from_frame frame;
    stats = record {
      rows = polars.height frame;
      columns = min (polars.width frame) (2 ^ 32 - 1);
      null_count = null_count;
      generated_at = now_monotonic;
    };
  }

  abbrev pub queried :
      Result StorageError StorageResultSet → Result AnalysisError (AnalysisResult D)
  unfolding analysis_error_of_storage_error storage_result_to_frame schema_from_frame now_monotonic
  queried found = map_err analysis_error_of_storage_error found >>= λ rs.
      storage_result_to_frame rs >>= λ frame. ok (described frame 0)

  module _ {J : Type 0} where
    -- `RayonAnalysisPipeline::run`
    unfoldable pub run_rayon : AnalysisInput J D → Result AnalysisError (AnalysisResult D)
    unfolding count_nulls schema_from_frame now_monotonic
    run_rayon (data_frame frame) = ok (described frame (count_nulls frame))
    run_rayon (telemetry _ _ _) = err (
        internal_failure
          (codes "telemetry queries require a storage backend; use StorageQuery variant"))
    run_rayon (storage_query _) = err (
        internal_failure
          (codes "storage queries require a storage backend; pass one to the pipeline"))

    -- `StorageAnalysisPipeline::run`
    unfoldable pub run_storage :
        {W : Type 0} → Storage J W → AnalysisInput J D → M W AnalysisError (AnalysisResult D)
    unfolding count_nulls analysis_error_of_storage_error storage_result_to_frame schema_from_frame
        now_monotonic
    run_storage storage (data_frame frame) w = return (described frame (count_nulls frame)) w
    run_storage storage (storage_query q) w = (queried (storage.query q w).0, (storage.query q w).1)
    run_storage storage (telemetry _ _ _) w =
        throw
          (internal_failure
            (codes "telemetry time-range queries require a storage backend with time indexing"))
          w
