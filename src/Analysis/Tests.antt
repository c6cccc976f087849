-- ===== src/Analysis/Tests.antt =====
-- crates/themql-analysis/src/lib.rs: rows of two columns, and frames as lists of columns.
use the_mql.Base.{
  ℕ, List, [], ◌∷◌, is_empty, length, if◌then◌else◌, ok, err, map_err, ◌>>=◌, ◌≡◌, refl,
}
use the_mql.Base.Floats.{naturals}
use the_mql.Base.Text.{Text, codes}
use the_mql.Analysis.{Polars, polars_error, build_from_rows}
use the_mql.Analysis.Rows.{first_misfit, transposed, unless_found, build_from_rows-transposed}

abbrev Frame : Type 0
Frame = List (Text × List ℕ)

abbrev polars : Polars ℕ Frame (Text × List ℕ)
polars = record {
  empty = [];
  select = λ frame names. ok frame;
  collect = λ series. ok series;
  height = λ frame. 0;
  width = λ frame. length frame;
  columns = λ frame. frame;
  column_name = λ col. col.0;
  null_count = λ col. 0;
}

abbrev headers : List Text
headers = codes "key" ∷ codes "value" ∷ []

built :
    build_from_rows naturals polars headers ((1 ∷ 2 ∷ []) ∷ (3 ∷ 4 ∷ []) ∷ [])
    ≡ ok ((codes "key", 1 ∷ 3 ∷ []) ∷ (codes "value", 2 ∷ 4 ∷ []) ∷ [])
unfolding build_from_rows
built = refl

abbrev uneven : List (List ℕ)
uneven = (1 ∷ 2 ∷ []) ∷ (3 ∷ []) ∷ []

build_from_rows-transposed_example : build_from_rows naturals polars headers uneven ≡ (
    if is_empty headers
    then err (polars_error (codes "no headers provided"))
    else (unless_found naturals polars
          (length headers)
          (first_misfit naturals polars (length headers) uneven)
          (transposed naturals polars 0 headers uneven)
        >>= λ series. map_err polars_error (polars.collect series)))
build_from_rows-transposed_example = build_from_rows-transposed naturals polars headers uneven
