-- ===== src/Training/Frames.antt =====
-- crates/themql-training/src/lib.rs: a data frame as rows of `f32`.
use the_mql.Base.{
  ℕ, zero, suc, ◌+◌, Bool, Option, none, some, List, [], ◌∷◌, ◌++◌, ◌==◌, if◌then◌else◌, Result, ok,
  err, ◌>>=◌,
}
use the_mql.Base.Decimal.{decimal}
use the_mql.Base.Floats.{Floats}
use the_mql.Base.Text.{Text, codes}
use the_mql.Analysis.{Polars}

-- `polars`: whether a column is of `f64`, its cast to such a one, and its values, with nulls.
pub record Columns (F G C : Type 0) : Type 0 where
  pub is_f64 : C → Bool
  pub cast : C → Result Text C
  pub values : C → Result Text (List (Option F))
  pub narrow_to_f32 : F → G

abbrev pub nth : {A : Type 0} → List A → ℕ → Option A
nth [] i = none
nth (x ∷ xs) zero = some x
nth (x ∷ xs) (suc i) = nth xs i

abbrev pub empty_rows : {A : Type 0} → ℕ → List (List A)
empty_rows zero = []
empty_rows (suc n) = [] ∷ empty_rows n

module _ {F G D C : Type 0} (floats : Floats F) (polars : Polars F D C) (cols : Columns F G C) where
  abbrev pub or_zero : Option F → F
  or_zero none = floats.lit 0 1
  or_zero (some v) = v

  -- The loop over the values of a column: each goes to the end of its row, if that is there.
  unfoldable pub push_values : List (List G) → List (Option F) → List (List G)
  push_values [] values = []
  push_values (row ∷ out) [] = row ∷ out
  push_values (row ∷ out) (v ∷ values) =
      (row ++ cols.narrow_to_f32 (or_zero v) ∷ []) ∷ push_values out values

  abbrev pub casted : C → Result Text C
  casted col = if cols.is_f64 col then ok col else cols.cast col

  abbrev pub column_at : ℕ → Option C → Result Text C
  column_at i none = err (codes "column " ++ decimal i ++ codes " missing")
  column_at i (some col) = ok col

  -- The loop over the columns, by how many are left.
  unfoldable pub push_columns : D → ℕ → ℕ → List (List G) → Result Text (List (List G))
  unfolding push_values
  push_columns frame zero i out = ok out
  push_columns frame (suc left) i out = do
    col ← column_at i (nth (polars.columns frame) i)
    casted' ← casted col
    values ← cols.values casted'
    push_columns frame left (i + 1) (push_values out values)

  -- `frame_to_row_major_f32`
  unfoldable pub frame_to_row_major_f32 : D → Result Text (List (List G))
  unfolding push_columns
  frame_to_row_major_f32 frame =
      if polars.width frame == 0
      then ok []
      else push_columns frame (polars.width frame) 0 (empty_rows (polars.height frame))
