-- ===== src/Analysis/Rows.antt =====
-- crates/themql-analysis/src/lib.rs: the columns that are made of rows.
use the_mql.Base.{
  ℕ, ◌+◌, false, Option, none, some, List, [], ◌∷◌, map, is_empty, length, get_or, ◌==◌,
  if◌then◌else◌, Result, ok, err, map_err, ◌>>=◌, ◌≡◌, refl, inl, inr, Bool-cases, Option-cases,
}
use the_mql.Base.Floats.{Floats}
use the_mql.Base.Text.{Text, codes}
use the_mql.Analysis.{
  Polars, AnalysisError, polars_error, misfit, column_of, columns_from, build_from_rows,
}

module _ {F D C : Type 0} (floats : Floats F) (polars : Polars F D C) where
  -- The first row of another width than this.
  abbrev pub first_misfit : ℕ → List (List F) → Option (List F)
  first_misfit n [] = none
  first_misfit n (row ∷ rows) =
      let rest = first_misfit n rows in if length row == n then rest else some row

  -- Under each header, from the one of index `i`, the values that the rows have there.
  abbrev pub transposed : ℕ → List Text → List (List F) → List (Text × List F)
  transposed i [] rows = []
  transposed i (header ∷ headers) rows =
      (header, map (λ row. get_or row i (floats.lit 0 1)) rows) ∷ transposed (i + 1) headers rows

  -- An error for the row that was found, and otherwise this.
  abbrev pub unless_found : {A : Type 0} → ℕ → Option (List F) → A → Result AnalysisError A
  unless_found n none a = ok a
  unless_found n (some row) a = err (misfit floats polars n row)

  pushed :
      (n : ℕ) (found : Option (List F)) (col : List F) (v : F)
      → (unless_found n found col >>= λ col_buf. ok (v ∷ col_buf)) ≡ unless_found n found (v ∷ col)
  pushed n none col v = refl
  pushed n (some row) col v = refl

  column_of-eq :
      (n i : ℕ) (rows : List (List F))
      → column_of floats polars n i rows
        ≡ unless_found n (first_misfit n rows) (map (λ row. get_or row i (floats.lit 0 1)) rows)
  unfolding column_of
  column_of-eq n i [] = refl
  column_of-eq n i (row ∷ rows) = elim (Bool-cases (length row == n)) [
    | inl e ↦ rw (e, column_of-eq n i rows) (pushed n (first_misfit n rows) _ _)
    | inr e ↦ rw e refl
  ]

  columns_from-fit :
      (n i : ℕ) (headers : List Text) (rows : List (List F))
      → first_misfit n rows ≡ none
      → columns_from floats polars n i headers rows ≡ ok (transposed i headers rows)
  unfolding columns_from
  columns_from-fit n i [] rows h = refl
  columns_from-fit n i (header ∷ headers) rows h =
      rw (column_of-eq n i rows, h, columns_from-fit n (i + 1) headers rows h) refl

  columns_from-misfit :
      (n : ℕ) (headers : List Text) (rows : List (List F)) (row : List F)
      → is_empty headers ≡ false
      → first_misfit n rows ≡ some row
      → columns_from floats polars n 0 headers rows ≡ err (misfit floats polars n row)
  unfolding columns_from
  columns_from-misfit n [] rows row e h = cc
  columns_from-misfit n (header ∷ headers) rows row e h = rw (column_of-eq n 0 rows, h) refl

  -- Without headers, or with a row that has not one value for each of them, there is an error, which
  -- for rows is about the first such row. Otherwise the frame is collected of the headers, each with
  -- the values that the rows have at its index; an error of the collection is passed on.
  pub build_from_rows-transposed :
      (headers : List Text) (rows : List (List F))
      → build_from_rows floats polars headers rows ≡ (
          if is_empty headers
          then err (polars_error (codes "no headers provided"))
          else (unless_found
                (length headers)
                (first_misfit (length headers) rows)
                (transposed 0 headers rows)
              >>= λ series. map_err polars_error (polars.collect series)))
  unfolding build_from_rows
  build_from_rows-transposed headers rows =
      let n = length headers in
      elim (Bool-cases (is_empty headers)) [
        | inl e ↦ rw e refl
        | inr e ↦ elim (Option-cases (first_misfit n rows)) [
          | inl h ↦ rw (e, h, columns_from-fit n 0 headers rows h) refl
          | inr (row, h) ↦ rw (e, h, columns_from-misfit n headers rows row e h) refl
        ]
      ]
