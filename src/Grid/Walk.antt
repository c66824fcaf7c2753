-- ===== src/Grid/Walk.antt =====
-- A walk over the cells of a grid by its cursor (src/osgGISProjects/GriddedMapLayerCompiler.cpp).
use osggis.Base.{
  ℕ, zero, suc, ◌+◌, ◌<◌, ◌≡◌, refl, ◌∙◌, true, false, ltb, Option, none, some, List, [], ◌∷◌,
  ◌>>=◌, arith,
}
use osggis.Grid.Defs.{GridCellKey, GridCellCursor, has_next, next_cell}

module _ (num_cols num_rows num_levels : ℕ) where
  -- A client: while( hasNext() ) next(), with fuel.
  pub walk : ℕ → GridCellCursor → Option (List GridCellKey)
  walk zero s = none
  walk (suc fuel) s = elim (has_next num_cols num_rows num_levels s) [
    | true ↦ walk fuel (next_cell num_cols num_rows s).0 >>= λ cells.
        some ((next_cell num_cols num_rows s).1 ∷ cells)
    | false ↦ some []
  ]

  -- The cells of a row from a column on, so many of them.
  abbrev pub row_cells : ℕ → ℕ → List GridCellKey
  row_cells col zero = []
  row_cells col (suc left) = record { col = col; row = 0; level = 0 } ∷ row_cells (suc col) left

  abbrev first_row : ℕ → GridCellCursor
  first_row col = record { lod_i = 0; col_i = col; row_i = 0 }

  has_next-first_row :
      (col : ℕ)
      → 0 < num_rows
      → 0 < num_levels
      → has_next num_cols num_rows num_levels (first_row col) ≡ ltb col num_cols
  unfolding has_next
  has_next-first_row col r l = ground arith

  next_cell-first_row :
      (col : ℕ)
      → col < num_cols
      → next_cell num_cols num_rows (first_row col)
        ≡ (first_row (suc col), record { col = col; row = 0; level = 0 })
  unfolding next_cell
  next_cell-first_row col h = let t : ltb num_cols (suc col) ≡ false = ground arith in rw t refl

  walk_end :
      (fuel : ℕ) (s : GridCellCursor)
      → has_next num_cols num_rows num_levels s ≡ false
      → walk (suc fuel) s ≡ some []
  unfolding walk
  walk_end fuel s h = rw (h, walk) refl

  walk_on :
      (fuel : ℕ) (s s' : GridCellCursor) (key : GridCellKey) (cells : List GridCellKey)
      → has_next num_cols num_rows num_levels s ≡ true
      → next_cell num_cols num_rows s ≡ (s', key)
      → walk fuel s' ≡ some cells
      → walk (suc fuel) s ≡ some (key ∷ cells)
  unfolding walk
  walk_on fuel s s' key cells h n w = rw (h, walk, n, w, ◌>>=◌) refl

  walk_row :
      (left col fuel : ℕ)
      → 0 < num_rows
      → 0 < num_levels
      → col + left ≡ num_cols
      → left < fuel
      → walk fuel (first_row col) ≡ some (row_cells col left)
  walk_row left col zero r l h k = absurd (omega arith)
  walk_row zero col (suc fuel) r l h k =
      let off : ltb col num_cols ≡ false = ground arith in
      walk_end fuel (first_row col) (has_next-first_row col r l ∙ off)
  walk_row (suc left) col (suc fuel) r l h k =
      let on : ltb col num_cols ≡ true = ground arith in
      walk_on fuel (first_row col) (first_row (suc col)) _ (row_cells (suc col) left)
        (has_next-first_row col r l ∙ on) (next_cell-first_row col (omega arith))
        (walk_row left (suc col) fuel r l (omega arith) (omega arith))

  -- A client that takes cells from a new cursor as long as it has a next one gets the cells of the
  -- first row of the first level and no others, however many rows and levels there are, if there is
  -- one of each and the fuel is above the number of columns.
  pub walk-row_cells :
      (fuel : ℕ)
      → 0 < num_rows
      → 0 < num_levels
      → num_cols < fuel
      → walk fuel (record { lod_i = 0; col_i = 0; row_i = 0 }) ≡ some (row_cells 0 num_cols)
  walk-row_cells fuel r l h = walk_row num_cols 0 fuel r l (omega arith) h
