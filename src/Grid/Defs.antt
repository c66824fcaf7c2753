-- ===== src/Grid/Defs.antt =====
-- GridProfile, GridCellCursor and the queueing of tasks for cells
-- (src/osgGISProjects/GriddedMapLayerCompiler.cpp). `L` is what a level of detail has beside its depth,
-- its feature layer and its filter graph among it.
use osggis.Base.{
  ℕ, zero, suc, Bool, true, false, ◌&&◌, ◌==◌, ltb, Option, none, some, List, [], ◌∷◌, ◌++◌, map,
  length, if◌then◌else◌,
}
use osggis.Geo.Point.{Plane}
use osggis.Geo.Extent.{Extent, get_width, get_height}

-- What the profile takes from `double` beside Plane: `(int) ceil`, fmod, a conversion, and the
-- constructor of an extent from its bounds.
pub record Rounding (c : Plane) : Type 0 where
  pub ceil : c.W → ℕ
  pub fmod : c.W → c.W → c.W
  pub of_int : ℕ → c.W
  pub bounded : c.W → c.W → c.W → c.W → Option c.Srs → Extent c

-- n - 1 of an unsigned int
abbrev pub before_int : ℕ → ℕ
before_int zero = 4294967295
before_int (suc n) = n

module _ (c : Plane) (r : Rounding c) where
  open c use {W, zero, add, mul, div, le, eq}
  open r use {ceil, fmod, of_int, bounded}

  pub record GridProfile : Type 0 where
    pub bounds : Extent c
    pub num_rows : ℕ
    pub num_cols : ℕ
    pub dx : W
    pub last_dx : W
    pub dy : W
    pub last_dy : W

  -- A size of 0 or less stands for the whole bounds.
  abbrev pub size_or : W → W → W
  size_or size whole = if le size zero then whole else size

  abbrev pub last_size : W → W → W
  last_size whole size = if eq (fmod whole size) zero then size else fmod whole size

  unfoldable pub init_by_cell_size : Extent c → W → W → GridProfile
  init_by_cell_size bounds col_size row_size =
      let height = get_height c bounds in
      let width = get_width c bounds in
      let dy = size_or row_size height in
      let dx = size_or col_size width in
      record {
        bounds = bounds;
        num_rows = ceil (div height dy);
        num_cols = ceil (div width dx);
        dx = dx;
        last_dx = last_size width dx;
        dy = dy;
        last_dy = last_size height dy;
      }

  abbrev pub at_least_one : ℕ → ℕ
  at_least_one n = if ltb n 1 then 1 else n

  unfoldable pub init_by_cell_count : Extent c → ℕ → ℕ → GridProfile
  init_by_cell_count bounds cols rows =
      let num_rows = at_least_one rows in
      let num_cols = at_least_one cols in
      let dy = div (get_height c bounds) (of_int num_rows) in
      let dx = div (get_width c bounds) (of_int num_cols) in
      record {
        bounds = bounds;
        num_rows = num_rows;
        num_cols = num_cols;
        dx = dx;
        last_dx = dx;
        dy = dy;
        last_dy = dy;
      }

  unfoldable pub get_column_size : GridProfile → ℕ → W
  get_column_size p col = if ltb col (before_int p.num_cols) then p.dx else p.last_dx

  unfoldable pub get_row_size : GridProfile → ℕ → W
  get_row_size p row = if ltb row (before_int p.num_rows) then p.dy else p.last_dy

  unfoldable pub get_cell_extent : GridProfile → ℕ → ℕ → Extent c
  unfolding get_column_size get_row_size
  get_cell_extent p col row =
      let x = add p.bounds.sw.x (mul p.dx (of_int col)) in
      let y = add p.bounds.sw.y (mul p.dy (of_int row)) in
      bounded x y (add x (get_column_size p col)) (add y (get_row_size p row)) p.bounds.sw.srs

pub record GridCellKey : Type 0 where
  pub col : ℕ
  pub row : ℕ
  pub level : ℕ

-- The counters of GridCellCursor.
pub record GridCellCursor : Type 0 where
  pub lod_i : ℕ
  pub col_i : ℕ
  pub row_i : ℕ

pub record MapLayerLevelOfDetail (L : Type 0) : Type 0 where
  pub depth : ℕ
  pub rest : L

-- for( i = from; …; i++ ), so many times; each round pushes some keys.
abbrev pub push_each : (ℕ → List GridCellKey) → ℕ → ℕ → List GridCellKey
push_each body i zero = []
push_each body i (suc left) = body i ++ push_each body (suc i) left

abbrev pub key_at : {L : Type 0} → ℕ → ℕ → MapLayerLevelOfDetail L → GridCellKey
key_at col row def = record { col = col; row = row; level = def.depth }

module _ (num_cols num_rows : ℕ) where
  unfoldable pub has_next : ℕ → GridCellCursor → Bool
  has_next num_levels s = ltb s.lod_i num_levels && ltb s.col_i num_cols && ltb s.row_i num_rows

  abbrev pub next_row : GridCellCursor → GridCellCursor
  next_row s =
      if ltb num_rows (suc s.row_i)
      then record { lod_i = suc s.lod_i; col_i = 0; row_i = 0 }
      else record s { col_i = 0; row_i = suc s.row_i }

  abbrev pub advance : GridCellCursor → GridCellCursor
  advance s = if ltb num_cols (suc s.col_i) then next_row s else record s { col_i = suc s.col_i }

  -- The cursor after the call, and the place of the cell that is returned.
  unfoldable pub next_cell : GridCellCursor → GridCellCursor × GridCellKey
  next_cell s = (advance s, record { col = s.col_i; row = s.row_i; level = s.lod_i })

  module _ {L : Type 0} where
    abbrev pub level_keys : List (MapLayerLevelOfDetail L) → List GridCellKey
    level_keys [] = []
    level_keys (def ∷ levels) =
        push_each (λ col. push_each (λ row. key_at col row def ∷ []) 0 num_rows) 0 num_cols
        ++ level_keys levels

    -- collectGeometryKeys
    unfoldable pub collect_geometry_keys : List (MapLayerLevelOfDetail L) → Bool → List GridCellKey
    collect_geometry_keys levels true =
        push_each (λ col. push_each (λ row. map (key_at col row) levels) 0 num_rows) 0 num_cols
    collect_geometry_keys levels false = level_keys levels

module _ {L : Type 0} where
  -- The loop of getLodForKey, from a level on.
  abbrev pub lod_from :
      ℕ → GridCellKey → List (MapLayerLevelOfDetail L) → Option (MapLayerLevelOfDetail L)
  lod_from level key [] = none
  lod_from level key (def ∷ levels) =
      if key.level == level then some def else lod_from (suc level) key levels

  unfoldable pub get_lod_for_key :
      GridCellKey → List (MapLayerLevelOfDetail L) → Option (MapLayerLevelOfDetail L)
  get_lod_for_key key levels = lod_from 0 key levels

  -- The loop of queueTasks: the keys with the definition that createTask finds for each. NULL is the
  -- task that it makes without one.
  unfoldable pub queue_keys :
      (GridCellKey → Bool)
      → List (MapLayerLevelOfDetail L)
      → List GridCellKey
      → List (GridCellKey × Option (MapLayerLevelOfDetail L))
  unfolding get_lod_for_key
  queue_keys select levels [] = []
  queue_keys select levels (key ∷ keys) =
      let rest = queue_keys select levels keys in
      if select key then (key, get_lod_for_key key levels) ∷ rest else rest

  -- queueTasks: what it queues and what it returns.
  unfoldable pub queue_tasks :
      ℕ
      → ℕ
      → (GridCellKey → Bool)
      → List (MapLayerLevelOfDetail L)
      → Bool
      → List (GridCellKey × Option (MapLayerLevelOfDetail L)) × ℕ
  unfolding queue_keys collect_geometry_keys
  queue_tasks num_cols num_rows select levels depth_first =
      let keys = collect_geometry_keys num_cols num_rows levels depth_first in
      (queue_keys select levels keys, length keys)
