-- ===== src/Quad/Key.antt =====
-- QuadMap and QuadKey (src/osgGISProjects/QuadKey, src/osgGISProjects/QuadKey.cpp). A character is its
-- code; `unsigned int` is seen within its 32 bits.
use osggis.Base.{
  ℕ, zero, suc, ◌+◌, ◌/◌, ◌%◌, ◌^◌, Bool, true, false, Option, none, some, [], ◌∷◌, ◌++◌, ltb,
  length, take, ◌-◌, ◌||◌, ◌==◌, if◌then◌else◌, Bytes,
}
use osggis.Geo.Point.{Plane}
use osggis.Geo.Extent.{
  Extent, invalid, get_x_min, get_y_min, get_width, get_height, get_srs, of_bounds,
}

pub data StringStyle : Type 0 where
  style_quadkey : StringStyle
  style_lod_quadkey : StringStyle

-- The character '0'.
abbrev pub zero_char : ℕ
zero_char = 48

-- The bit of `1 << i`, for i below 32. Above that the shift of the source is undefined, so keys of more
-- than 32 levels are none of the program's.
abbrev pub bit : ℕ → ℕ → ℕ
bit n i = (n / 2 ^ i) % 2

-- '0', incremented for the bit of `cell_x` and by two for that of `cell_y`.
abbrev pub digit : ℕ → ℕ → ℕ
digit bx by = zero_char + (if bx == 0 then 0 else 1) + (if by == 0 then 0 else 2)

-- The characters that the constructor writes, from bit lod - 1 down to bit 0.
unfoldable pub cell_digits : ℕ → ℕ → ℕ → Bytes
cell_digits cell_x cell_y zero = []
cell_digits cell_x cell_y (suc i) =
    digit (bit cell_x i) (bit cell_y i) ∷ cell_digits cell_x cell_y i

module _ (c : Plane) where
  open c use {W, mul, add, half, lt}

  pub record QuadMap : Type 0 where
    pub bounds : Extent c
    pub string_style : StringStyle

  pub record QuadKey : Type 0 where
    pub qstr : Bytes
    pub extent : Extent c
    pub quad_map : QuadMap

  abbrev pub new_map : Extent c → QuadMap
  new_map bounds = record { bounds = bounds; string_style = style_quadkey }

  -- A width and a height, halved once for each level.
  abbrev pub halve : W × W → W × W
  halve (dx, dy) = (mul dx half, mul dy half)

  abbrev pub halve_times : ℕ → W × W → W × W
  halve_times zero size = size
  halve_times (suc lod) size = halve_times lod (halve size)

  unfoldable pub cell_size : QuadMap → ℕ → W × W
  cell_size m lod = halve_times lod (get_width c m.bounds, get_height c m.bounds)

  -- Whether a cell of a level is exceeded by a width or a height.
  abbrev pub is_exceeded : QuadMap → W → W → ℕ → Bool
  is_exceeded m width height lod =
      let (cell_x, cell_y) = cell_size m lod in lt cell_x width || lt cell_y height

  -- The loop of getBestLodForCellsOfSize from lod + 1 on, with fuel.
  unfoldable pub best_lod_from : ℕ → QuadMap → W → W → ℕ → Option ℕ
  unfolding cell_size
  best_lod_from zero m width height lod = none
  best_lod_from (suc fuel) m width height lod =
      let rest = best_lod_from fuel m width height (suc lod) in
      if is_exceeded m width height lod then some lod else rest

  unfoldable pub best_lod : ℕ → QuadMap → W → W → Option ℕ
  unfolding best_lod_from
  best_lod fuel m width height = best_lod_from fuel m width height 0

  -- QuadKey( qstr, map )
  abbrev pub new_key : Bytes → QuadMap → QuadKey
  new_key qstr m = record { qstr = qstr; extent = invalid c; quad_map = m }

  -- QuadKey( cell_x, cell_y, lod, map )
  unfoldable pub cell_key : ℕ → ℕ → ℕ → QuadMap → QuadKey
  unfolding cell_digits
  cell_key cell_x cell_y lod m = new_key (cell_digits cell_x cell_y lod) m

  unfoldable pub get_lod : QuadKey → ℕ
  get_lod k = length k.qstr

  -- `quadrant` is below 4.
  unfoldable pub create_sub_key : ℕ → QuadKey → QuadKey
  create_sub_key quadrant k = new_key (k.qstr ++ ((zero_char + quadrant) ∷ [])) k.quad_map

  unfoldable pub create_parent_key : QuadKey → QuadKey
  create_parent_key k =
      if ltb 0 (length k.qstr)
      then new_key (take (length k.qstr - 1) k.qstr) k.quad_map
      else new_key k.qstr k.quad_map

  -- xmin, ymin, dx and dy
  pub record Frame : Type 0 where
    pub xmin : W
    pub ymin : W
    pub dx : W
    pub dy : W

  -- The body of the loop of getExtent.
  abbrev pub descend : Frame → ℕ → Frame
  descend f q =
      let dx = mul f.dx half in
      let dy = mul f.dy half in
      record {
        xmin =
            if q == zero_char + 1
            then add f.xmin dx
            else if q == zero_char + 3
            then add f.xmin dx
            else f.xmin;
        ymin =
            if q == zero_char + 2
            then add f.ymin dy
            else if q == zero_char + 3
            then add f.ymin dy
            else f.ymin;
        dx = dx;
        dy = dy;
      }

  unfoldable pub walk : Frame → Bytes → Frame
  walk f [] = f
  walk f (q ∷ qs) = walk (descend f q) qs

  abbrev pub map_frame : QuadMap → Frame
  map_frame m = record {
    xmin = get_x_min c m.bounds;
    ymin = get_y_min c m.bounds;
    dx = get_width c m.bounds;
    dy = get_height c m.bounds;
  }

  abbrev pub frame_extent : Frame → QuadMap → Extent c
  frame_extent f m =
      of_bounds c f.xmin f.ymin (add f.xmin f.dx) (add f.ymin f.dy) (get_srs c m.bounds)

  abbrev pub computed : QuadKey → Extent c
  computed k = frame_extent (walk (map_frame k.quad_map) k.qstr) k.quad_map

  -- Whether the stored extent is valid, the key and the computed extent.
  abbrev pub stored : Bool → QuadKey → Extent c → Extent c × QuadKey
  stored true k e = (k.extent, k)
  stored false k e = (e, record k { extent = e })

  -- The extent and the key, which keeps it.
  unfoldable pub get_extent : QuadKey → Extent c × QuadKey
  unfolding walk
  get_extent k = stored k.extent.is_valid k (computed k)
