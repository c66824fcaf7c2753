-- ===== src/Shapes/Parts.antt =====
-- The filters that work on the parts of shapes: DecimateFilter, RemoveHolesFilter and
-- ChangeShapeTypeFilter (src/osgGIS/DecimateFilter.cpp, RemoveHolesFilter.cpp,
-- ChangeShapeTypeFilter.cpp), on the shapes of their input feature.
use osggis.Base.{
  ℕ, Bool, true, false, ◌&&◌, Option, none, some, List, [], ◌∷◌, ◌++◌, length, leb, ltb,
  is_nonempty, map, if◌then◌else◌,
}
use osggis.Geo.Point.{Plane, Point}
use osggis.Shapes.Shape.{
  ShapeType, type_unspecified, type_point, type_line, type_polygon, Part, GeoShape, update_parts,
  set_shape_type,
}
use osggis.Shapes.Polygon.{Vectors, close_polygon, is_polygon_ccw}

module _ (c : Plane) where
  open c use {W, mul, lt}

  -- The loop of decimatePart after the first point; `t2` is the square of the threshold.
  unfoldable pub decimate_from : Vectors c → W → Point c → Part c → Part c
  decimate_from v t2 last [] = []
  decimate_from v t2 last (p ∷ ps) = elim (lt t2 (v.length2 p last)) [
    | true ↦ p ∷ decimate_from v t2 p ps
    | false ↦ decimate_from v t2 last ps
  ]

  abbrev pub decimated : Vectors c → W → Part c → Part c
  decimated v t2 [] = []
  decimated v t2 (p ∷ ps) = p ∷ decimate_from v t2 p ps

  -- decimatePart
  unfoldable pub decimate_part : Vectors c → W → ℕ → Part c → List (Part c) → List (Part c)
  unfolding decimate_from
  decimate_part v threshold min_points input output =
      let new_part = decimated v (mul threshold threshold) input in
      if leb min_points (length input) && leb min_points (length new_part)
      then output ++ (new_part ∷ [])
      else output

  abbrev pub min_points_of : ShapeType → ℕ
  min_points_of type_polygon = 3
  min_points_of type_line = 2
  min_points_of type_point = 1
  min_points_of type_unspecified = 1

  unfoldable pub decimate_parts : Vectors c → W → ℕ → List (Part c) → List (Part c) → List (Part c)
  unfolding decimate_part
  decimate_parts v threshold k [] output = output
  decimate_parts v threshold k (p ∷ ps) output =
      decimate_parts v threshold k ps (decimate_part v threshold k p output)

  -- The loop of DecimateFilter::process over the shapes. After the swap `new_parts` has the parts that
  -- the shape had before.
  unfoldable pub decimate_shapes : Vectors c → W → List (GeoShape c) → List (GeoShape c)
  unfolding decimate_parts update_parts
  decimate_shapes v threshold [] = []
  decimate_shapes v threshold (s ∷ ss) =
      let new_parts = decimate_parts v threshold (min_points_of s.shape_type) s.parts [] in
      let s' = update_parts c (λ ps. new_parts) s in
      let rest = decimate_shapes v threshold ss in if is_nonempty s.parts then s' ∷ rest else rest

  -- DecimateFilter::process: the shapes of the output feature, if it is output.
  unfoldable pub decimate : Vectors c → W → List (GeoShape c) → Option (List (GeoShape c))
  unfolding decimate_shapes
  decimate v threshold shapes =
      let new_shapes = decimate_shapes v threshold shapes in
      if is_nonempty new_shapes then some new_shapes else none

  -- The loop of RemoveHolesFilter::process over the parts of a polygon.
  unfoldable pub outer_parts : List (Part c) → List (Part c)
  unfolding is_polygon_ccw
  outer_parts [] = []
  outer_parts (p ∷ ps) =
      let rest = outer_parts ps in if ltb 2 (length p) && is_polygon_ccw c p then p ∷ rest else rest

  abbrev pub is_polygon : ShapeType → Bool
  is_polygon type_polygon = true
  is_polygon type_line = false
  is_polygon type_point = false
  is_polygon type_unspecified = false

  abbrev pub is_line : ShapeType → Bool
  is_line type_line = true
  is_line type_polygon = false
  is_line type_point = false
  is_line type_unspecified = false

  unfoldable pub remove_holes : GeoShape c → GeoShape c
  unfolding outer_parts update_parts
  remove_holes s = if is_polygon s.shape_type then update_parts c outer_parts s else s

  -- The body of the loop of ChangeShapeTypeFilter::process.
  unfoldable pub change_shape_type : Vectors c → ShapeType → GeoShape c → GeoShape c
  unfolding close_polygon update_parts
  change_shape_type v new_type s =
      let s' = set_shape_type c new_type s in
      if is_polygon s.shape_type && is_line new_type
      then update_parts c (map (close_polygon c v)) s'
      else s'
