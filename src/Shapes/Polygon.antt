-- ===== src/Shapes/Polygon.antt =====
-- Polygons as lists of points (GeomUtils in src/osgGIS/Utils.cpp, GeoPointList in
-- src/osgGIS/GeoPoint.cpp). The inherited `!=` and `length2` of osg::Vec3d are parameters.
use osggis.Base.{ℕ, zero, suc, Bool, true, false, ◌&&◌, [], ◌∷◌, ◌++◌, length, ltb, if◌then◌else◌}
use osggis.Geo.Point.{Plane, Point, point_eq}
use osggis.Shapes.Shape.{Part}

pub record Vectors (c : Plane) : Type 0 where
  -- osg::Vec3d::operator !=
  pub differ : Point c → Point c → Bool
  -- ( p - q ).length2()
  pub length2 : Point c → Point c → c.W

module _ (c : Plane) where
  open c use {W, half, add, sub, mul, le}

  -- back(), for a list with the first element given.
  abbrev pub last_of : Point c → Part c → Point c
  last_of p [] = p
  last_of p (q ∷ qs) = last_of q qs

  -- erase( end() - 1 ), likewise.
  abbrev pub init_of : Point c → Part c → Part c
  init_of p [] = []
  init_of p (q ∷ qs) = p ∷ init_of q qs

  -- isClosed()
  unfoldable pub is_closed : Part c → Bool
  unfolding point_eq
  is_closed [] = false
  is_closed (p ∷ []) = false
  is_closed (p ∷ q ∷ qs) = point_eq c p (last_of q qs)

  -- The test of the loop of openPolygon.
  abbrev pub is_open_loop : Part c → Bool
  is_open_loop [] = false
  is_open_loop (p ∷ ps) = ltb 3 (suc (length ps)) && point_eq c p (last_of p ps)

  abbrev pub pop_back : Part c → Part c
  pop_back [] = []
  pop_back (p ∷ ps) = init_of p ps

  -- The loop of openPolygon, with fuel.
  unfoldable pub open_from : ℕ → Part c → Part c
  unfolding point_eq
  open_from zero ps = ps
  open_from (suc fuel) ps = elim (is_open_loop ps) [
    | true ↦ open_from fuel (pop_back ps)
    | false ↦ ps
  ]

  unfoldable pub open_polygon : Part c → Part c
  unfolding open_from
  open_polygon ps = open_from (length ps) ps

  unfoldable pub close_polygon : Vectors c → Part c → Part c
  close_polygon v [] = []
  close_polygon v (p ∷ ps) = if v.differ p (last_of p ps) then (p ∷ ps) ++ (p ∷ []) else p ∷ ps

  -- The loop of getPolygonArea2D; the successor of the last point is the first.
  unfoldable pub sum_from : W → Point c → Part c → W
  sum_from sum first [] = sum
  sum_from sum first (p ∷ []) = add sum (sub (mul p.x first.y) (mul first.x p.y))
  sum_from sum first (p ∷ q ∷ qs) =
      sum_from (add sum (sub (mul p.x q.y) (mul q.x p.y))) first (q ∷ qs)

  abbrev pub area_of : Part c → W
  area_of [] = c.zero
  area_of (p ∷ ps) = sum_from c.zero p (p ∷ ps)

  unfoldable pub get_polygon_area_2d : Part c → W
  unfolding open_polygon sum_from
  get_polygon_area_2d polygon = mul half (area_of (open_polygon polygon))

  unfoldable pub is_polygon_ccw : Part c → Bool
  unfolding get_polygon_area_2d
  is_polygon_ccw points = le c.zero (get_polygon_area_2d points)
