-- ===== src/Shapes/Tests.antt =====
-- The theorems on shapes (src/osgGIS/GeoShape.cpp, Utils.cpp, DecimateFilter.cpp,
-- RemoveHolesFilter.cpp) on a plane of whole numbers.
use osggis.Base.{
  ◌≡◌, refl, ℕ, ◌+◌, ◌*◌, ◌&&◌, ◌==◌, not, true, some, arith, map, ◌++◌, All, [], ◌∷◌, List,
}
use osggis.Geo.Point.{Point, new_point}
use osggis.Geo.Extent.{contains, invalid}
use osggis.Geo.Expand.{IsBox}
use osggis.Geo.Grid.{grid, grid-IsPlane, distance}
use osggis.Shapes.Shape.{GeoShape, type_polygon, type_line, Part, get_extent}
use osggis.Shapes.Polygon.{Vectors, close_polygon, open_polygon}
use osggis.Shapes.Parts.{decimate, decimate_parts}
use osggis.Shapes.Cache.{points, get_extent-contains}
use osggis.Shapes.Ends.{IsOpening, open_polygon-IsOpening}
use osggis.Shapes.Decimate.{emptied, IsDecimated, decimate_parts-IsDecimated, decimate-emptied}

abbrev vectors : Vectors grid
vectors = record {
  differ = λ p q. not ((p.x == q.x) && (p.y == q.y) && (p.z == q.z));
  length2 = λ p q. distance p.x q.x * distance p.x q.x + distance p.y q.y * distance p.y q.y;
}

abbrev at : ℕ → ℕ → Point grid
at x y = new_point grid x y (some 1)

abbrev triangle : Part grid
triangle = at 0 0 ∷ at 4 0 ∷ at 0 4 ∷ []

abbrev shape : GeoShape grid
shape = record {
  shape_type = type_polygon;
  parts = triangle ∷ [];
  srs = some 1;
  extent_cache = invalid grid;
}

get_extent-contains_example :
    (t' : GeoShape grid) × (get_extent grid shape ≡ some t')
    × (t'.parts ≡ shape.parts)
    × IsBox grid t'.extent_cache
    × All (λ q. contains grid t'.extent_cache q ≡ some true) (points grid t'.parts)
    × (get_extent grid t' ≡ some t')
get_extent-contains_example =
    get_extent-contains grid 1 grid-IsPlane shape (at 0 0) (at 4 0 ∷ at 0 4 ∷ []) refl refl
      ((refl, refl, (refl, refl)), ((refl, refl, (refl, refl)), ((refl, refl, (refl, refl)), tt)))

open_polygon-IsOpening_example :
    IsOpening grid (triangle ++ (at 0 0 ∷ [])) (open_polygon grid (triangle ++ (at 0 0 ∷ [])))
open_polygon-IsOpening_example = open_polygon-IsOpening grid (triangle ++ (at 0 0 ∷ []))

-- A polygon is closed by its first point.
close_run : close_polygon grid vectors triangle ≡ triangle ++ (at 0 0 ∷ [])
unfolding close_polygon
close_run = refl

abbrev winding : List (Part grid)
winding = (at 0 0 ∷ at 1 1 ∷ at 5 0 ∷ at 6 0 ∷ []) ∷ []

decimate_parts-IsDecimated_example :
    All (IsDecimated grid vectors 2 2 winding) (decimate_parts grid vectors 2 2 winding [])
decimate_parts-IsDecimated_example = decimate_parts-IsDecimated grid vectors 2 2 winding

abbrev short : GeoShape grid
short = record {
  shape_type = type_line;
  parts = (at 3 3 ∷ []) ∷ [];
  srs = some 1;
  extent_cache = invalid grid;
}

decimate-emptied_example :
    decimate grid vectors 2 (short ∷ []) ≡ some (map (emptied grid vectors) (short ∷ []))
decimate-emptied_example = decimate-emptied grid vectors 2 short [] ((refl, (omega arith, tt)), tt)

-- A point is dropped if it is too near to the last one that is kept.
decimate_run : decimate_parts grid vectors 2 2 winding [] ≡ (at 0 0 ∷ at 5 0 ∷ []) ∷ []
unfolding decimate_parts
decimate_run = refl

open_run : open_polygon grid (at 0 0 ∷ at 4 0 ∷ at 0 4 ∷ at 0 0 ∷ []) ≡ triangle
unfolding open_polygon
open_run = refl
