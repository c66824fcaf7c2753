-- ===== src/Geo/Tests.antt =====
-- The theorems on extents (src/osgGIS/GeoExtent.cpp) on a plane of whole numbers with one spatial
-- reference.
use osggis.Base.{◌≡◌, refl, ℕ, false, true, some, none, ◌⊎◌}
use osggis.Geo.Point.{Point, new_point}
use osggis.Geo.Extent.{
  Extent, new_extent, apart, invalid, contains, intersects_point, expand_to_include,
  get_intersection,
}
use osggis.Geo.Relate.{contains-intersects_point, contains-fault}
use osggis.Geo.Expand.{IsBox, Within, expand_to_include-IsBox}
use osggis.Geo.Meet.{get_intersection-Within}
use osggis.Geo.Grid.{grid, grid-IsPlane, box}

contains-intersects_point_example :
    contains grid (box 2 5) (new_point grid 3 4 (some 1))
    ≡ intersects_point grid (box 2 5) (new_point grid 3 4 (some 1))
contains-intersects_point_example =
    contains-intersects_point grid grid-IsPlane (box 2 5) (new_point grid 3 4 (some 1)) refl

contains-fault_example :
    (contains grid (new_extent grid) (new_point grid 3 4 (some 1)) ≡ none)
    × (intersects_point grid (new_extent grid) (new_point grid 3 4 (some 1)) ≡ some false)
contains-fault_example = contains-fault grid (new_point grid 3 4 (some 1)) refl

expand_to_include-IsBox_example :
    (e' : Extent grid) × (expand_to_include grid (box 2 5) (new_point grid 9 1 (some 1)) ≡ some e')
    × IsBox grid e'
    × Within grid (box 2 5) e'
    × (contains grid e' (new_point grid 9 1 (some 1)) ≡ some true)
expand_to_include-IsBox_example =
    expand_to_include-IsBox grid grid-IsPlane (box 2 5) (new_point grid 9 1 (some 1)) 1
      (refl, refl, refl, refl, refl, refl) refl refl refl (refl, refl)

get_intersection-Within_example :
    (e : Extent grid) × (get_intersection grid (box 2 5) (box 4 9) ≡ some e)
    × (((apart grid (box 2 5) (box 4 9) ≡ true) × (e ≡ invalid grid))
        ⊎ ((apart grid (box 2 5) (box 4 9) ≡ false)
            × IsBox grid e
            × Within grid e (box 2 5)
            × Within grid e (box 4 9)))
get_intersection-Within_example =
    get_intersection-Within grid grid-IsPlane (box 2 5) (box 4 9) 1
      (refl, refl, refl, refl, refl, refl) (refl, refl, refl, refl, refl, refl) refl refl refl

abbrev at_point : ℕ → ℕ → Point grid
at_point x y = new_point grid x y (some 1)
