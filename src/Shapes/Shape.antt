-- ===== src/Shapes/Shape.antt =====
-- GeoShape (src/osgGIS/GeoShape, src/osgGIS/GeoShape.cpp). A reference to the parts that is handed out
-- is a change of them: the operation takes what the caller makes of them.
use osggis.Base.{
  ℕ, ◌+◌, Bool, true, false, not, ◌&&◌, Option, some, List, [], ◌∷◌, ◌++◌, length, if◌then◌else◌,
  ◌>>=◌,
}
use osggis.Geo.Point.{Plane, Point, is_valid_point}
use osggis.Geo.Extent.{Extent, invalid, new_extent, expand_to_include}

pub data ShapeType : Type 0 where
  type_unspecified : ShapeType
  type_point : ShapeType
  type_line : ShapeType
  type_polygon : ShapeType

module _ (c : Plane) where
  open c use {Srs}

  -- GeoPointList, a part.
  abbrev pub Part : Type 0
  Part = List (Point c)

  pub record GeoShape : Type 0 where
    pub shape_type : ShapeType
    pub parts : List Part
    pub srs : Option Srs
    pub extent_cache : Extent c

  unfoldable pub new_shape : ShapeType → Option Srs → GeoShape
  new_shape type srs = record { shape_type = type; parts = []; srs = srs; extent_cache = invalid c }

  abbrev pub set_shape_type : ShapeType → GeoShape → GeoShape
  set_shape_type type s = record s { shape_type = type }

  unfoldable pub set_spatial_reference : Option Srs → GeoShape → GeoShape
  set_spatial_reference srs s = record s { srs = srs; extent_cache = invalid c }

  -- getParts(), and what the caller makes of the parts.
  unfoldable pub update_parts : (List Part → List Part) → GeoShape → GeoShape
  update_parts f s = record s { parts = f s.parts; extent_cache = invalid c }

  -- addPart( part )
  unfoldable pub add_part : Part → GeoShape → GeoShape
  add_part part s = record s { parts = s.parts ++ (part ∷ []); extent_cache = invalid c }

  abbrev count_from : ℕ → List Part → ℕ
  count_from total [] = total
  count_from total (p ∷ ps) = count_from (total + length p) ps

  unfoldable pub get_total_point_count : GeoShape → ℕ
  get_total_point_count s = count_from 0 s.parts

  -- A GeoPointVisitor: its state after a point, and whether it goes on.
  abbrev pub Visitor : Type 0 → Type 0
  Visitor V = V → Point c → Option (V × Bool)

  module _ {V : Type 0} (visit : Visitor V) where
    -- `none` is a fault of the visitor.
    unfoldable pub visit_part : V → Part → Option (V × Bool)
    visit_part v [] = some (v, true)
    visit_part v (p ∷ ps) =
        let rest = λ (v' : V). visit_part v' ps in
        visit v p >>= λ r. elim r.1 [ true ↦ rest r.0 | false ↦ some (r.0, false) ]

    unfoldable pub visit_parts : V → List Part → Option (V × Bool)
    unfolding visit_part
    visit_parts v [] = some (v, true)
    visit_parts v (p ∷ ps) =
        let rest = λ (v' : V). visit_parts v' ps in
        visit_part v p >>= λ r. elim r.1 [ true ↦ rest r.0 | false ↦ some (r.0, false) ]

    -- accept( visitor ) const
    unfoldable pub accept : V → GeoShape → Option (V × Bool)
    unfolding visit_parts
    accept v s = visit_parts v s.parts

  -- ExtentVisitor::visitPoint
  unfoldable pub visit_extent : Visitor (Extent c)
  visit_extent e p =
      expand_to_include c (if not e.is_valid && is_valid_point c p then new_extent c else e) p
      >>= λ e'. some (e', true)

  -- getExtent: the shape with its cache, whose value it returns.
  unfoldable pub get_extent : GeoShape → Option GeoShape
  unfolding accept
  get_extent s =
      if s.extent_cache.is_valid
      then some s
      else (accept visit_extent (invalid c) s >>= λ r. some (record s { extent_cache = r.0 }))
