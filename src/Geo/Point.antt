-- ===== src/Geo/Point.antt =====
-- GeoPoint (src/osgGIS/GeoPoint, src/osgGIS/GeoPoint.cpp) and what the code uses of `double` and of
-- a spatial reference.
use osggis.Base.{ℕ, ◌≡◌, Bool, true, false, ◌&&◌, ◌||◌, Option, none, some, ltb, ◌==◌}

pub record GeoPoint (W Srs : Type 0) : Type 0 where
  pub x : W
  pub y : W
  pub z : W
  pub dim : ℕ
  pub srs : Option Srs

-- The operations on `double`, and SpatialReference::transform of a point, which is virtual.
pub record Plane : Type 1 where
  pub W : Type 0
  pub Srs : Type 0
  pub zero : W
  pub minus_one : W
  pub half : W
  pub two : W
  pub epsilon : W
  pub add : W → W → W
  pub sub : W → W → W
  pub mul : W → W → W
  pub div : W → W → W
  pub fabs : W → W
  pub lt : W → W → Bool
  pub le : W → W → Bool
  pub eq : W → W → Bool
  pub equivalent : Option Srs → Option Srs → Bool
  pub transform : Srs → GeoPoint W Srs → GeoPoint W Srs

module _ (c : Plane) where
  open c use {W, Srs, zero, eq, equivalent}

  abbrev pub Point : Type 0
  Point = GeoPoint W Srs

  -- GeoPoint(), whose coordinates are those of osg::Vec3d().
  abbrev pub invalid_point : Point
  invalid_point = record { x = zero; y = zero; z = zero; dim = 0; srs = none }

  -- GeoPoint( x, y, srs )
  abbrev pub new_point : W → W → Option Srs → Point
  new_point x y srs = record { x = x; y = y; z = zero; dim = 2; srs = srs }

  abbrev pub has_srs : Option Srs → Bool
  has_srs none = false
  has_srs (some s) = true

  abbrev pub is_valid_point : Point → Bool
  is_valid_point p = ltb 0 p.dim && has_srs p.srs

  unfoldable pub point_eq : Point → Point → Bool
  point_eq p q =
      is_valid_point p
      && is_valid_point q
      && equivalent p.srs q.srs
      && (p.dim == q.dim)
      && eq p.x q.x
      && (ltb p.dim 2 || eq p.y q.y)
      && (ltb p.dim 3 || eq p.z q.z)

-- The order of the doubles that are not NaN (`le a a`), and what SpatialReference::transform
-- documents: a point in this reference, or an invalid one; a point that is in it already stays.
pub record IsPlane (c : Plane) : Type 0 where
  pub le_left : (a b : c.W) → c.le a b ≡ true → c.le a a ≡ true
  pub le_right : (a b : c.W) → c.le a b ≡ true → c.le b b ≡ true
  pub le_trans : (a b d : c.W) → c.le a b ≡ true → c.le b d ≡ true → c.le a d ≡ true
  pub le_of_lt : (a b : c.W) → c.lt a b ≡ true → c.le a b ≡ true
  pub le_of_not_lt :
      (a b : c.W) → c.le a a ≡ true → c.le b b ≡ true → c.lt a b ≡ false → c.le b a ≡ true
  pub lt_of_not_le :
      (a b : c.W) → c.le a a ≡ true → c.le b b ≡ true → c.le a b ≡ false → c.lt b a ≡ true
  pub not_lt_of_le : (a b : c.W) → c.le a b ≡ true → c.lt b a ≡ false
  pub fabs-sub : (a b : c.W) → c.fabs (c.sub a b) ≡ c.fabs (c.sub b a)
  pub transform_srs :
      (s : c.Srs) (p : Point c)
      → is_valid_point c (c.transform s p) ≡ true
      → (c.transform s p).srs ≡ some s
  pub transform_self :
      (s : c.Srs) (p : Point c) → is_valid_point c p ≡ true → p.srs ≡ some s → c.transform s p ≡ p
