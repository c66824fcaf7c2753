-- ===== src/Geo/Grid.antt =====
-- A plane of whole numbers with one spatial reference, on which the theorems on extents
-- (src/osgGIS/GeoExtent.cpp) are applied.
use osggis.Base.{◌≡◌, ℕ, ◌+◌, ◌-◌, ◌*◌, ◌/◌, true, some, none, arith, ltb, leb, ◌==◌}
use osggis.Geo.Point.{Plane, IsPlane, GeoPoint, Point, new_point, is_valid_point}
use osggis.Geo.Extent.{Extent, new_extent, cornered}

abbrev pub in_srs : ℕ → GeoPoint ℕ ℕ → GeoPoint ℕ ℕ
in_srs s p = record p { srs = elim p.srs [ none ↦ none | some s' ↦ some s ] }

abbrev pub distance : ℕ → ℕ → ℕ
distance a b = (a - b) + (b - a)

abbrev pub grid : Plane
grid = record {
  W = ℕ;
  Srs = ℕ;
  zero = 0;
  minus_one = 0;
  half = 0;
  two = 2;
  epsilon = 1;
  add = λ a b. a + b;
  sub = distance;
  mul = λ a b. a * b;
  div = λ a b. a / b;
  fabs = λ a. a;
  lt = ltb;
  le = leb;
  eq = λ a b. a == b;
  equivalent = λ a b. true;
  transform = in_srs;
}

in_srs_valid :
    (s : ℕ) (p : Point grid) → is_valid_point grid (in_srs s p) ≡ true → (in_srs s p).srs ≡ some s
in_srs_valid s p h = ground arith

in_srs_self : (s : ℕ) (p : Point grid) → p.srs ≡ some s → in_srs s p ≡ p
in_srs_self s p h = ground arith

pub grid-IsPlane : IsPlane grid
grid-IsPlane = record {
  le_left = λ a b h. ground arith;
  le_right = λ a b h. ground arith;
  le_trans = λ a b d h i. ground arith;
  le_of_lt = λ a b h. ground arith;
  le_of_not_lt = λ a b h i j. ground arith;
  lt_of_not_le = λ a b h i j. ground arith;
  not_lt_of_le = λ a b h. ground arith;
  fabs-sub = λ a b. omega arith;
  transform_srs = in_srs_valid;
  transform_self = λ s p v h. in_srs_self s p h;
}

abbrev pub box : ℕ → ℕ → Extent grid
box low high = cornered grid (record (new_extent grid) {
  sw = new_point grid low low (some 1);
  ne = new_point grid high high (some 1);
})
