-- ===== src/Geo/Relate.antt =====
-- The tests of an extent (src/osgGIS/GeoExtent.cpp) compared with each other.
use osggis.Base.{◌≡◌, refl, sym, ap, true, false, Option, none, some, arith, ◌>>=◌}
use osggis.Geo.Point.{Plane, IsPlane, Point, is_valid_point}
use osggis.Geo.Extent.{
  Extent, new_extent, touches, holds, contains, intersects_point, intersects, is_empty, reproject,
}

module _ (c : Plane) where
  -- On a default-constructed extent `intersects` of a valid point is false, but `contains` calls
  -- through a NULL spatial reference.
  pub contains-fault :
      (p : Point c)
      → is_valid_point c p ≡ true
      → (contains c (new_extent c) p ≡ none) × (intersects_point c (new_extent c) p ≡ some false)
  unfolding contains intersects_point
  contains-fault p h = ground arith

module _ (c : Plane) (laws : IsPlane c) where
  touches-holds : (e : Extent c) (p : Point c) → touches c e p ≡ holds c e p
  unfolding touches holds
  touches-holds e p =
      let h = laws.fabs-sub e.sw.x p.x in
      let h' = laws.fabs-sub e.sw.y p.y in rw (touches, h, h') refl

  reproject-touches :
      (e : Extent c) (s : Option c.Srs) (p : Point c)
      → (reproject c s p >>= λ p. some (holds c e p))
        ≡ (reproject c s p >>= λ p. some (touches c e p))
  reproject-touches e none p = refl
  reproject-touches e (some s) p = ap some (sym (touches-holds e (c.transform s p)))

  -- For an extent that is not empty, `contains` and `intersects` of a point give the same answer.
  pub contains-intersects_point :
      (e : Extent c) (p : Point c) → is_empty c e ≡ false → contains c e p ≡ intersects_point c e p
  unfolding contains intersects_point
  contains-intersects_point e p h = let k = reproject-touches e e.sw.srs p in ground arith

  reproject_same :
      (s : Option c.Srs) (p : Point c)
      → is_valid_point c p ≡ true
      → p.srs ≡ s
      → reproject c s p ≡ some p
  reproject_same none p v h = ground arith
  reproject_same (some s) p v h = ap some (laws.transform_self s p v h)

  -- Two extents whose corners all have one spatial reference intersect in either order alike.
  pub intersects_comm :
      (a b : Extent c)
      → a.sw.srs ≡ b.sw.srs
      → a.ne.srs ≡ a.sw.srs
      → b.ne.srs ≡ b.sw.srs
      → intersects c a b ≡ intersects c b a
  unfolding intersects
  intersects_comm a b h i j =
      let t = reproject_same a.sw.srs b.sw in
      let t' = reproject_same a.sw.srs b.ne in
      let u = reproject_same b.sw.srs a.sw in let u' = reproject_same b.sw.srs a.ne in ground arith
