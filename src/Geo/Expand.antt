-- ===== src/Geo/Expand.antt =====
-- How an extent grows, and what two extents share (src/osgGIS/GeoExtent.cpp).
use osggis.Base.{◌≡◌, refl, ap, ◌∙◌, ◌||◌, true, false, some, arith, Bool-cases, inl, inr}
use osggis.Geo.Point.{Plane, IsPlane, Point, is_valid_point}
use osggis.Geo.Extent.{
  Extent, recalc, copy, expand_to_include, holds, lesser, greater, moved, cornered, contains,
}

module _ (c : Plane) where
  open c use {le}

  -- A valid, finite extent with valid corners in order.
  abbrev pub IsBox : Extent c → Type 0
  IsBox e =
      (e.is_valid ≡ true)
      × (e.is_infinite ≡ false)
      × (is_valid_point c e.sw ≡ true)
      × (is_valid_point c e.ne ≡ true)
      × (le e.sw.x e.ne.x ≡ true)
      × (le e.sw.y e.ne.y ≡ true)

  -- The corners of the first lie within those of the second.
  abbrev pub Within : Extent c → Extent c → Type 0
  Within e e' =
      (le e'.sw.x e.sw.x ≡ true)
      × (le e'.sw.y e.sw.y ≡ true)
      × (le e.ne.x e'.ne.x ≡ true)
      × (le e.ne.y e'.ne.y ≡ true)

  abbrev pub IsNumber : Point c → Type 0
  IsNumber p = (le p.x p.x ≡ true) × (le p.y p.y ≡ true)

module _ (c : Plane) (laws : IsPlane c) where
  open c use {le, lt, W}

  pub lesser_le :
      (a b : W)
      → le a a ≡ true
      → le b b ≡ true
      → (le (lesser c a b) a ≡ true) × (le (lesser c a b) b ≡ true)
  lesser_le a b h i = let m = laws.le_of_lt a b in let n = laws.le_of_not_lt a b h i in ground arith

  pub le_greater :
      (a b : W)
      → le a a ≡ true
      → le b b ≡ true
      → (le a (greater c a b) ≡ true) × (le b (greater c a b) ≡ true)
  le_greater a b h i =
      let m = laws.le_of_lt b a in let n = laws.le_of_not_lt b a i h in ground arith

  -- One axis of `stretch`.
  pub axis :
      (p lo hi : W)
      → le p p ≡ true
      → le lo hi ≡ true
      → (le (lesser c p lo) p ≡ true)
        × (le (lesser c p lo) lo ≡ true)
        × (le p (greater c p hi) ≡ true)
        × (le hi (greater c p hi) ≡ true)
        × (le (lesser c p lo) (greater c p hi) ≡ true)
  axis p lo hi h i =
      let (a, b) = lesser_le p lo h (laws.le_left lo hi i) in
      let (d, e) = le_greater p hi h (laws.le_right lo hi i) in
      (a, b, d, e, laws.le_trans (lesser c p lo) p (greater c p hi) a d)

  pub recalc-cornered : (e : Extent c) → IsBox c e → recalc c e ≡ cornered c e
  unfolding recalc
  recalc-cornered e h =
      let m = laws.not_lt_of_le e.sw.x e.ne.x in
      let n = laws.not_lt_of_le e.sw.y e.ne.y in ground arith

  -- A copy of what `recalc` has made is the same.
  copy-recalc : (e : Extent c) → copy c (recalc c e) ≡ recalc c e
  unfolding copy recalc
  copy-recalc e = elim (Bool-cases (lt e.ne.x e.sw.x || lt e.ne.y e.sw.y)) [
    | inl t ↦ ground arith
    | inr t ↦ ground arith
  ]

  pub moved-IsBox :
      (e : Extent c) (p : Point c)
      → IsBox c e
      → is_valid_point c p ≡ true
      → IsNumber c p
      → IsBox c (moved c e p) × Within c e (moved c e p) × (holds c (moved c e p) p ≡ true)
  unfolding holds
  moved-IsBox e p h v n =
      let (a, b, d, f, g) = axis p.x e.sw.x e.ne.x n.0 h.4 in
      let (a', b', d', f', g') = axis p.y e.sw.y e.ne.y n.1 h.5 in
      ((h.0, h.1, h.2, h.3, g, g'), (b, b', f, f'), rw (v, a, a', d, d') refl)

  pub expand_to_include_box :
      (e : Extent c) (p : Point c) (s : c.Srs)
      → IsBox c e
      → is_valid_point c p ≡ true
      → e.sw.srs ≡ some s
      → is_valid_point c (c.transform s p) ≡ true
      → expand_to_include c e p ≡ some (recalc c (moved c e (c.transform s p)))
  unfolding expand_to_include
  expand_to_include_box e p s h v i t = ground arith

  pub contains_box :
      (e : Extent c) (p : Point c) (s : c.Srs)
      → IsBox c e
      → is_valid_point c p ≡ true
      → e.sw.srs ≡ some s
      → contains c e p ≡ some (holds c e (c.transform s p))
  unfolding contains
  contains_box e p s h v i = ground arith

  -- Expanding a box to a valid point that the spatial reference of the box can transform, to
  -- coordinates that are not NaN, never faults: the result is a box around the old one that
  -- contains the point.
  pub expand_to_include-IsBox :
      (e : Extent c) (p : Point c) (s : c.Srs)
      → IsBox c e
      → is_valid_point c p ≡ true
      → e.sw.srs ≡ some s
      → is_valid_point c (c.transform s p) ≡ true
      → IsNumber c (c.transform s p)
      → (e' : Extent c) × (expand_to_include c e p ≡ some e')
        × IsBox c e'
        × Within c e e'
        × (contains c e' p ≡ some true)
  unfolding holds
  expand_to_include-IsBox e p s h v i t n =
      let q = c.transform s p in
      let (b, w, o) = moved-IsBox e q h t n in
      let e' = cornered c (moved c e q) in
      (
        e',
        expand_to_include_box e p s h v i t ∙ ap some (recalc-cornered (moved c e q) b),
        b,
        w,
        contains_box e' p s b v i ∙ ap some o,
      )
