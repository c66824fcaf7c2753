-- ===== src/Geo/Cover.antt =====
-- The extent of a list of points (src/osgGIS/GeoExtent.cpp, expandToInclude of a GeoPointList).
use osggis.Base.{◌≡◌, refl, ap, ◌∙◌, true, some, List, [], ◌∷◌, All, arith}
use osggis.Geo.Point.{Plane, IsPlane, Point, is_valid_point}
use osggis.Geo.Extent.{
  Extent, new_extent, recalc, cornered, moved, holds, contains, expand_to_include,
  expand_to_include_all,
}
use osggis.Geo.Expand.{
  IsBox, Within, IsNumber, axis, moved-IsBox, recalc-cornered, expand_to_include_box, contains_box,
}

module _ (c : Plane) (s : c.Srs) where
  open c use {le}

  -- A valid point of the spatial reference, with coordinates that are not NaN.
  abbrev pub IsPlain : Point c → Type 0
  IsPlain p = (is_valid_point c p ≡ true) × (p.srs ≡ some s) × IsNumber c p

  abbrev pub Inside : Extent c → Point c → Type 0
  Inside e p =
      (le e.sw.x p.x ≡ true)
      × (le p.x e.ne.x ≡ true)
      × (le e.sw.y p.y ≡ true)
      × (le p.y e.ne.y ≡ true)

  -- A box of the spatial reference around an extent.
  abbrev pub IsHull : Extent c → Extent c → Type 0
  IsHull e e' = IsBox c e' × (e'.sw.srs ≡ some s) × Within c e e'

  module _ (laws : IsPlane c) where
    Inside-Within : (e e' : Extent c) (p : Point c) → Within c e e' → Inside e p → Inside e' p
    Inside-Within e e' p w i = (
      laws.le_trans e'.sw.x e.sw.x p.x w.0 i.0,
      laws.le_trans p.x e.ne.x e'.ne.x i.1 w.2,
      laws.le_trans e'.sw.y e.sw.y p.y w.1 i.2,
      laws.le_trans p.y e.ne.y e'.ne.y i.3 w.3,
    )

    Within-trans : (a b d : Extent c) → Within c a b → Within c b d → Within c a d
    Within-trans a b d v w = (
      laws.le_trans d.sw.x b.sw.x a.sw.x w.0 v.0,
      laws.le_trans d.sw.y b.sw.y a.sw.y w.1 v.1,
      laws.le_trans a.ne.x b.ne.x d.ne.x v.2 w.2,
      laws.le_trans a.ne.y b.ne.y d.ne.y v.3 w.3,
    )

    Within-refl : (e : Extent c) → IsBox c e → Within c e e
    Within-refl e h = (
      laws.le_left e.sw.x e.ne.x h.4,
      laws.le_left e.sw.y e.ne.y h.5,
      laws.le_right e.sw.x e.ne.x h.4,
      laws.le_right e.sw.y e.ne.y h.5,
    )

    contains-Inside :
        (e : Extent c) (p : Point c)
        → IsBox c e
        → e.sw.srs ≡ some s
        → IsPlain p
        → Inside e p
        → contains c e p ≡ some true
    unfolding holds
    contains-Inside e p h i (v, j, n) k =
        contains_box c laws e p s h v i
        ∙ ap (λ q. some (holds c e q)) (laws.transform_self s p v j)
        ∙ ap some (rw (holds, v, k.0, k.1, k.2, k.3) refl)

    pub expand-Inside :
        (e : Extent c) (p : Point c)
        → IsBox c e
        → e.sw.srs ≡ some s
        → IsPlain p
        → (e' : Extent c) × (expand_to_include c e p ≡ some e') × IsHull e e' × Inside e' p
    expand-Inside e p h i (v, j, n) =
        let t = laws.transform_self s p v j in
        let (b, w, o) = moved-IsBox c laws e p h v n in
        let x = axis c laws p.x e.sw.x e.ne.x n.0 h.4 in
        let y = axis c laws p.y e.sw.y e.ne.y n.1 h.5 in
        (
          cornered c (moved c e p),
          expand_to_include_box c laws e p s h v i (ap (is_valid_point c) t ∙ v)
              ∙ ap (λ q. some (recalc c (moved c e q))) t
              ∙ ap some (recalc-cornered c laws (moved c e p) b),
          (b, i, w),
          (x.0, x.2, y.0, y.2),
        )

    each-Inside :
        (ps : List (Point c)) (e : Extent c)
        → IsBox c e
        → e.sw.srs ≡ some s
        → All IsPlain ps
        → (e' : Extent c) × (expand_to_include_all c e ps ≡ some e')
          × IsHull e e'
          × All (λ p. contains c e' p ≡ some true) ps
    unfolding expand_to_include_all
    each-Inside [] e h i q = (e, refl, (h, i, Within-refl e h), tt)
    each-Inside (p ∷ ps) e h i q =
        let (e1, o1, (h1, i1, w1), k1) = expand-Inside e p h i q.0 in
        let (e2, o2, (h2, i2, w2), k2) = each-Inside ps e1 h1 i1 q.1 in
        (
          e2,
          rw (o1, o2) refl,
          (h2, i2, Within-trans e e1 e2 w1 w2),
          (contains-Inside e2 p h2 i2 q.0 (Inside-Within e1 e2 p w2 k1), k2),
        )

    pub expand_to_include_new :
        (p : Point c)
        → is_valid_point c p ≡ true
        → expand_to_include c (new_extent c) p
          ≡ some (recalc c (record (new_extent c) { ne = p; sw = p }))
    unfolding expand_to_include
    expand_to_include_new p v = ground arith

    -- A default-constructed extent becomes a point with the first point.
    pub expand_new :
        (p : Point c)
        → IsPlain p
        → (e : Extent c) × (expand_to_include c (new_extent c) p ≡ some e)
          × IsBox c e
          × (e.sw.srs ≡ some s)
          × Inside e p
    expand_new p (v, j, n) =
        let e : Extent c = record (new_extent c) { ne = p; sw = p } in
        let h : IsBox c e = (refl, refl, v, v, n.0, n.1) in
        (
          cornered c e,
          expand_to_include_new p v ∙ ap some (recalc-cornered c laws e h),
          h,
          j,
          (n.0, n.0, n.1, n.1),
        )

    -- Expanding a default-constructed extent to a nonempty list of valid points of one spatial
    -- reference, with coordinates that are not NaN, never faults: it gives a box that contains
    -- every point.
    pub expand_to_include_all-contains :
        (p : Point c) (ps : List (Point c))
        → All IsPlain (p ∷ ps)
        → (e : Extent c) × (expand_to_include_all c (new_extent c) (p ∷ ps) ≡ some e)
          × IsBox c e
          × All (λ q. contains c e q ≡ some true) (p ∷ ps)
    unfolding expand_to_include_all
    expand_to_include_all-contains p ps q =
        let (e1, o1, h1, i1, k1) = expand_new p q.0 in
        let (e2, o2, (h2, i2, w2), k2) = each-Inside ps e1 h1 i1 q.1 in
        (
          e2,
          rw (o1, o2) refl,
          h2,
          (contains-Inside e2 p h2 i2 q.0 (Inside-Within e1 e2 p w2 k1), k2),
        )
