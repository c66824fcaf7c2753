-- ===== src/Geo/Meet.antt =====
-- What two extents share (src/osgGIS/GeoExtent.cpp, getIntersection).
use osggis.Base.{◌≡◌, refl, ap, ◌∙◌, true, false, some, arith, Bool-cases, ◌⊎◌, inl, inr}
use osggis.Geo.Point.{Plane, IsPlane, Point, is_valid_point, new_point}
use osggis.Geo.Extent.{
  Extent, new_extent, recalc, cornered, of_points, of_bounds, transform_extent, intersection,
  get_intersection, apart, meet_in, get_srs, lesser, greater, invalid,
}
use osggis.Geo.Expand.{IsBox, Within, recalc-cornered, le_greater, lesser_le}

module _ (c : Plane) (laws : IsPlane c) where
  open c use {le, lt, W}

  -- One axis of `intersection`.
  meet_axis :
      (a a' b b' : W)
      → le a a' ≡ true
      → le b b' ≡ true
      → le a' b ≡ false
      → le b' a ≡ false
      → (le a (greater c a b) ≡ true)
        × (le b (greater c a b) ≡ true)
        × (le (lesser c a' b') a' ≡ true)
        × (le (lesser c a' b') b' ≡ true)
        × (le (greater c a b) (lesser c a' b') ≡ true)
  meet_axis a a' b b' h i j k =
      let ra = laws.le_left a a' h in
      let ra' = laws.le_right a a' h in
      let rb = laws.le_left b b' i in
      let rb' = laws.le_right b b' i in
      let m = laws.le_of_lt b a' (laws.lt_of_not_le a' b ra' rb j) in
      let n = laws.le_of_lt a b' (laws.lt_of_not_le b' a rb' ra k) in
      let (p, q) = le_greater c laws a b ra rb in
      let (r, s) = lesser_le c laws a' b' ra' rb' in (p, q, r, s, ground arith)

  of_bounds-IsBox :
      (xmin ymin xmax ymax : W) (s : c.Srs)
      → le xmin xmax ≡ true
      → le ymin ymax ≡ true
      → of_bounds c xmin ymin xmax ymax (some s)
        ≡ cornered c (record (new_extent c) {
          sw = new_point c xmin ymin (some s);
          ne = new_point c xmax ymax (some s);
        })
  unfolding of_bounds
  of_bounds-IsBox xmin ymin xmax ymax s h i =
      recalc-cornered c laws
        (record (new_extent c) {
          sw = new_point c xmin ymin (some s);
          ne = new_point c xmax ymax (some s);
        })
        (refl, refl, refl, refl, h, i)

  of_points_same :
      (a b : Point c) (s : c.Srs)
      → is_valid_point c a ≡ true
      → is_valid_point c b ≡ true
      → a.srs ≡ some s
      → c.transform s b ≡ b
      → of_points c a b ≡ recalc c (record (new_extent c) { sw = a; ne = b })
  unfolding of_points
  of_points_same a b s u v h i = ground arith

  transform_extent_same :
      (b : Extent c) (s : c.Srs)
      → IsBox c b
      → b.sw.srs ≡ some s
      → b.ne.srs ≡ some s
      → transform_extent c s b ≡ cornered c (record (new_extent c) { sw = b.sw; ne = b.ne })
  unfolding transform_extent
  transform_extent_same b s h i j =
      let t = laws.transform_self s b.sw h.2 i in
      let t' = laws.transform_self s b.ne h.3 j in
      let r =
        recalc-cornered c laws (record (new_extent c) { sw = b.sw; ne = b.ne })
          (refl, refl, h.2, h.3, h.4, h.5) in
      ap (λ p. of_points c p (c.transform s b.ne)) t
      ∙ ap (of_points c b.sw) t'
      ∙ of_points_same b.sw b.ne s h.2 h.3 i t'
      ∙ r

  -- The intersection of two boxes that are not apart.
  abbrev shared : Extent c → Extent c → c.Srs → Extent c
  shared a b s = cornered c (record (new_extent c) {
    sw = new_point c (greater c a.sw.x b.sw.x) (greater c a.sw.y b.sw.y) (some s);
    ne = new_point c (lesser c a.ne.x b.ne.x) (lesser c a.ne.y b.ne.y) (some s);
  })

  intersection_bounds :
      (a b : Extent c) (s : c.Srs)
      → IsBox c a
      → IsBox c b
      → a.sw.srs ≡ some s
      → apart c a b ≡ false
      → intersection c a b
        ≡ of_bounds c
            (greater c a.sw.x b.sw.x)
            (greater c a.sw.y b.sw.y)
            (lesser c a.ne.x b.ne.x)
            (lesser c a.ne.y b.ne.y)
            (some s)
  unfolding intersection
  intersection_bounds a b s h i j k = rw (intersection, k) (rw (h.0, i.0, h.2, j) refl)

  apart_sides :
      (a b : Extent c)
      → IsBox c a
      → IsBox c b
      → apart c a b ≡ false
      → (le a.ne.x b.sw.x ≡ false)
        × (le b.ne.x a.sw.x ≡ false)
        × (le a.ne.y b.sw.y ≡ false)
        × (le b.ne.y a.sw.y ≡ false)
  apart_sides a b h i k = ground arith

  meet-IsBox :
      (a b : Extent c) (s : c.Srs)
      → IsBox c a
      → IsBox c b
      → a.sw.srs ≡ some s
      → apart c a b ≡ false
      → (e : Extent c) × (intersection c a b ≡ e) × IsBox c e × Within c e a × Within c e b
  meet-IsBox a b s h i j k' =
      let (k, l, m, n) = apart_sides a b h i k' in
      let (x, x', y, y', z) = meet_axis a.sw.x a.ne.x b.sw.x b.ne.x h.4 i.4 k l in
      let (u, u', v, v', w) = meet_axis a.sw.y a.ne.y b.sw.y b.ne.y h.5 i.5 m n in
      (
        shared a b s,
        intersection_bounds a b s h i j k'
            ∙ of_bounds-IsBox (greater c a.sw.x b.sw.x) (greater c a.sw.y b.sw.y)
                (lesser c a.ne.x b.ne.x) (lesser c a.ne.y b.ne.y) s z w,
        (refl, refl, refl, refl, z, w),
        (x, u, y, v),
        (x', u', y', v'),
      )

  get_srs_box : (a : Extent c) (s : c.Srs) → IsBox c a → a.sw.srs ≡ some s → get_srs c a ≡ some s
  get_srs_box a s h j = ground arith

  get_intersection_same :
      (a b : Extent c) (s : c.Srs)
      → IsBox c a
      → a.sw.srs ≡ some s
      → get_intersection c a b ≡ some (intersection c a (transform_extent c s b))
  unfolding get_intersection
  get_intersection_same a b s h j = ap (λ o. meet_in c o a b) (get_srs_box a s h j)

  intersection-apart : (a b : Extent c) → apart c a b ≡ true → intersection c a b ≡ invalid c
  unfolding intersection
  intersection-apart a b k = rw (intersection, k) refl

  -- The intersection of two boxes of one spatial reference never faults. If they are apart it
  -- is the invalid extent; else it is a box, within both.
  pub get_intersection-Within :
      (a b : Extent c) (s : c.Srs)
      → IsBox c a
      → IsBox c b
      → a.sw.srs ≡ some s
      → b.sw.srs ≡ some s
      → b.ne.srs ≡ some s
      → (e : Extent c) × (get_intersection c a b ≡ some e)
        × (((apart c a b ≡ true) × (e ≡ invalid c))
            ⊎ ((apart c a b ≡ false) × IsBox c e × Within c e a × Within c e b))
  get_intersection-Within a b s h i j k l =
      let b' = cornered c (record (new_extent c) { sw = b.sw; ne = b.ne }) in
      let t =
        get_intersection_same a b s h j
        ∙ ap (λ e. some (intersection c a e)) (transform_extent_same b s i k l) in
      let same : apart c a b' ≡ apart c a b = rw (i.0) refl in
      let i' : IsBox c b' = (refl, refl, i.2, i.3, i.4, i.5) in
      elim (Bool-cases (apart c a b)) [
        | inl e ↦ (invalid c, t ∙ ap some (intersection-apart a b' (same ∙ e)), inl (e, refl))
        | inr e ↦
            let (m, o, p, q, r) = meet-IsBox a b' s h i' j (same ∙ e) in
            (m, t ∙ ap some o, inr (e, p, q, r))
      ]
