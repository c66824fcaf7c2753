-- ===== src/Index/OfExtents.antt =====
-- The boxes of the spatial index: the extents in one spatial reference (src/osgGIS/GeoExtent.cpp, as
-- RTree.cpp.inline calls it).
use mathlib.Core.Path.{subst}
use osggis.Base.{
  ◌≡◌, refl, sym, ap, ◌∙◌, Bool, true, false, Option, none, some, arith, Bool-cases, inl, inr,
  if◌then◌else◌, not, ◌&&◌, ◌||◌, ◌>>=◌,
}
use osggis.Geo.Point.{Plane, IsPlane, Point, is_valid_point}
use osggis.Geo.Extent.{
  Extent, new_extent, invalid, recalc, cornered, moved, expand, expand_to_include,
  expand_to_include_extent, get_area, intersects, overlaps, is_empty,
}
use osggis.Geo.Expand.{
  IsBox, Within, IsNumber, axis, moved-IsBox, recalc-cornered, expand_to_include_box,
}
use osggis.Geo.Cover.{expand_to_include_new}
use osggis.Index.Boxes.{Boxes, IsBoxes}

-- The constants and the test that the spatial index takes from `double`.
pub record Areas (c : Plane) : Type 0 where
  -- 0.0001
  pub margin : c.W
  -- DBL_MAX
  pub max_area : c.W

module _ (c : Plane) where
  -- A call through a NULL spatial reference stands as no change; between boxes there is none.
  abbrev or_else : Extent c → Option (Extent c) → Extent c
  or_else e none = e
  or_else e (some r) = r

  unfoldable pub include : Extent c → Extent c → Extent c
  unfolding expand_to_include_extent
  include e f = or_else e (expand_to_include_extent c e f)

  abbrev or_false : Option Bool → Bool
  or_false none = false
  or_false (some r) = r

  unfoldable pub meets : Extent c → Extent c → Bool
  unfolding intersects
  meets e q = or_false (intersects c e q)

  -- A box of a spatial reference.
  abbrev pub IsBoxOf : c.Srs → Extent c → Type 0
  IsBoxOf s e = IsBox c e × (e.sw.srs ≡ some s) × (e.ne.srs ≡ some s)

  abbrev pub extent_boxes : c.Srs → Areas c → Boxes
  extent_boxes s k = record {
    Box = Extent c;
    Area = c.W;
    nothing = new_extent c;
    invalid = invalid c;
    include = include;
    is_valid = λ e. e.is_valid;
    is_infinite = λ e. e.is_infinite;
    area = get_area c;
    intersects = meets;
    inflate = expand c k.margin k.margin;
    minus = c.sub;
    less = c.lt;
    is_zero = λ a. c.eq a c.zero;
    minus_one = c.minus_one;
    max_area = k.max_area;
    IsBox = IsBoxOf s;
    Within = Within c;
  }

module _ (c : Plane) (laws : IsPlane c) (s : c.Srs) where
  open c use {le, lt}

  Within-trans : (x y z : Extent c) → Within c x y → Within c y z → Within c x z
  Within-trans x y z v w = (
    laws.le_trans z.sw.x y.sw.x x.sw.x w.0 v.0,
    laws.le_trans z.sw.y y.sw.y x.sw.y w.1 v.1,
    laws.le_trans x.ne.x y.ne.x z.ne.x v.2 w.2,
    laws.le_trans x.ne.y y.ne.y z.ne.y v.3 w.3,
  )

  Within-refl : (e : Extent c) → IsBoxOf c s e → Within c e e
  Within-refl e (h, _, _) = (
    laws.le_left e.sw.x e.ne.x h.4,
    laws.le_left e.sw.y e.ne.y h.5,
    laws.le_right e.sw.x e.ne.x h.4,
    laws.le_right e.sw.y e.ne.y h.5,
  )

  -- A corner of a box of the spatial reference.
  abbrev IsCorner : Point c → Type 0
  IsCorner p = (is_valid_point c p ≡ true) × (p.srs ≡ some s) × IsNumber c p

  sw-IsCorner : (f : Extent c) → IsBoxOf c s f → IsCorner f.sw
  sw-IsCorner f (h, i, _) =
      (h.2, i, (laws.le_left f.sw.x f.ne.x h.4, laws.le_left f.sw.y f.ne.y h.5))

  ne-IsCorner : (f : Extent c) → IsBoxOf c s f → IsCorner f.ne
  ne-IsCorner f (h, _, j) =
      (h.3, j, (laws.le_right f.sw.x f.ne.x h.4, laws.le_right f.sw.y f.ne.y h.5))

  abbrev grown : Extent c → Point c → Extent c
  grown e p = cornered c (moved c e p)

  abbrev IsGrown : Extent c → Point c → Type 0
  IsGrown e p =
      (expand_to_include c e p ≡ some (grown e p))
      × IsBoxOf c s (grown e p)
      × Within c e (grown e p)
      × (le (grown e p).sw.x p.x ≡ true)
      × (le (grown e p).sw.y p.y ≡ true)
      × (le p.x (grown e p).ne.x ≡ true)
      × (le p.y (grown e p).ne.y ≡ true)

  grow : (e : Extent c) (p : Point c) → IsBoxOf c s e → IsCorner p → IsGrown e p
  grow e p (h, i, j) (v, k, n) =
      let t = laws.transform_self s p v k in
      let (box, w, _) = moved-IsBox c laws e p h v n in
      let x = axis c laws p.x e.sw.x e.ne.x n.0 h.4 in
      let y = axis c laws p.y e.sw.y e.ne.y n.1 h.5 in
      (
        expand_to_include_box c laws e p s h v i (ap (is_valid_point c) t ∙ v)
            ∙ ap (λ q. some (recalc c (moved c e q))) t
            ∙ ap some (recalc-cornered c laws (moved c e p) box),
        (box, i, j),
        w,
        x.0,
        y.0,
        x.2,
        y.2,
      )

  -- A box of the spatial reference takes in another, by its corners.
  abbrev both : Extent c → Extent c → Extent c
  both e f = grown (grown e f.sw) f.ne

  expand_corners :
      (e f : Extent c)
      → IsBoxOf c s f
      → e.is_infinite ≡ false
      → expand_to_include_extent c e f
        ≡ (expand_to_include c e f.sw >>= λ g. expand_to_include c g f.ne)
  unfolding expand_to_include_extent
  expand_corners e f (h, _, _) i =
      let rest = expand_to_include c e f.sw >>= λ g. expand_to_include c g f.ne in
      let flagged : Extent c = record e { is_infinite = true } in
      let t : (f.is_valid && not (is_empty c f) && not e.is_infinite) ≡ true = ground arith in
      ap (λ z. if z then (if f.is_infinite then some flagged else rest) else some e) t
      ∙ ap (λ z. if z then some flagged else rest) h.1

  include_corners :
      (e f : Extent c)
      → IsBoxOf c s f
      → e.is_infinite ≡ false
      → include c e f ≡ or_else c e (expand_to_include c e f.sw >>= λ g. expand_to_include c g f.ne)
  unfolding include
  include_corners e f h i = ap (or_else c e) (expand_corners e f h i)

  include_parts :
      (e f g r : Extent c)
      → IsBoxOf c s f
      → e.is_infinite ≡ false
      → expand_to_include c e f.sw ≡ some g
      → expand_to_include c g f.ne ≡ some r
      → include c e f ≡ r
  include_parts e f g r h i j k = include_corners e f h i ∙ rw (j, ◌>>=◌, k) refl

  abbrev IsAround : Extent c → Extent c → Type 0
  IsAround e f = IsBoxOf c s e × Within c f e

  include_from :
      (e f g : Extent c)
      → IsBoxOf c s f
      → e.is_infinite ≡ false
      → expand_to_include c e f.sw ≡ some g
      → IsBoxOf c s g
      → le g.sw.x f.sw.x ≡ true
      → le g.sw.y f.sw.y ≡ true
      → IsAround (include c e f) f × Within c g (include c e f)
  include_from e f g h i j k x y =
      let (step, box, w, x', y', u, v) = grow g f.ne k (ne-IsCorner f h) in
      let eq = include_parts e f g (grown g f.ne) h i j step in
      subst (λ z. IsAround z f × Within c g z) (sym eq)
        (
          (
            box,
            (
              laws.le_trans (grown g f.ne).sw.x g.sw.x f.sw.x w.0 x,
              laws.le_trans (grown g f.ne).sw.y g.sw.y f.sw.y w.1 y,
              u,
              v,
            ),
          ),
          w,
        )

  -- The first box of an extent that has none.
  include_first : (f : Extent c) → IsBoxOf c s f → IsAround (include c (new_extent c) f) f
  include_first f h =
      let (v, k, n) = sw-IsCorner f h in
      let e : Extent c = record (new_extent c) { ne = f.sw; sw = f.sw } in
      let point : IsBox c e = (refl, refl, v, v, n.0, n.1) in
      (include_from (new_extent c) f (cornered c e) h refl
        (expand_to_include_new c s laws f.sw v ∙ ap some (recalc-cornered c laws e point))
        (point, k, k) n.0 n.1).0

  include_next :
      (e f : Extent c)
      → IsBoxOf c s e
      → IsBoxOf c s f
      → IsAround (include c e f) f × Within c e (include c e f)
  include_next e f h k =
      let (step, box, w, x, y, _, _) = grow e f.sw h (sw-IsCorner f k) in
      let (around, w') = include_from e f (grown e f.sw) k h.0.1 step box x y in
      (around, Within-trans e (grown e f.sw) (include c e f) w w')

  -- What meets an extent meets each extent around it.
  lt_above : (x y a : c.W) → le x y ≡ true → lt y a ≡ true → lt x a ≡ true
  lt_above x y a h k = elim (Bool-cases (lt x a)) [
    | inl e ↦ e
    | inr e ↦
        let number = laws.le_right y a (laws.le_of_lt y a k) in
        let le_x = laws.le_of_not_lt x a (laws.le_left x y h) number e in
        let no = laws.not_lt_of_le a y (laws.le_trans a x y le_x h) in absurd (cc)
  ]

  lt_below : (x y a : c.W) → le y x ≡ true → lt a y ≡ true → lt a x ≡ true
  lt_below x y a h k = elim (Bool-cases (lt a x)) [
    | inl e ↦ e
    | inr e ↦
        let number = laws.le_left a y (laws.le_of_lt a y k) in
        let le_x = laws.le_of_not_lt a x number (laws.le_right y x h) e in
        let no = laws.not_lt_of_le y a (laws.le_trans y x a h le_x) in absurd (cc)
  ]

  overlaps_mono :
      (x y : Extent c) (a d : Point c)
      → Within c x y
      → overlaps c x a d ≡ true
      → overlaps c y a d ≡ true
  unfolding overlaps
  overlaps_mono x y a d w h =
      let p = lt_above x.ne.x y.ne.x a.x w.2 in
      let q = lt_below x.sw.x y.sw.x d.x w.0 in
      let r = lt_above x.ne.y y.ne.y a.y w.3 in
      let t = lt_below x.sw.y y.sw.y d.y w.1 in ground arith

  -- A query in terms of the corners that the spatial reference gives it.
  abbrev meets_at : Extent c → Extent c → Bool
  meets_at e q =
      if not q.is_valid || is_empty c q
      then false
      else (if q.is_infinite then true else overlaps c e (c.transform s q.sw) (c.transform s q.ne))

  meets_lem : (e q : Extent c) → IsBoxOf c s e → meets c e q ≡ meets_at e q
  unfolding meets
  meets_lem e q (h, i, _) = ground arith

  meets_mono :
      (x y q : Extent c)
      → IsBoxOf c s x
      → IsBoxOf c s y
      → Within c x y
      → meets c x q ≡ true
      → meets c y q ≡ true
  meets_mono x y q h k w m =
      let p = meets_lem x q h in
      let r = meets_lem y q k in
      let t = overlaps_mono x y (c.transform s q.sw) (c.transform s q.ne) w in ground arith

  -- The valid, finite extents of one spatial reference satisfy the laws of the boxes of a spatial
  -- index: expandToInclude of a box takes in both, and a query that intersects a box intersects each
  -- box around it.
  pub extent_boxes-IsBoxes : (k : Areas c) → IsBoxes (extent_boxes c s k)
  extent_boxes-IsBoxes k = record {
    Within_refl = Within-refl;
    Within_trans = Within-trans;
    include_first = λ x h. (include_first x h).0;
    Within_first = λ x h. (include_first x h).1;
    include-IsBox = λ x y h k. (include_next x y h k).0.0;
    Within_left = λ x y h k. (include_next x y h k).1;
    Within_right = λ x y h k. (include_next x y h k).0.1;
    intersects_mono = meets_mono;
  }
