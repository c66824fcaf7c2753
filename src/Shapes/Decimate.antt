-- ===== src/Shapes/Decimate.antt =====
-- What DecimateFilter and RemoveHolesFilter leave of the parts of a shape
-- (src/osgGIS/DecimateFilter.cpp, RemoveHolesFilter.cpp).
use mathlib.Core.Path.{subst}
use osggis.Base.{
  ℕ, ◌≤◌, ◌<◌, ◌≡◌, ◌↔◌, refl, sym, ap, ◌∙◌, true, false, ◌&&◌, none, some, List, [], ◌∷◌, length,
  leb, ltb, map, is_nonempty, All, All-append, In, arith, Bool-cases, inl, inr, if◌then◌else◌,
}
use osggis.Geo.Point.{Plane, Point}
use osggis.Geo.Extent.{invalid}
use osggis.Shapes.Shape.{Part, GeoShape, update_parts}
use osggis.Shapes.Polygon.{Vectors, is_polygon_ccw}
use osggis.Shapes.Parts.{
  decimate_from, decimated, decimate_part, min_points_of, decimate_parts, decimate_shapes, decimate,
  outer_parts, remove_holes, is_polygon,
}

module _ (c : Plane) (v : Vectors c) where
  open c use {W, mul, lt}

  -- The points of a list without some of them.
  pub data IsThinned : Part c → Part c → Type 0 where
    thinned_nil : IsThinned [] []
    thinned_keep : (p : Point c) (ps qs : Part c) → IsThinned ps qs → IsThinned (p ∷ ps) (p ∷ qs)
    thinned_skip : (p : Point c) (ps qs : Part c) → IsThinned ps qs → IsThinned ps (p ∷ qs)

  -- Each point is farther from the one before it than the threshold.
  abbrev pub IsSpaced : W → Point c → Part c → Type 0
  IsSpaced t2 last [] = Unit {0}
  IsSpaced t2 last (p ∷ ps) = (lt t2 (v.length2 p last) ≡ true) × IsSpaced t2 p ps

  decimate_from-IsSpaced :
      (t2 : W) (last : Point c) (ps : Part c)
      → IsSpaced t2 last (decimate_from c v t2 last ps)
        × IsThinned (decimate_from c v t2 last ps) ps
  unfolding decimate_from
  decimate_from-IsSpaced t2 last [] = (tt, thinned_nil)
  decimate_from-IsSpaced t2 last (p ∷ ps) = elim (Bool-cases (lt t2 (v.length2 p last))) [
    | inl t ↦
        let (s, i) = decimate_from-IsSpaced t2 p ps in
        rw (t, decimate_from) ((t, s), thinned_keep p (decimate_from c v t2 p ps) ps i)
    | inr t ↦
        let (s, i) = decimate_from-IsSpaced t2 last ps in
        rw (t, decimate_from) (s, thinned_skip p (decimate_from c v t2 last ps) ps i)
  ]

  abbrev pub IsSpacedPart : W → Part c → Type 0
  IsSpacedPart t2 [] = Unit {0}
  IsSpacedPart t2 (p ∷ ps) = IsSpaced t2 p ps

  -- A part made of some part of the input.
  abbrev pub IsDecimated : W → ℕ → List (Part c) → Part c → Type 0
  IsDecimated threshold k input part =
      (k ≤ length part)
      × IsSpacedPart (mul threshold threshold) part
      × (from : Part c) × In from input
      × IsThinned part from

  decimated-IsSpaced :
      (t2 : W) (ps : Part c)
      → IsSpacedPart t2 (decimated c v t2 ps) × IsThinned (decimated c v t2 ps) ps
  decimated-IsSpaced t2 [] = (tt, thinned_nil)
  decimated-IsSpaced t2 (p ∷ ps) =
      let (s, i) = decimate_from-IsSpaced t2 p ps in
      (s, thinned_keep p (decimate_from c v t2 p ps) ps i)

  decimate_part-All :
      (threshold : W) (k : ℕ) (p : Part c) (input output : List (Part c))
      → In p input
      → All (IsDecimated threshold k input) output
      → All (IsDecimated threshold k input) (decimate_part c v threshold k p output)
  unfolding decimate_part
  decimate_part-All threshold k p input output i h =
      let part = decimated c v (mul threshold threshold) p in
      elim (Bool-cases (leb k (length p) && leb k (length part))) [
        | inl t ↦
            let (s, j) = decimated-IsSpaced (mul threshold threshold) p in
            rw t (
              All-append (IsDecimated threshold k input) output (part ∷ []) h
                ((ground arith, s, p, i, j), tt))
        | inr t ↦ rw t h
      ]

  decimate_parts-All :
      (threshold : W) (k : ℕ) (ps input output : List (Part c))
      → ((p : Part c) → In p ps → In p input)
      → All (IsDecimated threshold k input) output
      → All (IsDecimated threshold k input) (decimate_parts c v threshold k ps output)
  unfolding decimate_parts
  decimate_parts-All threshold k [] input output i h = h
  decimate_parts-All threshold k (p ∷ ps) input output i h =
      decimate_parts-All threshold k ps input (decimate_part c v threshold k p output)
        (λ q j. i q (inr j)) (decimate_part-All threshold k p input output (i p (inl refl)) h)

  -- Each part that the decimation of the parts of a shape leaves has the least number of points, comes
  -- from a part of the shape by dropping points, and each of its points is farther from the one before
  -- than the threshold.
  pub decimate_parts-IsDecimated :
      (threshold : W) (k : ℕ) (ps : List (Part c))
      → All (IsDecimated threshold k ps) (decimate_parts c v threshold k ps [])
  decimate_parts-IsDecimated threshold k ps = decimate_parts-All threshold k ps ps [] (λ p i. i) tt

  few_points :
      (threshold : W) (k : ℕ) (ps output : List (Part c))
      → All (λ (p : Part c). length p < k) ps
      → decimate_parts c v threshold k ps output ≡ output
  unfolding decimate_parts decimate_part
  few_points threshold k [] output h = refl
  few_points threshold k (p ∷ ps) output h =
      let t : leb k (length p) ≡ false = ground (arith, h.0) in
      rw (t) (few_points threshold k ps output h.1)

  -- A shape with parts, none of which has enough points.
  abbrev pub IsShort : GeoShape c → Type 0
  IsShort s =
      (is_nonempty s.parts ≡ true)
      × All (λ (p : Part c). length p < min_points_of c s.shape_type) s.parts

  abbrev pub emptied : GeoShape c → GeoShape c
  emptied s = record s { parts = []; extent_cache = invalid c }

  shape_rest :
      (s : GeoShape c) (rest : List (GeoShape c)) (ps : List (Part c))
      → ps ≡ []
      → update_parts c (λ _. ps) s ∷ rest ≡ emptied s ∷ rest
  unfolding update_parts
  shape_rest s rest ps h =
      ap (λ (z : List (Part c)). record s { parts = z; extent_cache = invalid c } ∷ rest) h

  decimate_shapes-emptied :
      (threshold : W) (ss : List (GeoShape c))
      → All IsShort ss
      → decimate_shapes c v threshold ss ≡ map emptied ss
  unfolding decimate_shapes
  decimate_shapes-emptied threshold [] h = refl
  decimate_shapes-emptied threshold (s ∷ ss) h =
      let rest = decimate_shapes c v threshold ss in
      let short = few_points threshold (min_points_of c s.shape_type) s.parts [] h.0.1 in
      ap
        (λ b.
          if b
          then update_parts c
              (λ ps. decimate_parts c v threshold (min_points_of c s.shape_type) s.parts []) s
            ∷ rest
          else rest)
        h.0.0
      ∙ shape_rest s rest (decimate_parts c v threshold (min_points_of c s.shape_type) s.parts [])
          short
      ∙ ap (λ r. emptied s ∷ r) (decimate_shapes-emptied threshold ss h.1)

  -- A feature with shapes, each of which has parts and none with enough points, is not dropped: it is
  -- output with all its shapes, which have no parts left.
  pub decimate-emptied :
      (threshold : W) (s : GeoShape c) (ss : List (GeoShape c))
      → All IsShort (s ∷ ss)
      → decimate c v threshold (s ∷ ss) ≡ some (map emptied (s ∷ ss))
  unfolding decimate
  decimate-emptied threshold s ss h =
      ap (λ (r : List (GeoShape c)). if is_nonempty r then some r else none)
        (decimate_shapes-emptied threshold (s ∷ ss) h)

module _ (c : Plane) where
  outer_parts_iff :
      (ps : List (Part c)) (p : Part c)
      → In p (outer_parts c ps) ↔ (In p ps × ((ltb 2 (length p) && is_polygon_ccw c p) ≡ true))
  unfolding outer_parts
  outer_parts_iff [] p = (λ i. elim i [ ], λ i. elim i.0 [ ])
  outer_parts_iff (q ∷ qs) p =
      let (to, from) = outer_parts_iff qs p in
      let test = λ (r : Part c). ltb 2 (length r) && is_polygon_ccw c r in
      elim (Bool-cases (ltb 2 (length q) && is_polygon_ccw c q)) [
        | inl t ↦
            rw (t, outer_parts)
              (
                λ i. elim i [
                  | inl e ↦ (inl e, ap test e ∙ t)
                  | inr j ↦ let (k, u) = to j in (inr k, u)
                ],
                λ i. elim i.0 [ inl e ↦ inl e | inr j ↦ inr (from (j, i.1)) ],
              )
        | inr t ↦
            rw (t, outer_parts)
              (
                λ i. let (k, u) = to i in (inr k, u),
                λ i. elim i.0 [
                  | inl e ↦ let no = sym (ap test e ∙ t) ∙ i.1 in absurd (cc)
                  | inr j ↦ from (j, i.1)
                ],
              )
      ]

  -- In a polygon RemoveHolesFilter keeps exactly the parts with more than two points whose signed area
  -- is not negative.
  pub remove_holes_iff :
      (s : GeoShape c) (p : Part c)
      → is_polygon c s.shape_type ≡ true
      → In p (remove_holes c s).parts
        ↔ (In p s.parts × (2 < length p) × (is_polygon_ccw c p ≡ true))
  unfolding remove_holes
  remove_holes_iff s p h =
      let (to, from) = outer_parts_iff s.parts p in
      let e : (remove_holes c s).parts ≡ outer_parts c s.parts = rw (remove_holes, h) refl in
      (
        λ i. let (j, t) = to (subst (In p) e i) in (j, ground arith, ground arith),
        λ (j, l, t). subst (In p) (sym e) (from (j, ground arith)),
      )
