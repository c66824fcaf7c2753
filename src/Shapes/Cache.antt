-- ===== src/Shapes/Cache.antt =====
-- Visits of the points of a shape, and its cached extent (src/osgGIS/GeoShape.cpp).
use mathlib.Core.Path.{subst}
use osggis.Base.{
  ◌≡◌, refl, sym, ap, ◌∙◌, Bool, true, false, Option, some, List, [], ◌∷◌, ◌++◌, All, Bool-cases,
  Option-cases, inl, inr, not, ◌&&◌, some-inj, ◌>>=◌, if◌then◌else◌,
}
use osggis.Geo.Point.{Plane, IsPlane, Point, is_valid_point}
use osggis.Geo.Extent.{
  Extent, invalid, new_extent, contains, expand_to_include, expand_to_include_all,
}
use osggis.Geo.Expand.{IsBox}
use osggis.Geo.Cover.{IsPlain, expand-Inside, expand_new, expand_to_include_all-contains}
use osggis.Shapes.Shape.{
  Part, GeoShape, Visitor, visit_part, visit_parts, accept, visit_extent, get_extent,
}

module _ (c : Plane) where
  -- All points of the parts, in order.
  abbrev pub points : List (Part c) → Part c
  points [] = []
  points (p ∷ ps) = p ++ points ps

  module _ {V : Type 0} (visit : Visitor c V) where
    visit_part-append :
        (v : V) (ps qs : Part c)
        → visit_part c visit v (ps ++ qs) ≡ (
            visit_part c visit v ps >>= λ r. elim r.1 [
              | true ↦ visit_part c visit r.0 qs
              | false ↦ some (r.0, false)
            ])
    unfolding visit_part
    visit_part-append v [] qs = refl
    visit_part-append v (p ∷ ps) qs = elim (Option-cases (visit v p)) [
      | inl e ↦ rw (e, ◌>>=◌, visit_part) refl
      | inr ((v', go), e) ↦ elim (Bool-cases go) [
        | inl t ↦ rw (e, ◌>>=◌, visit_part, t) (visit_part-append v' ps qs)
        | inr t ↦ rw (e, ◌>>=◌, visit_part, t) refl
      ]
    ]

    visit_parts-points :
        (v : V) (ps : List (Part c)) → visit_parts c visit v ps ≡ visit_part c visit v (points ps)
    unfolding visit_parts visit_part
    visit_parts-points v [] = refl
    visit_parts-points v (p ∷ ps) =
        let join = visit_part-append v p (points ps) in
        elim (Option-cases (visit_part c visit v p)) [
          | inl e ↦ rw join (rw (e, ◌>>=◌) refl)
          | inr ((v', go), e) ↦ elim (Bool-cases go) [
            | inl t ↦ rw join (rw (e, ◌>>=◌, t) (visit_parts-points v' ps))
            | inr t ↦ rw join (rw (e, ◌>>=◌, t) refl)
          ]
        ]

    -- A visitor comes to the points of all parts as if they were one list: in order, and up to the
    -- first at which it stops or faults.
    pub accept-visit_part :
        (v : V) (s : GeoShape c) → accept c visit v s ≡ visit_part c visit v (points s.parts)
    unfolding accept
    accept-visit_part v s = visit_parts-points v s.parts

  visit_extent-valid :
      (e e' : Extent c) (p : Point c)
      → e.is_valid ≡ true
      → expand_to_include c e p ≡ some e'
      → visit_extent c e p ≡ some (e', true)
  unfolding visit_extent
  visit_extent-valid e e' p h k =
      ap
        (λ v.
          expand_to_include c (if not v && is_valid_point c p then new_extent c else e) p >>= λ e'.
          some (e', true))
        h
      ∙ ap (λ (o : Option (Extent c)). o >>= λ e'. some (e', true)) k

  visit_extent-first :
      (e' : Extent c) (p : Point c)
      → is_valid_point c p ≡ true
      → expand_to_include c (new_extent c) p ≡ some e'
      → visit_extent c (invalid c) p ≡ some (e', true)
  unfolding visit_extent
  visit_extent-first e' p h k =
      ap
        (λ v.
          expand_to_include c (if v then new_extent c else invalid c) p >>= λ e'. some (e', true))
        h
      ∙ ap (λ (o : Option (Extent c)). o >>= λ e'. some (e', true)) k

  visit_next :
      (e e' : Extent c) (p : Point c) (ps : Part c) (r : Option (Extent c × Bool))
      → visit_extent c e p ≡ some (e', true)
      → visit_part c (visit_extent c) e' ps ≡ r
      → visit_part c (visit_extent c) e (p ∷ ps) ≡ r
  unfolding visit_part
  visit_next e e' p ps r h k = rw (h, ◌>>=◌) k

  expand_next :
      (e e' : Extent c) (p : Point c) (ps : Part c) (r : Option (Extent c))
      → expand_to_include c e p ≡ some e'
      → expand_to_include_all c e' ps ≡ r
      → expand_to_include_all c e (p ∷ ps) ≡ r
  unfolding expand_to_include_all
  expand_next e e' p ps r h k =
      ap (λ (o : Option (Extent c)). o >>= λ e'. expand_to_include_all c e' ps) h ∙ k

  module _ (s : c.Srs) (laws : IsPlane c) where
    -- The visitor makes the same extent as expandToInclude of the points.
    visit_box :
        (ps : Part c) (e : Extent c)
        → IsBox c e
        → e.sw.srs ≡ some s
        → All (IsPlain c s) ps
        → (e' : Extent c) × (visit_part c (visit_extent c) e ps ≡ some (e', true))
          × (expand_to_include_all c e ps ≡ some e')
    unfolding visit_part expand_to_include_all
    visit_box [] e h i k = (e, refl, refl)
    visit_box (p ∷ ps) e h i k =
        let (e1, o, (h1, i1, w1), _) = expand-Inside c s laws e p h i k.0 in
        let (e2, v, x) = visit_box ps e1 h1 i1 k.1 in
        (
          e2,
          visit_next e e1 p ps (some (e2, true)) (visit_extent-valid e e1 p h.0 o) v,
          expand_next e e1 p ps (some e2) o x,
        )

    -- Whether the cache is used or computed, a shape with a cached extent keeps it.
    get_extent-cached : (t : GeoShape c) → t.extent_cache.is_valid ≡ true → get_extent c t ≡ some t
    unfolding get_extent
    get_extent-cached t h =
        ap
          (λ v.
            if v
            then some t
            else (accept c (visit_extent c) (invalid c) t >>= λ r.
                some (record t { extent_cache = r.0 })))
          h

    get_extent-computed :
        (t : GeoShape c) (e : Extent c)
        → t.extent_cache.is_valid ≡ false
        → accept c (visit_extent c) (invalid c) t ≡ some (e, true)
        → get_extent c t ≡ some (record t { extent_cache = e })
    unfolding get_extent
    get_extent-computed t e h k =
        ap
          (λ v.
            if v
            then some t
            else (accept c (visit_extent c) (invalid c) t >>= λ r.
                some (record t { extent_cache = r.0 })))
          h
        ∙ ap (λ (o : Option (Extent c × Bool)). o >>= λ r. some (record t { extent_cache = r.0 })) k

    -- The extent of a shape without a cached one, whose points are valid, of one spatial reference,
    -- not NaN and at least one, is a box that contains each point of the shape. getExtent never faults,
    -- keeps the parts, and yields the same when it is called again.
    pub get_extent-contains :
        (t : GeoShape c) (p : Point c) (ps : Part c)
        → t.extent_cache.is_valid ≡ false
        → points t.parts ≡ p ∷ ps
        → All (IsPlain c s) (p ∷ ps)
        → (t' : GeoShape c) × (get_extent c t ≡ some t')
          × (t'.parts ≡ t.parts)
          × IsBox c t'.extent_cache
          × All (λ q. contains c t'.extent_cache q ≡ some true) (points t'.parts)
          × (get_extent c t' ≡ some t')
    get_extent-contains t p ps h e k =
        let (e1, o, h1, i1, _) = expand_new c s laws p k.0 in
        let (e2, v, x) = visit_box ps e1 h1 i1 k.1 in
        let (e3, y, box, inside) = expand_to_include_all-contains c s laws p ps k in
        let same = some-inj e2 e3 (sym (expand_next (new_extent c) e1 p ps (some e2) o x) ∙ y) in
        let visited =
          accept-visit_part (visit_extent c) (invalid c) t
          ∙ ap (visit_part c (visit_extent c) (invalid c)) e
          ∙ visit_next (invalid c) e1 p ps (some (e2, true)) (visit_extent-first e1 p k.0.0 o) v in
        let box' = subst (IsBox c) (sym same) box in
        let t' : GeoShape c = record t { extent_cache = e2 } in
        (
          t',
          get_extent-computed t e2 h visited,
          refl,
          box',
          subst (λ qs. All (λ q. contains c e2 q ≡ some true) qs) (sym e)
              (subst (λ z. All (λ q. contains c z q ≡ some true) (p ∷ ps)) (sym same) inside),
          get_extent-cached t' box'.0,
        )
