-- ===== src/Shapes/Ends.antt =====
-- openPolygon and closePolygon (GeomUtils in src/osgGIS/Utils.cpp).
use osggis.Base.{
  ℕ, zero, suc, ◌≤◌, ◌≡◌, refl, sym, ap, ◌∙◌, Bool, false, [], ◌∷◌, ◌++◌, length, append-nil,
  append_assoc, arith, Bool-cases, ◌⊎◌, All, true, inl, inr,
}
use osggis.Geo.Point.{Plane, Point, point_eq}
use osggis.Shapes.Shape.{Part}
use osggis.Shapes.Polygon.{
  Vectors, last_of, init_of, is_open_loop, open_from, open_polygon, close_polygon,
}

module _ (c : Plane) where
  length-init_of : (p : Point c) (ps : Part c) → length (init_of c p ps) ≡ length ps
  length-init_of p [] = refl
  length-init_of p (q ∷ qs) = omega (arith, length-init_of q qs)

  init_of-last : (p : Point c) (ps : Part c) → init_of c p ps ++ (last_of c p ps ∷ []) ≡ p ∷ ps
  init_of-last p [] = refl
  init_of-last p (q ∷ qs) = ap (λ r. p ∷ r) (init_of-last q qs)

  -- The points that equal the first one of a polygon.
  abbrev pub AllClosing : Part c → Part c → Type 0
  AllClosing [] dropped = dropped ≡ []
  AllClosing (p ∷ ps) dropped = All (λ d. point_eq c p d ≡ true) dropped

  -- What the loop keeps of its points, what it drops, and the state in which it ends.
  abbrev pub IsOpening : Part c → Part c → Type 0
  IsOpening ps qs =
      (is_open_loop c qs ≡ false)
      × ((length qs ≡ length ps) ⊎ (3 ≤ length qs))
      × (dropped : Part c) × (ps ≡ qs ++ dropped)
      × AllClosing ps dropped

  is_open_loop-closes :
      (p : Point c) (ps : Part c)
      → is_open_loop c (p ∷ ps) ≡ true
      → point_eq c p (last_of c p ps) ≡ true
  is_open_loop-closes p ps h = ground arith

  closing_rest :
      (p : Point c) (ps dropped : Part c)
      → AllClosing (init_of c p ps) dropped
      → All (λ d. point_eq c p d ≡ true) dropped
  closing_rest p [] dropped h = rw h tt
  closing_rest p (q ∷ ps) dropped h = h

  All-snoc :
      (P : Point c → Type 0) (xs : Part c) (y : Point c) → All P xs → P y → All P (xs ++ (y ∷ []))
  All-snoc P [] y h k = (k, tt)
  All-snoc P (x ∷ xs) y h k = (h.0, All-snoc P xs y h.1 k)

  open_from-IsOpening :
      (fuel : ℕ) (ps : Part c) → length ps ≤ fuel → IsOpening ps (open_from c fuel ps)
  unfolding open_from
  open_from-IsOpening zero [] h = (refl, inl refl, [], refl, refl)
  open_from-IsOpening zero (p ∷ ps) h = absurd (omega arith)
  open_from-IsOpening (suc fuel) [] h = (refl, inl refl, [], refl, refl)
  open_from-IsOpening (suc fuel) (p ∷ ps) h = elim (Bool-cases (is_open_loop c (p ∷ ps))) [
    | inl t ↦
        let l = length-init_of p ps in
        let (end, few, dropped, e, closing) =
          open_from-IsOpening fuel (init_of c p ps) (omega arith) in
        let rest = open_from c fuel (init_of c p ps) in
        rw (t, open_from)
          (
            end,
            inr (elim few [ inl same ↦ ground arith | inr many ↦ many ]),
            dropped ++ (last_of c p ps ∷ []),
            sym (init_of-last p ps)
                ∙ ap (λ r. r ++ (last_of c p ps ∷ [])) e
                ∙ append_assoc rest dropped (last_of c p ps ∷ []),
            All-snoc _ dropped (last_of c p ps) (closing_rest p ps dropped closing)
                (is_open_loop-closes p ps t),
          )
    | inr t ↦ rw (t, open_from) (t, inl refl, [], sym (append-nil (p ∷ ps)), tt)
  ]

  -- openPolygon ends. It drops points from the end only, each of them equal to the first one, leaves at least three points if it drops
  -- any, and the result has at most three points or ends in a point that is not equal to its first.
  pub open_polygon-IsOpening : (ps : Part c) → IsOpening ps (open_polygon c ps)
  unfolding open_polygon
  open_polygon-IsOpening ps = open_from-IsOpening (length ps) ps (omega arith)

  last_of-append : (p q : Point c) (ps : Part c) → last_of c p (ps ++ (q ∷ [])) ≡ q
  last_of-append p q [] = refl
  last_of-append p q (r ∷ rs) = last_of-append r q rs

  abbrev pub ends_apart : Vectors c → Part c → Bool
  ends_apart v [] = false
  ends_apart v (p ∷ ps) = v.differ p (last_of c p ps)

  -- If the first point does not differ from itself, the first and the last point of a polygon after
  -- closePolygon do not differ, and a second closePolygon changes nothing.
  pub close_polygon-closed :
      (v : Vectors c) (p : Point c) (ps : Part c)
      → v.differ p p ≡ false
      → (ends_apart v (close_polygon c v (p ∷ ps)) ≡ false)
        × (close_polygon c v (close_polygon c v (p ∷ ps)) ≡ close_polygon c v (p ∷ ps))
  unfolding close_polygon
  close_polygon-closed v p ps h = elim (Bool-cases (v.differ p (last_of c p ps))) [
    | inl t ↦ let e = ap (v.differ p) (last_of-append p p ps) ∙ h in rw (t) (e, rw (e) refl)
    | inr t ↦ rw (t) (t, rw (t) refl)
  ]
