-- ===== src/Combine/Conserve.antt =====
-- CombineLinesFilter keeps the edges of its input (src/osgGIS/CombineLinesFilter.cpp).
use mathlib.Core.Path.{subst}
use osggis.Base.{
  ℕ, suc, ◌+◌, ◌*◌, ◌≤◌, ◌<◌, ◌≡◌, refl, sym, ap, ◌∙◌, Bool, true, some, List, [], ◌∷◌, ◌++◌, ◌==◌,
  length, append-nil, sum_of, All, ◌>>=◌, arith, Bool-cases, inl, inr,
}
use osggis.Geo.Point.{Plane, Point}
use osggis.Shapes.Shape.{Part}
use osggis.Shapes.Polygon.{Vectors}
use osggis.Combine.Defs.{Segment, Combining, new_segments, active_parts, combine_parts}
use osggis.Combine.Flags.{count_id, weigh}
use osggis.Combine.Join.{IsKeyed, IsMeasure, measure, IsPart}
use osggis.Combine.Result.{Good, combine_from-total}

module _ (c : Plane) where
  -- The ids of the first segments run from one on.
  count_id-new :
      (id k : ℕ) (parts : List (Part c))
      → (count_id c id (new_segments c k parts) ≤ 1)
        × (id < k → count_id c id (new_segments c k parts) ≡ 0)
        × (k + length (new_segments c k parts) ≤ id → count_id c id (new_segments c k parts) ≡ 0)
  unfolding new_segments
  count_id-new id k [] = (omega arith, λ h. refl, λ h. refl)
  count_id-new id k ([] ∷ parts) = count_id-new id k parts
  count_id-new id k ((p ∷ ps) ∷ parts) =
      let (one, below, above) = count_id-new id (suc k) parts in
      (
        elim (Bool-cases (k == id)) [
          | inl t ↦ let z = below (ground arith) in ground arith
          | inr t ↦ ground arith
        ],
        λ h. let z = below (omega arith) in ground arith,
        λ h. let z = above (omega arith) in ground arith,
      )

  new_segments-IsPart :
      (Ok : Point c → Type 0) (k : ℕ) (parts : List (Part c))
      → All (λ (part : Part c). All Ok part) parts
      → All (λ (s : Segment c). IsPart Ok s.points) (new_segments c k parts)
  unfolding new_segments
  new_segments-IsPart Ok k [] h = tt
  new_segments-IsPart Ok k ([] ∷ parts) h = new_segments-IsPart Ok k parts h.1
  new_segments-IsPart Ok k ((p ∷ ps) ∷ parts) h = (h.0, new_segments-IsPart Ok (suc k) parts h.1)

  length-new_segments :
      (k : ℕ) (parts : List (Part c))
      → (length (new_segments c k parts) ≤ length parts)
        × (weigh c (λ s. 1) (λ id. true) (new_segments c k parts) ≡ length (new_segments c k parts))
  unfolding new_segments
  length-new_segments k [] = (omega arith, refl)
  length-new_segments k ([] ∷ parts) = let (a, b) = length-new_segments k parts in (omega arith, b)
  length-new_segments k ((p ∷ ps) ∷ parts) =
      let (a, b) = length-new_segments (suc k) parts in (omega arith, omega arith)

  module _ (m : Point c → Point c → ℕ) where
    weigh-new_segments :
        (k : ℕ) (parts : List (Part c))
        → weigh c (λ s. measure c m s.points) (λ id. true) (new_segments c k parts)
          ≡ sum_of (measure c m) parts
    unfolding new_segments
    weigh-new_segments k [] = refl
    weigh-new_segments k ([] ∷ parts) = omega (arith, weigh-new_segments k parts)
    weigh-new_segments k ((p ∷ ps) ∷ parts) = omega (arith, weigh-new_segments (suc k) parts)

    weigh-active_parts :
        (active : ℕ → Bool) (ss : List (Segment c))
        → (sum_of (measure c m) (active_parts c active ss)
            ≡ weigh c (λ s. measure c m s.points) active ss)
          × (length (active_parts c active ss) ≡ weigh c (λ s. 1) active ss)
    unfolding active_parts
    weigh-active_parts active [] = (refl, refl)
    weigh-active_parts active (s ∷ ss) =
        let (a, b) = weigh-active_parts active ss in
        elim (Bool-cases (active s.id)) [
          | inl t ↦ rw (t, active_parts) (omega arith, omega arith)
          | inr t ↦ rw (t, active_parts) (omega arith, omega arith)
        ]

  active_parts-IsPart :
      (Ok : Point c → Type 0) (active : ℕ → Bool) (ss : List (Segment c))
      → All (λ (s : Segment c). IsPart Ok s.points) ss
      → All (λ (part : Part c). IsPart Ok part) (active_parts c active ss)
  unfolding active_parts
  active_parts-IsPart Ok active [] h = tt
  active_parts-IsPart Ok active (s ∷ ss) h = elim (Bool-cases (active s.id)) [
    | inl t ↦ rw (t, active_parts) (h.0, active_parts-IsPart Ok active ss h.1)
    | inr t ↦ rw (t, active_parts) (active_parts-IsPart Ok active ss h.1)
  ]

module _ (c : Plane) (Ok : Point c → Type 0) (less : Point c → Point c → Bool) (v : Vectors c)
    (keyed : IsKeyed c less Ok) (m : Point c → Point c → ℕ) (law : IsMeasure c less m) where
  -- On parts whose points are comparable, the loop ends without a fault. The output has at most as
  -- many parts as the input, none of them empty, and every measure of edges that takes no heed of
  -- their direction has the same sum over the output as over the input.
  pub combine_parts-measure :
      (parts : List (Part c))
      → All (λ (part : Part c). All Ok part) parts
      → (r : List (Part c)) × (combine_parts c less v parts ≡ some r)
        × (length r ≤ length parts)
        × All (λ (part : Part c). IsPart Ok part) r
        × (sum_of (measure c m) r ≡ sum_of (measure c m) parts)
  unfolding combine_parts
  combine_parts-measure parts h =
      let segments = new_segments c 0 parts in
      let start : Combining c = record {
        before = [];
        from = segments;
        active = λ id. true;
        ep_map = [];
        seg_id = length segments;
      } in
      let good : Good c Ok less v keyed m law start = record {
        parts = new_segments-IsPart c Ok 0 parts h;
        single = λ id. (count_id-new c id 0 parts).0;
        fresh = λ id k. (count_id-new c id 0 parts).2 (omega arith);
        on = λ id k. refl;
        ends = tt;
        first = λ z. (refl, λ s i. refl);
      } in
      let (short, n) = length-new_segments c 0 parts in
      let (st, e, done, g, t, k) =
        combine_from-total c Ok less v keyed m law (2 * length segments + 1) start good
          (omega arith) in
      let all = ap (λ z. st.before ++ z) done ∙ append-nil st.before in
      let (total, number) = weigh-active_parts c m st.active st.before in
      let t' = ap (weigh c (λ (s : Segment c). measure c m s.points) st.active) all in
      let n' = ap (weigh c (λ (s : Segment c). 1) st.active) all in
      (
        active_parts c st.active st.before,
        rw (e, ◌>>=◌) refl,
        omega arith,
        active_parts-IsPart c Ok st.active st.before
            (subst (All (λ (s : Segment c). IsPart Ok s.points)) all g.parts),
        total ∙ sym t' ∙ t ∙ weigh-new_segments c m 0 parts,
      )
