-- ===== src/Combine/Step.antt =====
-- The body of the loop of CombineLinesFilter::process (src/osgGIS/CombineLinesFilter.cpp) keeps its
-- invariant.
use mathlib.Core.Path.{subst}
use osggis.Base.{
  ℕ, ◌+◌, ◌≤◌, ◌<◌, ◌≡◌, ◌≢◌, refl, sym, ap, ◌∙◌, Bool, true, false, Option, some, List, [], ◌∷◌,
  ◌++◌, ◌==◌, length, sum_of-append, All, All-append, All-left, All-right, In, In-append, In-left,
  In-right, if◌then◌else◌, arith, List-cases, inl, inr,
}
use osggis.Geo.Point.{Plane, Point}
use osggis.Shapes.Shape.{Part}
use osggis.Shapes.Polygon.{Vectors, last_of}
use osggis.Combine.Defs.{Segment, EndpointMap, Combining, same_key, put_end, dropped}
use osggis.Combine.Flags.{count_id, weigh}
use osggis.Combine.Map.{IsEnd, IsEntry, put_end-IsEntry, IsEntry-kept}
use osggis.Combine.Join.{IsKeyed, IsMeasure, measure, IsPart, last_of-Ok}

module _ (c : Plane) (Ok : Point c → Type 0) (less : Point c → Point c → Bool) (v : Vectors c)
    (keyed : IsKeyed c less Ok) (m : Point c → Point c → ℕ) (law : IsMeasure c less m) where
  abbrev pub whole : Combining c → List (Segment c)
  whole st = st.before ++ st.from

  -- The state at the head of the loop.
  pub record IsCombining (st : Combining c) : Type 0 where
    pub parts : All (λ (s : Segment c). IsPart Ok s.points) (whole st)
    pub single : (id : ℕ) → count_id c id (whole st) ≤ 1
    pub fresh : (id : ℕ) → st.seg_id ≤ id → count_id c id (whole st) ≡ 0
    pub on : (id : ℕ) → st.seg_id ≤ id → st.active id ≡ true
    pub ends : All (IsEntry c Ok less (whole st) st.active) st.ep_map
    pub first :
        st.before ≡ [] → (st.ep_map ≡ []) × ((s : Segment c) → In s st.from → st.active s.id ≡ true)

  -- The measure of the active segments, and their number.
  abbrev pub total : Combining c → ℕ
  total st = weigh c (λ (s : Segment c). measure c m s.points) st.active (whole st)

  abbrev pub number : Combining c → ℕ
  number st = weigh c (λ (s : Segment c). 1) st.active (whole st)

  -- What one round makes of a state.
  abbrev pub IsRound : Combining c → Option (Combining c) → Type 0
  IsRound st o =
      (st' : Combining c) × (o ≡ some st')
      × IsCombining st'
      × (total st' ≡ total st)
      × (number st' ≤ number st)
      × (length st'.from + number st' < length st.from + number st)

  abbrev pub at : Combining c → Segment c → List (Segment c) → Combining c
  at st seg rest = record st { from = seg ∷ rest }

  -- A segment that is listed once and is not the one at the iterator stays listed.
  pub In-other :
      (s seg : Segment c) (before rest : List (Segment c))
      → s.id ≢ seg.id
      → In s (before ++ (seg ∷ rest))
      → In s (before ++ rest)
  In-other s seg before rest ne i = elim (In-append s before (seg ∷ rest) i) [
    | inl j ↦ In-left s before rest j
    | inr j ↦ elim j [
      | inl e ↦ absurd (ne (ap (λ (z : Segment c). z.id) e))
      | inr k ↦ In-right s before rest k
    ]
  ]

  pub weigh-off :
      (w : Segment c → ℕ) (active : ℕ → Bool) (before rest : List (Segment c)) (seg : Segment c)
      → active seg.id ≡ false
      → weigh c w active (before ++ rest) ≡ weigh c w active (before ++ (seg ∷ rest))
  weigh-off w active before rest seg off =
      let f = λ (s : Segment c). if active s.id then w s else 0 in
      let zero_at : f seg ≡ 0 = rw off refl in
      omega (arith, sum_of-append f before rest, sum_of-append f before (seg ∷ rest))

  count_id-off :
      (id : ℕ) (before rest : List (Segment c)) (seg : Segment c)
      → count_id c id (before ++ rest) ≤ count_id c id (before ++ (seg ∷ rest))
  count_id-off id before rest seg =
      let f : Segment c → ℕ = λ s. if s.id == id then 1 else 0 in
      omega (arith, sum_of-append f before rest, sum_of-append f before (seg ∷ rest))

  pub dropped-IsRound :
      (st : Combining c) (seg : Segment c) (rest : List (Segment c))
      → IsCombining (at st seg rest)
      → st.active seg.id ≡ false
      → IsRound (at st seg rest) (dropped c less v st rest)
  dropped-IsRound st seg rest i off = elim (List-cases st.before) [
    | inl e ↦ absurd (let z = sym off ∙ (i.first e).1 seg (inl refl) in cc)
    | inr (b, bs, e) ↦
        let P = λ (s : Segment c). IsPart Ok s.points in
        let w =
          weigh-off (λ (s : Segment c). measure c m s.points) st.active st.before rest seg off in
        let n = weigh-off (λ (s : Segment c). 1) st.active st.before rest seg off in
        (
          record st { from = rest },
          rw e refl,
          record {
            parts =
                All-append P st.before rest (All-left P st.before (seg ∷ rest) i.parts)
                  (All-right P st.before (seg ∷ rest) i.parts).1;
            single = λ id. omega (arith, i.single id, count_id-off id st.before rest seg);
            fresh = λ id h. omega (arith, i.fresh id h, count_id-off id st.before rest seg);
            on = i.on;
            ends =
                IsEntry-kept c Ok less (st.before ++ (seg ∷ rest)) (st.before ++ rest) st.active
                  st.active st.ep_map
                  (λ s h k.
                    In-other s seg st.before rest
                      (λ same. absurd (let z = sym off ∙ ap st.active (sym same) ∙ k in cc)) (h k))
                  i.ends;
            first = λ z. absurd (let y = sym e ∙ z in cc);
          },
          w,
          omega (arith, n),
          omega (arith, n),
        )
  ]

  pub count_id-joined :
      (id : ℕ) (before rest : List (Segment c)) (seg new : Segment c)
      → count_id c id (before ++ (rest ++ (new ∷ []))) + (if seg.id == id then 1 else 0)
        ≡ count_id c id (before ++ (seg ∷ rest)) + (if new.id == id then 1 else 0)
  count_id-joined id before rest seg new =
      let f : Segment c → ℕ = λ s. if s.id == id then 1 else 0 in
      omega (
        arith,
        sum_of-append f before (rest ++ (new ∷ [])),
        sum_of-append f before (seg ∷ rest),
        sum_of-append f rest (new ∷ []),
      )

  -- A new segment comes to the end of the list.
  pub In-more :
      (s new : Segment c) (before rest : List (Segment c))
      → In s (before ++ rest)
      → In s (before ++ (rest ++ (new ∷ [])))
  In-more s new before rest i = elim (In-append s before rest i) [
    | inl j ↦ In-left s before (rest ++ (new ∷ [])) j
    | inr j ↦ In-right s before (rest ++ (new ∷ [])) (In-left s rest (new ∷ []) j)
  ]

  pub In-new :
      (new : Segment c) (before rest : List (Segment c)) → In new (before ++ (rest ++ (new ∷ [])))
  In-new new before rest =
      In-right new before (rest ++ (new ∷ [])) (In-right new rest (new ∷ []) (inl refl))

  -- The keys of a segment that is put at its first and its last point.
  pub put_ends-IsEntry :
      (s : Segment c) (p : Point c) (ps : Part c) (ss : List (Segment c)) (active : ℕ → Bool)
      (map : EndpointMap c)
      → s.points ≡ p ∷ ps
      → IsPart Ok (p ∷ ps)
      → In s ss
      → All (IsEntry c Ok less ss active) map
      → All (IsEntry c Ok less ss active) (put_end c less p s map)
        × All
            (IsEntry c Ok less ss active)
            (put_end c less (last_of c p ps) s (put_end c less p s map))
  put_ends-IsEntry s p ps ss active map e h i entries =
      let q = last_of c p ps in
      let hq = last_of-Ok c Ok p ps h.0 h.1 in
      let front = λ (k : Point c) (t : same_key c less k p ≡ true).
        subst (IsEnd c Ok less k) (sym e) (inl t) in
      let back = λ (k : Point c) (t : same_key c less k q ≡ true).
        subst (IsEnd c Ok less k) (sym e) (inr t) in
      let one =
        put_end-IsEntry c Ok less ss active p s map h.0 (front p (keyed.same_refl p h.0)) front
          (λ _. i) entries in
      (
        one,
        put_end-IsEntry c Ok less ss active q s (put_end c less p s map) hq
            (back q (keyed.same_refl q hq)) back (λ _. i) one,
      )
