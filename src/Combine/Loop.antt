-- ===== src/Combine/Loop.antt =====
-- The loop of CombineLinesFilter::process (src/osgGIS/CombineLinesFilter.cpp) ends.
use mathlib.Core.Path.{subst}
use osggis.Base.{
  ℕ, ◌≤◌, ◌≡◌, ◌≢◌, refl, sym, ap, ◌∙◌, Bool, true, not, ◌&&◌, Option, none, some, List, [], ◌∷◌,
  ◌++◌, ◌==◌, append_assoc, All, In, In-All, In-right, ◌>>=◌, arith, Bool-cases, List-cases,
  bind-some, some-inj, inl, inr,
}
use osggis.Geo.Point.{Plane, Point}
use osggis.Shapes.Shape.{Part}
use osggis.Shapes.Polygon.{Vectors, last_of}
use osggis.Combine.Defs.{
  Segment, EndpointMap, Combining, same_key, find_end, found, combined, logged,
}
use osggis.Combine.Flags.{count_id, weigh}
use osggis.Combine.Map.{IsEnd, IsEntry, find_end-IsEntry}
use osggis.Combine.Join.{IsKeyed, IsMeasure, measure, IsPart, IsJoin}
use osggis.Combine.Step.{put_ends-IsEntry}
use osggis.Combine.Round.{IsState, Goal, combined-IsRound}

module _ (c : Plane) (Ok : Point c → Type 0) (less : Point c → Point c → Bool) (v : Vectors c)
    (keyed : IsKeyed c less Ok) (m : Point c → Point c → ℕ) (law : IsMeasure c less m) where
  abbrev pub IsGood : Combining c → Type 0
  IsGood st = IsState c Ok less v keyed m law st

  abbrev pub Ends : Combining c → Option (Combining c) → Type 0
  Ends st o = Goal c Ok less v keyed m law st o

  module _ (st : Combining c) (seg : Segment c) (rest : List (Segment c))
      (i : IsGood (record st { from = seg ∷ rest })) (on : st.active seg.id ≡ true) where
    abbrev pub here : Combining c
    here = record st { from = seg ∷ rest }

    abbrev pub ss : List (Segment c)
    ss = st.before ++ (seg ∷ rest)

    pub logged-Ends :
        (p : Point c) (ps : Part c)
        → seg.points ≡ p ∷ ps
        → IsPart Ok (p ∷ ps)
        → Ends here (some (logged c less v st seg p ps rest))
    unfolding logged
    logged-Ends p ps e ok =
        let eq = append_assoc st.before (seg ∷ []) rest in
        let P = λ (s : Segment c). IsPart Ok s.points in
        let listed : In seg ss = In-right seg st.before (seg ∷ rest) (inl refl) in
        let (one, two) =
          put_ends-IsEntry c Ok less v keyed m law seg p ps ss st.active st.ep_map e ok listed
            i.ends in
        let Q = λ (map : EndpointMap c). All (IsEntry c Ok less ss st.active) map in
        let both : Q (logged c less v st seg p ps rest).ep_map =
          elim (Bool-cases (v.differ p (last_of c p ps))) [ inl t ↦ rw t two | inr t ↦ rw t one ] in
        let n = ap (weigh c (λ (s : Segment c). 1) st.active) eq in
        (
          logged c less v st seg p ps rest,
          refl,
          record {
            parts = subst (All P) (sym eq) i.parts;
            single = λ id. subst (λ z. count_id c id z ≤ 1) (sym eq) (i.single id);
            fresh = λ id h. ap (count_id c id) eq ∙ i.fresh id h;
            on = i.on;
            ends =
                subst
                  (λ z.
                    All (IsEntry c Ok less z st.active) (logged c less v st seg p ps rest).ep_map)
                  (sym eq) both;
            first = λ z. absurd (elim (List-cases st.before) [
              | inl y ↦ let x = rw y at z in cc
              | inr (b, bs, y) ↦ let x = rw y at z in cc
            ]);
          },
          ap (weigh c (λ (s : Segment c). measure c m s.points) st.active) eq,
          omega (arith, n),
          omega (arith, n),
        )

    found_lem :
        (p : Point c) (e : Segment c)
        → found c less v st seg p ≡ some e
        → (find_end c less p st.ep_map ≡ some e) × (st.active e.id ≡ true) × (seg.id ≢ e.id)
    unfolding found
    found_lem p e h =
        let (d, f, g) = bind-some (find_end c less p st.ep_map) _ e h in
        elim (Bool-cases (st.active d.id && not (seg.id == d.id))) [
          | inl t ↦
              let same : d ≡ e = some-inj d e (rw t at g) in
              let ne : seg.id ≢ d.id = ground arith in
              let live : st.active d.id ≡ true = ground arith in
              (
                f ∙ ap some same,
                subst (λ (z : Segment c). st.active z.id ≡ true) same live,
                subst (λ (z : Segment c). seg.id ≢ z.id) same ne,
              )
          | inr t ↦ let z : none ≡ some e = rw t at g in absurd (cc)
        ]

    -- A segment found at an end is joined to the one at the iterator.
    pub joined-Ends :
        (p q : Point c) (ps : Part c) (e : Segment c) (o : Option (Part c))
        → found c less v st seg q ≡ some e
        → ((k : Point c)
            → Ok k
            → same_key c less k q ≡ true
            → IsEnd c Ok less k e.points
            → IsPart Ok e.points
            → IsJoin c Ok less keyed m law o seg.points e.points)
        → Ends here (o >>= combined c less v st seg e q rest)
    joined-Ends p q ps e o f join = elim (List-cases st.before) [
      | inl none_before ↦
          let (g, _, _) = found_lem q e f in
          let g' : find_end c less q [] ≡ some e =
            ap (find_end c less q) (sym (i.first none_before).0) ∙ g in
          absurd (unfold find_end in cc)
      | inr (b, bs, has) ↦
          let (g, live, ne) = found_lem q e f in
          let (k, same, entry) = find_end-IsEntry c Ok less ss st.active q st.ep_map e i.ends g in
          let listed = entry.2 live in
          let part = In-All (λ (s : Segment c). IsPart Ok s.points) e ss i.parts listed in
          let (r, eq, ok, sum) = join k entry.0 same entry.1 part in
          rw eq (
            combined-IsRound c Ok less v keyed m law st seg rest i on e q b bs r has listed live ne
              ok sum)
    ]
