-- ===== src/Combine/Result.antt =====
-- What CombineLinesFilter::process makes of the parts of its input
-- (src/osgGIS/CombineLinesFilter.cpp).
use mathlib.Core.Path.{subst}
use osggis.Base.{
  ℕ, zero, suc, ◌+◌, ◌≤◌, ◌<◌, ◌≡◌, refl, sym, ap, ◌∙◌, Bool, true, Option, some, List, [], ◌∷◌,
  length, All-right, ◌>>=◌, arith, Bool-cases, Option-cases, List-cases, inl, inr,
}
use osggis.Geo.Point.{Plane, Point}
use osggis.Shapes.Shape.{Part}
use osggis.Shapes.Polygon.{Vectors, last_of}
use osggis.Combine.Defs.{
  Segment, Combining, found, found_back, join_front, join_back, combined, visit_ends, visit_segment,
  combine_from,
}
use osggis.Combine.Join.{IsKeyed, IsMeasure, IsPart, IsJoin, join_front-IsJoin, join_back-IsJoin}
use osggis.Combine.Step.{total, number, dropped-IsRound}
use osggis.Combine.Loop.{IsGood, Ends, logged-Ends, joined-Ends}

module _ (c : Plane) (Ok : Point c → Type 0) (less : Point c → Point c → Bool) (v : Vectors c)
    (keyed : IsKeyed c less Ok) (m : Point c → Point c → ℕ) (law : IsMeasure c less m) where
  abbrev pub Good : Combining c → Type 0
  Good st = IsGood c Ok less v keyed m law st

  abbrev pub sum_total : Combining c → ℕ
  sum_total st = total c Ok less v keyed m law st

  abbrev pub sum_number : Combining c → ℕ
  sum_number st = number c Ok less v keyed m law st

  module _ (st : Combining c) (seg : Segment c) (rest : List (Segment c))
      (i : Good (record st { from = seg ∷ rest })) where
    abbrev Rounds : Option (Combining c) → Type 0
    Rounds o = Ends c Ok less v keyed m law (record st { from = seg ∷ rest }) o

    front-Rounds :
        (p : Point c) (ps : Part c) (s : Segment c)
        → st.active seg.id ≡ true
        → seg.points ≡ p ∷ ps
        → IsPart Ok (p ∷ ps)
        → found c less v st seg p ≡ some s
        → Rounds (join_front c p ps s.points >>= combined c less v st seg s p rest)
    front-Rounds p ps s on e ok f =
        let o = join_front c p ps s.points in
        joined-Ends c Ok less v keyed m law st seg rest i on p p ps s o f (λ k hk same end part.
          subst (λ z. IsJoin c Ok less keyed m law o z s.points) (sym e)
            (join_front-IsJoin c Ok less keyed m law k p ps s.points hk ok part same end))

    back-Rounds :
        (p : Point c) (ps : Part c) (s : Segment c)
        → st.active seg.id ≡ true
        → seg.points ≡ p ∷ ps
        → IsPart Ok (p ∷ ps)
        → found c less v st seg (last_of c p ps) ≡ some s
        → Rounds (join_back c p ps s.points >>= combined c less v st seg s (last_of c p ps) rest)
    back-Rounds p ps s on e ok f =
        let o = join_back c p ps s.points in
        joined-Ends c Ok less v keyed m law st seg rest i on p (last_of c p ps) ps s o f
          (λ k hk same end part.
            subst (λ z. IsJoin c Ok less keyed m law o z s.points) (sym e)
              (join_back-IsJoin c Ok less keyed m law k p ps s.points hk ok part same end))

    visit_ends-Rounds :
        (part : Part c)
        → st.active seg.id ≡ true
        → seg.points ≡ part
        → IsPart Ok part
        → Rounds (visit_ends c less v st seg rest part)
    unfolding found_back
    visit_ends-Rounds [] on e ok = absurd ok
    visit_ends-Rounds (p ∷ []) on e ok = elim (Option-cases (found c less v st seg p)) [
      | inl f ↦ rw (f, visit_ends) (logged-Ends c Ok less v keyed m law st seg rest i on p [] e ok)
      | inr (s, f) ↦ rw (f, visit_ends) (front-Rounds p [] s on e ok f)
    ]
    visit_ends-Rounds (p ∷ q ∷ qs) on e ok = elim (Option-cases (found c less v st seg p)) [
      | inr (s, f) ↦ rw (f, visit_ends) (front-Rounds p (q ∷ qs) s on e ok f)
      | inl f ↦ elim (Option-cases (found c less v st seg (last_of c p (q ∷ qs)))) [
        | inl g ↦
            rw (f, visit_ends, g)
              (logged-Ends c Ok less v keyed m law st seg rest i on p (q ∷ qs) e ok)
        | inr (s, g) ↦ rw (f, visit_ends, g) (back-Rounds p (q ∷ qs) s on e ok g)
      ]
    ]

    visit_segment-Rounds : Rounds (visit_segment c less v st seg rest)
    unfolding visit_segment
    visit_segment-Rounds = elim (Bool-cases (st.active seg.id)) [
      | inl on ↦
          let part =
            (All-right (λ (s : Segment c). IsPart Ok s.points) st.before (seg ∷ rest) i.parts).0 in
          rw on (visit_ends-Rounds seg.points on refl part)
      | inr off ↦ rw off (dropped-IsRound c Ok less v keyed m law st seg rest i off)
    ]

  combine_from-step :
      (fuel : ℕ) (st st1 st2 : Combining c) (seg : Segment c) (rest : List (Segment c))
      → st.from ≡ seg ∷ rest
      → visit_segment c less v st seg rest ≡ some st1
      → combine_from c less v fuel st1 ≡ some st2
      → combine_from c less v (suc fuel) st ≡ some st2
  unfolding combine_from
  combine_from-step fuel st st1 st2 seg rest e h k = rw (e, h, ◌>>=◌) k

  -- The loop ends with nothing left to visit.
  pub combine_from-total :
      (fuel : ℕ) (st : Combining c)
      → Good st
      → length st.from + sum_number st < fuel
      → (st' : Combining c) × (combine_from c less v fuel st ≡ some st')
        × (st'.from ≡ [])
        × Good st'
        × (sum_total st' ≡ sum_total st)
        × (sum_number st' ≤ sum_number st)
  unfolding combine_from
  combine_from-total zero st i h = absurd (omega arith)
  combine_from-total (suc fuel) st i h = elim (List-cases st.from) [
    | inl e ↦ (st, rw e refl, e, i, refl, omega arith)
    | inr (seg, rest, e) ↦
        let same : st ≡ record st { from = seg ∷ rest } =
          ap (λ (z : List (Segment c)). record st { from = z }) e in
        let i' = subst Good same i in
        let (st1, e1, i1, t1, n1, l1) = visit_segment-Rounds st seg rest i' in
        let h' = subst (λ z. length z.from + sum_number z < suc fuel) same h in
        let (st2, e2, f2, i2, t2, n2) = combine_from-total fuel st1 i1 (omega arith) in
        let t = ap sum_total same in
        let n = ap sum_number same in
        (
          st2,
          combine_from-step fuel st st1 st2 seg rest e e1 e2,
          f2,
          i2,
          t2 ∙ t1 ∙ sym t,
          omega arith,
        )
  ]
