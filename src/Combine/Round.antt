-- ===== src/Combine/Round.antt =====
-- A round of the loop of CombineLinesFilter::process that joins two segments, and one that keeps its
-- segment (src/osgGIS/CombineLinesFilter.cpp).
use osggis.Base.{
  ℕ, suc, ◌+◌, ◌≤◌, ◌<◌, ◌≡◌, ◌≢◌, refl, sym, ap, ◌∙◌, Bool, true, false, Option, List, [], ◌∷◌,
  ◌++◌, ◌==◌, length-append, All-append, All-left, All-right, In, In-right, arith, Bool-cases, inl,
  inr,
}
use osggis.Geo.Point.{Plane, Point}
use osggis.Shapes.Shape.{Part}
use osggis.Shapes.Polygon.{Vectors}
use osggis.Combine.Defs.{Segment, Combining, erase_end, kill, combined}
use osggis.Combine.Flags.{count_id, count_id-In, weigh-joined}
use osggis.Combine.Map.{erase_end-IsEntry, IsEntry-kept}
use osggis.Combine.Join.{IsKeyed, IsMeasure, measure, IsPart}
use osggis.Combine.Step.{
  IsCombining, IsRound, at, In-other, count_id-joined, In-more, In-new, put_ends-IsEntry,
}

module _ (c : Plane) (Ok : Point c → Type 0) (less : Point c → Point c → Bool) (v : Vectors c)
    (keyed : IsKeyed c less Ok) (m : Point c → Point c → ℕ) (law : IsMeasure c less m) where
  abbrev pub IsState : Combining c → Type 0
  IsState st = IsCombining c Ok less v keyed m law st

  abbrev pub Goal : Combining c → Option (Combining c) → Type 0
  Goal st o = IsRound c Ok less v keyed m law st o

  abbrev pub state_at : Combining c → Segment c → List (Segment c) → Combining c
  state_at st seg rest = at c Ok less v keyed m law st seg rest

  module _ (st : Combining c) (seg : Segment c) (rest : List (Segment c))
      (i : IsState (state_at st seg rest)) (on : st.active seg.id ≡ true) where
    abbrev pub old : List (Segment c)
    old = st.before ++ (seg ∷ rest)

    -- An id that is not in use yet.
    unused : (id : ℕ) (s : Segment c) → st.seg_id ≤ id → 0 < count_id c s.id old → id ≢ s.id
    unused id s h n z =
        absurd (let y = sym (i.fresh id h) ∙ ap (λ k. count_id c k old) z in omega arith)

    pub combined-IsRound :
        (e : Segment c) (key : Point c) (b : Segment c) (bs : List (Segment c)) (r : Part c)
        → st.before ≡ b ∷ bs
        → In e old
        → st.active e.id ≡ true
        → seg.id ≢ e.id
        → IsPart Ok r
        → measure c m r ≡ measure c m seg.points + measure c m e.points
        → Goal (state_at st seg rest) (combined c less v st seg e key rest r)
    unfolding combined
    combined-IsRound e key b bs [] has listed on' ne ok same = absurd ok
    combined-IsRound e key b bs (p ∷ ps) has listed on' ne ok same =
        let new : Segment c = record { id = st.seg_id; points = p ∷ ps } in
        let ss = st.before ++ (rest ++ (new ∷ [])) in
        let a = kill e.id (kill seg.id st.active) in
        let P = λ (s : Segment c). IsPart Ok s.points in
        let seg_listed : In seg old = In-right seg st.before (seg ∷ rest) (inl refl) in
        let pos = count_id-In c e old listed in
        let pos' = count_id-In c seg old seg_listed in
        let right = All-right P st.before (seg ∷ rest) i.parts in
        let more = λ (id : ℕ). count_id-joined c Ok less v keyed m law id st.before rest seg new in
        let keep = λ (s : Segment c) (h : st.active s.id ≡ true → In s old) (k : a s.id ≡ true).
          let was : st.active s.id ≡ true = ground arith in
          let other : s.id ≢ seg.id = ground arith in
          In-more c Ok less v keyed m law s new st.before rest
            (In-other c Ok less v keyed m law s seg st.before rest other (h was)) in
        let entries =
          IsEntry-kept c Ok less old ss st.active a (erase_end c less key st.ep_map) keep
            (erase_end-IsEntry c Ok less old st.active key st.ep_map i.ends) in
        let weighed = λ (w : Segment c → ℕ).
          weigh-joined c w st.before rest seg e new st.active i.single listed on on' ne
            (i.fresh st.seg_id (omega arith)) (i.on st.seg_id (omega arith)) in
        let numbers = weighed (λ s. 1) in
        let longer = length-append rest (new ∷ []) in
        (
          record {
            before = st.before;
            from = rest ++ (new ∷ []);
            active = a;
            ep_map = _;
            seg_id = suc st.seg_id;
          },
          rw has refl,
          record {
            parts =
                All-append P st.before (rest ++ (new ∷ []))
                  (All-left P st.before (seg ∷ rest) i.parts)
                  (All-append P rest (new ∷ []) right.1 (ok, tt));
            single = λ id.
                let k = more id in
                let z = i.single id in
                elim (Bool-cases (st.seg_id == id)) [
                  | inl t ↦
                      let l : st.seg_id ≤ id = ground arith in let f = i.fresh id l in ground arith
                  | inr t ↦ ground arith
                ];
            fresh = λ id h.
                let k = more id in
                let f = i.fresh id (omega arith) in
                let ne' : (st.seg_id == id) ≡ false = ground arith in ground arith;
            on = λ id h.
                let was = i.on id (omega arith) in
                let n1 = unused id e (omega arith) pos in
                let n2 = unused id seg (omega arith) pos' in ground arith;
            ends =
                (put_ends-IsEntry c Ok less v keyed m law new p ps ss a _ refl ok
                  (In-new c Ok less v keyed m law new st.before rest) entries).1;
            first = λ z. absurd (let y = sym has ∙ z in cc);
          },
          omega (arith, weighed (λ s. measure c m s.points)),
          omega arith,
          omega arith,
        )
