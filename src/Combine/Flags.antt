-- ===== src/Combine/Flags.antt =====
-- Sums over the active segments of a list (src/osgGIS/CombineLinesFilter.cpp) when segments cease to
-- be active.
use osggis.Base.{
  ℕ, ◌+◌, ◌≤◌, ◌<◌, ◌≡◌, ◌≢◌, refl, sym, ap, ◌∙◌, Bool, true, false, List, [], ◌∷◌, ◌++◌, ◌==◌,
  sum_of, sum_of-append, In, In-right, if◌then◌else◌, arith, inl, inr,
}
use osggis.Geo.Point.{Plane}
use osggis.Combine.Defs.{Segment, kill}

module _ (c : Plane) where
  -- How many segments have an id.
  abbrev pub count_id : ℕ → List (Segment c) → ℕ
  count_id id ss = sum_of (λ (s : Segment c). if s.id == id then 1 else 0) ss

  -- The sum of a weight over the segments that are active.
  abbrev pub weigh : (Segment c → ℕ) → (ℕ → Bool) → List (Segment c) → ℕ
  weigh w active ss = sum_of (λ (s : Segment c). if active s.id then w s else 0) ss

  pub count_id-In : (e : Segment c) (ss : List (Segment c)) → In e ss → 0 < count_id e.id ss
  count_id-In e [] i = elim i [ ]
  count_id-In e (s ∷ ss) (inl same) =
      let h : e.id ≡ s.id = ap (λ (z : Segment c). z.id) same in ground arith
  count_id-In e (s ∷ ss) (inr i) = omega (arith, count_id-In e ss i)

  module _ (w : Segment c → ℕ) where
    weigh-kill_none :
        (id : ℕ) (active : ℕ → Bool) (ss : List (Segment c))
        → count_id id ss ≡ 0
        → weigh w (kill id active) ss ≡ weigh w active ss
    weigh-kill_none id active [] h = refl
    weigh-kill_none id active (s ∷ ss) h =
        let rest = weigh-kill_none id active ss (omega arith) in ground arith

    weigh-kill :
        (e : Segment c) (active : ℕ → Bool) (ss : List (Segment c))
        → In e ss
        → count_id e.id ss ≤ 1
        → active e.id ≡ true
        → weigh w (kill e.id active) ss + w e ≡ weigh w active ss
    weigh-kill e active [] i h k = elim i [ ]
    weigh-kill e active (s ∷ ss) (inl same) h k =
        let h' : s.id ≡ e.id = ap (λ (z : Segment c). z.id) (sym same) in
        let hw : w s ≡ w e = ap w (sym same) in
        let on : active s.id ≡ true = ap active h' ∙ k in
        let rest = weigh-kill_none e.id active ss (ground arith) in ground arith
    weigh-kill e active (s ∷ ss) (inr i) h k =
        let pos = count_id-In e ss i in
        let rest = weigh-kill e active ss i (omega arith) k in ground arith

    -- Two active segments of a list give way to a new one.
    pub weigh-joined :
        (before rest : List (Segment c)) (seg e new : Segment c) (active : ℕ → Bool)
        → ((id : ℕ) → count_id id (before ++ (seg ∷ rest)) ≤ 1)
        → In e (before ++ (seg ∷ rest))
        → active seg.id ≡ true
        → active e.id ≡ true
        → seg.id ≢ e.id
        → count_id new.id (before ++ (seg ∷ rest)) ≡ 0
        → active new.id ≡ true
        → weigh w (kill e.id (kill seg.id active)) (before ++ (rest ++ (new ∷ []))) + (w seg + w e)
          ≡ weigh w active (before ++ (seg ∷ rest)) + w new
    weigh-joined before rest seg e new active single i on on' ne fresh on'' =
        let ss = before ++ (seg ∷ rest) in
        let j = In-right seg before (seg ∷ rest) (inl refl) in
        let a' = kill seg.id active in
        let a'' = kill e.id a' in
        let still : a' e.id ≡ true = ground arith in
        let off : a'' seg.id ≡ false = ground arith in
        let pos = count_id-In e ss i in
        let pos' = count_id-In seg ss j in
        let ne1 : new.id ≢ e.id =
          λ h. absurd (let z = sym fresh ∙ ap (λ k. count_id k ss) h in omega arith) in
        let ne2 : new.id ≢ seg.id =
          λ h. absurd (let z = sym fresh ∙ ap (λ k. count_id k ss) h in omega arith) in
        let on3 : a'' new.id ≡ true = ground arith in
        let first = weigh-kill seg active ss j (single seg.id) on in
        let second = weigh-kill e a' ss i (single e.id) still in
        let f = λ (s : Segment c). if a'' s.id then w s else 0 in
        let split = sum_of-append f before (seg ∷ rest) in
        let split' = sum_of-append f before (rest ++ (new ∷ [])) in
        let split'' = sum_of-append f rest (new ∷ []) in
        let at_seg : f seg ≡ 0 = rw off refl in
        let at_new : f new ≡ w new = rw on3 refl in omega arith
