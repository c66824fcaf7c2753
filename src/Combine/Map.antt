-- ===== src/Combine/Map.antt =====
-- The map of endpoints (src/osgGIS/CombineLinesFilter.cpp): its keys are ends of the segments at them,
-- and its active segments are in the list.
use osggis.Base.{
  ℕ, ◌≡◌, Bool, true, some, List, [], ◌∷◌, All, In, Bool-cases, inl, inr, ◌⊎◌, some-inj,
}
use mathlib.Core.Path.{subst}
use osggis.Geo.Point.{Plane, Point}
use osggis.Shapes.Shape.{Part}
use osggis.Shapes.Polygon.{last_of}
use osggis.Combine.Defs.{Segment, EndpointMap, same_key, find_end, put_end, erase_end}

module _ (c : Plane) (Ok : Point c → Type 0) (less : Point c → Point c → Bool) where
  -- The end that a key of the map stands for.
  abbrev pub IsEnd : Point c → Part c → Type 0
  IsEnd k [] = ⊥
  IsEnd k (q ∷ qs) = (same_key c less k q ≡ true) ⊎ (same_key c less k (last_of c q qs) ≡ true)

  abbrev pub IsEntry : List (Segment c) → (ℕ → Bool) → Point c × Segment c → Type 0
  IsEntry ss active (k, s) = Ok k × IsEnd k s.points × (active s.id ≡ true → In s ss)

  module _ (ss : List (Segment c)) (active : ℕ → Bool) where
    pub find_end-IsEntry :
        (p : Point c) (m : EndpointMap c) (e : Segment c)
        → All (IsEntry ss active) m
        → find_end c less p m ≡ some e
        → (k : Point c) × (same_key c less k p ≡ true) × IsEntry ss active (k, e)
    unfolding find_end
    find_end-IsEntry p [] e h f = absurd (cc)
    find_end-IsEntry p ((k, s) ∷ m) e h f = elim (Bool-cases (same_key c less k p)) [
      | inl t ↦
          let same : s ≡ e = some-inj s e (rw (t, find_end) at f) in
          (k, t, subst (λ z. IsEntry ss active (k, z)) same h.0)
      | inr t ↦ find_end-IsEntry p m e h.1 (rw (t, find_end) at f)
    ]

    pub erase_end-IsEntry :
        (p : Point c) (m : EndpointMap c)
        → All (IsEntry ss active) m
        → All (IsEntry ss active) (erase_end c less p m)
    unfolding erase_end
    erase_end-IsEntry p [] h = tt
    erase_end-IsEntry p ((k, s) ∷ m) h = elim (Bool-cases (same_key c less k p)) [
      | inl t ↦ rw (t, erase_end) h.1
      | inr t ↦ rw (t, erase_end) (h.0, erase_end-IsEntry p m h.1)
    ]

    -- A segment is put at a point that is one of its ends, so that the keys for the point are.
    pub put_end-IsEntry :
        (p : Point c) (s : Segment c) (m : EndpointMap c)
        → Ok p
        → IsEnd p s.points
        → ((k : Point c) → same_key c less k p ≡ true → IsEnd k s.points)
        → (active s.id ≡ true → In s ss)
        → All (IsEntry ss active) m
        → All (IsEntry ss active) (put_end c less p s m)
    unfolding put_end
    put_end-IsEntry p s [] hp self ends listed h = ((hp, self, listed), tt)
    put_end-IsEntry p s ((k, t) ∷ m) hp self ends listed h =
        elim (Bool-cases (same_key c less k p)) [
          | inl e ↦ rw (e, put_end) ((h.0.0, ends k e, listed), h.1)
          | inr e ↦ rw (e, put_end) (h.0, put_end-IsEntry p s m hp self ends listed h.1)
        ]

  -- The list and the flags change, and what was an active segment of the list still is one if it
  -- is active.
  pub IsEntry-kept :
      (ss ts : List (Segment c)) (active active' : ℕ → Bool) (m : EndpointMap c)
      → ((s : Segment c) → (active s.id ≡ true → In s ss) → active' s.id ≡ true → In s ts)
      → All (IsEntry ss active) m
      → All (IsEntry ts active') m
  IsEntry-kept ss ts active active' [] f h = tt
  IsEntry-kept ss ts active active' ((k, s) ∷ m) f h =
      ((h.0.0, h.0.1, f s h.0.2), IsEntry-kept ss ts active active' m f h.1)
