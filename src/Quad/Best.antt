-- ===== src/Quad/Best.antt =====
-- The search for a level (src/osgGISProjects/QuadKey.cpp, getBestLodForCellsOfSize).
use osggis.Base.{
  ℕ, zero, suc, ◌+◌, ◌≤◌, ◌<◌, ◌≡◌, refl, true, false, some, arith, Bool-cases, inl, inr, All, List,
  [], ◌∷◌, ap, sym, ◌∙◌,
}
use mathlib.Core.Bool.{true≢false}
use native.Mathlib.Nat.{eq-or-lt_of_le}
use osggis.Geo.Point.{Plane}
use osggis.Quad.Key.{QuadMap, is_exceeded, best_lod_from, best_lod}

abbrev pub levels_below : ℕ → List ℕ
levels_below zero = []
levels_below (suc n) = n ∷ levels_below n

All-levels_below : {P : ℕ → Type 0} (n : ℕ) → ((i : ℕ) → i < n → P i) → All P (levels_below n)
All-levels_below zero h = tt
All-levels_below (suc n) h = (h n (omega arith), All-levels_below n λ i k. h i (omega arith))

module _ (c : Plane) where
  abbrev IsBest : QuadMap c → c.W → c.W → ℕ → ℕ → ℕ → Type 0
  IsBest m width height low limit r =
      (low ≤ r)
      × (r ≤ limit)
      × (is_exceeded c m width height r ≡ true)
      × ((i : ℕ) → low ≤ i → i < r → is_exceeded c m width height i ≡ false)

  above :
      (m : QuadMap c) (width height : c.W) (lod limit : ℕ)
      → is_exceeded c m width height lod ≡ false
      → is_exceeded c m width height limit ≡ true
      → lod ≤ limit
      → suc lod ≤ limit
  above m width height lod limit t e h = elim (eq-or-lt_of_le h) [
    | inl w ↦ absurd (true≢false (sym e ∙ ap (is_exceeded c m width height) (sym w) ∙ t))
    | inr w ↦ omega arith
  ]

  best_lod_from-IsBest :
      (fuel : ℕ) (m : QuadMap c) (width height : c.W) (lod limit : ℕ)
      → is_exceeded c m width height limit ≡ true
      → lod ≤ limit
      → limit < lod + fuel
      → (r : ℕ) × (best_lod_from c fuel m width height lod ≡ some r)
        × IsBest m width height lod limit r
  unfolding best_lod_from
  best_lod_from-IsBest zero m width height lod limit e h k = absurd (omega arith)
  best_lod_from-IsBest (suc fuel) m width height lod limit e h k =
      elim (Bool-cases (is_exceeded c m width height lod)) [
        | inl t ↦
            (lod, rw (best_lod_from, t) refl, (omega arith, h, t, λ i a b. absurd (omega arith)))
        | inr t ↦
            let l : suc lod ≤ limit = above m width height lod limit t e h in
            let (r, o, b) =
              best_lod_from-IsBest fuel m width height (suc lod) limit e l (omega arith) in
            (
              r,
              rw (best_lod_from, t) o,
              (
                omega (arith, b.0),
                b.1,
                b.2,
                λ i u v. elim (eq-or-lt_of_le u) [
                  | inl w ↦ ap (is_exceeded c m width height) (sym w) ∙ t
                  | inr w ↦ b.3 i w v
                ],
              ),
            )
      ]

  -- If the width or the height exceeds the cells of some level below the fuel, the search ends,
  -- with the lowest such level.
  pub best_lod-IsBest :
      (fuel : ℕ) (m : QuadMap c) (width height : c.W) (limit : ℕ)
      → is_exceeded c m width height limit ≡ true
      → limit < fuel
      → (r : ℕ) × (best_lod c fuel m width height ≡ some r)
        × (r ≤ limit)
        × (is_exceeded c m width height r ≡ true)
        × All (λ i. is_exceeded c m width height i ≡ false) (levels_below r)
  unfolding best_lod
  best_lod-IsBest fuel m width height limit e k =
      let (r, h, b) =
        best_lod_from-IsBest fuel m width height 0 limit e (omega arith) (omega arith) in
      (r, h, b.1, b.2, All-levels_below r λ i k. b.3 i (omega arith) k)
