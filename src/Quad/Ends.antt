-- ===== src/Quad/Ends.antt =====
-- For which sizes the search for a level (src/osgGISProjects/QuadKey.cpp) ends.
use osggis.Base.{
  ℕ, zero, suc, ◌≡◌, ◌↔◌, refl, ap, sym, ◌∙◌, Bool, true, false, ◌||◌, some, some-inj, arith,
  Bool-cases, inl, inr,
}
use osggis.Geo.Point.{Plane, IsPlane}
use osggis.Geo.Extent.{get_width, get_height}
use osggis.Quad.Key.{QuadMap, cell_size, halve_times, is_exceeded, best_lod, best_lod_from}
use osggis.Quad.Best.{best_lod-IsBest}

or_true : (b : Bool) → (b || true) ≡ true
or_true true = refl
or_true false = refl

module _ (c : Plane) where
  open c use {W, mul, half, lt, le}

  -- A size halved so many times.
  abbrev pub halved : ℕ → W → W
  halved zero w = w
  halved (suc n) w = halved n (mul w half)

  -- Halves of the size come below each positive size, as they do for a finite `double`.
  abbrev pub Vanishes : W → Type 0
  Vanishes w = (size : W) → lt c.zero size ≡ true → (n : ℕ) × (lt (halved n w) size ≡ true)

  -- The half of what is not negative is not negative.
  abbrev pub KeepsSign : Type 0
  KeepsSign = (w : W) → le c.zero w ≡ true → le c.zero (mul w half) ≡ true

  halve_times_lem : (n : ℕ) (a b : W) → halve_times c n (a, b) ≡ (halved n a, halved n b)
  halve_times_lem zero a b = refl
  halve_times_lem (suc n) a b = halve_times_lem n (mul a half) (mul b half)

  halved_nonneg : KeepsSign → (n : ℕ) (w : W) → le c.zero w ≡ true → le c.zero (halved n w) ≡ true
  halved_nonneg k zero w h = h
  halved_nonneg k (suc n) w h = halved_nonneg k n (mul w half) (k w h)

  module _ (m : QuadMap c) (width height : W) where
    is_exceeded_lem :
        (n : ℕ)
        → is_exceeded c m width height n ≡ (
            lt (halved n (get_width c m.bounds)) width
            || lt (halved n (get_height c m.bounds)) height)
    unfolding cell_size
    is_exceeded_lem n =
        ap (λ (z : W × W). lt z.0 width || lt z.1 height)
          (halve_times_lem n (get_width c m.bounds) (get_height c m.bounds))

    -- An end of the search is at a level whose cells are exceeded.
    best_lod_from_exceeded :
        (fuel lod r : ℕ)
        → best_lod_from c fuel m width height lod ≡ some r
        → is_exceeded c m width height r ≡ true
    unfolding best_lod_from
    best_lod_from_exceeded zero lod r e = absurd (cc)
    best_lod_from_exceeded (suc fuel) lod r e =
        elim (Bool-cases (is_exceeded c m width height lod)) [
          | inl t ↦
              let z : some lod ≡ some r = rw t at e in
              ap (is_exceeded c m width height) (sym (some-inj lod r z)) ∙ t
          | inr t ↦ best_lod_from_exceeded fuel (suc lod) r (rw t at e)
        ]

    -- Where neither size is positive no cell is exceeded.
    not_exceeded :
        IsPlane c
        → KeepsSign
        → le c.zero (get_width c m.bounds) ≡ true
        → le c.zero (get_height c m.bounds) ≡ true
        → le width c.zero ≡ true
        → le height c.zero ≡ true
        → (n : ℕ) → is_exceeded c m width height n ≡ false
    not_exceeded laws k w h x y n =
        let a = halved n (get_width c m.bounds) in
        let b = halved n (get_height c m.bounds) in
        let below =
          laws.not_lt_of_le width a
            (laws.le_trans width c.zero a x (halved_nonneg k n (get_width c m.bounds) w)) in
        let below' =
          laws.not_lt_of_le height b
            (laws.le_trans height c.zero b y (halved_nonneg k n (get_height c m.bounds) h)) in
        is_exceeded_lem n ∙ rw (below, below') refl

    -- The search with the fuel that a level gives.
    ends_at :
        (n : ℕ)
        → is_exceeded c m width height n ≡ true
        → (fuel : ℕ) × (r : ℕ) × (best_lod c fuel m width height ≡ some r)
    ends_at n e =
        let (r, h, _, _, _) = best_lod-IsBest c (suc n) m width height n e (omega arith) in
        (suc n, r, h)

    -- On a map whose width and height are not negative and vanish when they are halved again and again,
    -- the search ends, with some fuel, exactly for the sizes of which the width or the height is
    -- above 0. For others, such as 0 by 0, it never ends. The order of `double` and the sign of a half
    -- are hypotheses, and that the sizes and 0 are no NaN.
    pub best_lod_iff :
        IsPlane c
        → KeepsSign
        → le c.zero (get_width c m.bounds) ≡ true
        → le c.zero (get_height c m.bounds) ≡ true
        → Vanishes (get_width c m.bounds)
        → Vanishes (get_height c m.bounds)
        → le width width ≡ true
        → le height height ≡ true
        → ((fuel : ℕ) × (r : ℕ) × (best_lod c fuel m width height ≡ some r))
          ↔ ((lt c.zero width || lt c.zero height) ≡ true)
    unfolding best_lod
    best_lod_iff laws k w h v v' x y = (
      λ (fuel, r, e).
          let t = best_lod_from_exceeded fuel 0 r e in
          elim (Bool-cases (lt c.zero width || lt c.zero height)) [
            | inl u ↦ u
            | inr u ↦
                let zero' = laws.le_left c.zero (get_width c m.bounds) w in
                let f =
                  not_exceeded laws k w h (laws.le_of_not_lt c.zero width zero' x (ground arith))
                    (laws.le_of_not_lt c.zero height zero' y (ground arith)) r in
                absurd (let z : true ≡ false = sym t ∙ f in cc)
          ],
      λ u. elim (Bool-cases (lt c.zero width)) [
        | inl a ↦ let (n, e) = v width a in ends_at n (is_exceeded_lem n ∙ rw e refl)
        | inr a ↦
            let b : lt c.zero height ≡ true = ground arith in
            let (n, e) = v' height b in ends_at n (is_exceeded_lem n ∙ rw e (or_true _))
      ],
    )
