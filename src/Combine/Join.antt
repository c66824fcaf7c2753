-- ===== src/Combine/Join.antt =====
-- The joins of two segments (src/osgGIS/CombineLinesFilter.cpp) keep each measure of their edges.
use mathlib.Core.List.{reverse, reverse_aux, reverse_aux-eq, reverse-append, reverse-reverse}
use osggis.Base.{
  ℕ, ◌+◌, ◌≡◌, refl, sym, ap, ◌∙◌, Bool, true, false, Option, some, List, [], ◌∷◌, ◌++◌, All,
  All-append, arith, Bool-cases, inl, inr, append-nil,
}
use osggis.Geo.Point.{Plane, Point, point_eq}
use osggis.Shapes.Shape.{Part}
use osggis.Shapes.Polygon.{last_of, init_of}
use osggis.Combine.Map.{IsEnd}
use osggis.Combine.Defs.{same_key, join_front, join_back}

-- osg::Vec3d::operator < is an order up to equal coordinates on the points that are `Ok`, and equal
-- coordinates are what `==` asks for there: the points are valid, of one spatial reference and
-- dimension, and not NaN.
pub record IsKeyed (c : Plane) (less : Point c → Point c → Bool) (Ok : Point c → Type 0)
    : Type 0 where
  pub same_trans :
      (p q r : Point c)
      → Ok p
      → Ok q
      → Ok r
      → same_key c less p q ≡ true
      → same_key c less q r ≡ true
      → same_key c less p r ≡ true
  pub same_refl : (p : Point c) → Ok p → same_key c less p p ≡ true
  pub same-eq : (p q : Point c) → Ok p → Ok q → point_eq c p q ≡ same_key c less p q

-- A measure of edges that takes no heed of their direction and tells no points of equal coordinates
-- apart: a length, or the number of the edges between two points.
pub record IsMeasure (c : Plane) (less : Point c → Point c → Bool) (m : Point c → Point c → ℕ)
    : Type 0 where
  pub m_sym : (p q : Point c) → m p q ≡ m q p
  pub m_same : (p q r : Point c) → same_key c less p q ≡ true → m p r ≡ m q r

module _ (c : Plane) where
  abbrev along : (Point c → Point c → ℕ) → Point c → Part c → ℕ
  along m p [] = 0
  along m p (q ∷ qs) = m p q + along m q qs

  -- The sum over the edges of a part.
  abbrev pub measure : (Point c → Point c → ℕ) → Part c → ℕ
  measure m [] = 0
  measure m (p ∷ ps) = along m p ps

  module _ (less : Point c → Point c → Bool) (m : Point c → Point c → ℕ)
      (law : IsMeasure c less m) where
    along-same :
        (p q : Point c) (ps : Part c) → same_key c less p q ≡ true → along m p ps ≡ along m q ps
    along-same p q [] h = refl
    along-same p q (r ∷ rs) h = ap (λ z. z + along m r rs) (law.m_same p q r h)

    measure-reverse_aux :
        (q : Point c) (ps qs : Part c)
        → measure m (reverse_aux ps (q ∷ qs)) ≡ along m q ps + along m q qs
    measure-reverse_aux q [] qs = omega arith
    measure-reverse_aux q (x ∷ xs) qs =
        omega (arith, measure-reverse_aux x xs (q ∷ qs), law.m_sym x q)

    measure-reverse : (ps : Part c) → measure m (reverse ps) ≡ measure m ps
    measure-reverse [] = refl
    measure-reverse (p ∷ ps) = omega (arith, measure-reverse_aux p ps [])

    front_front :
        (p q : Point c) (ps qs : Part c)
        → same_key c less p q ≡ true
        → measure m (reverse ps ++ (q ∷ qs)) ≡ along m p ps + along m q qs
    front_front p q ps qs h =
        ap (measure m) (sym (reverse_aux-eq ps (q ∷ qs)))
        ∙ omega (arith, measure-reverse_aux q ps qs, along-same p q ps h)

    along-append :
        (q p r : Point c) (qs ps : Part c)
        → along m q (qs ++ (r ∷ ps)) ≡ along m q qs + m (last_of c q qs) r + along m r ps
    along-append q p r [] ps = omega arith
    along-append q p r (x ∷ xs) ps = omega (arith, along-append x p r xs ps)

    front_back :
        (p q : Point c) (ps qs : Part c)
        → same_key c less p (last_of c q qs) ≡ true
        → measure m ((q ∷ qs) ++ ps) ≡ along m p ps + along m q qs
    front_back p q [] qs h = rw (append-nil qs) (omega arith)
    front_back p q (r ∷ rs) qs h =
        omega (arith, along-append q p r qs rs, law.m_same p (last_of c q qs) r h)

    along-init_of :
        (p x q : Point c) (xs qs : Part c)
        → same_key c less (last_of c x xs) q ≡ true
        → along m p (init_of c x xs ++ (q ∷ qs)) ≡ along m p (x ∷ xs) + along m q qs
    along-init_of p x q [] qs h = omega (arith, law.m_same x q p h, law.m_sym p x, law.m_sym p q)
    along-init_of p x q (y ∷ ys) qs h = omega (arith, along-init_of x y q ys qs h)

    back_front :
        (p q : Point c) (ps qs : Part c)
        → same_key c less (last_of c p ps) q ≡ true
        → measure m (init_of c p ps ++ (q ∷ qs)) ≡ along m p ps + along m q qs
    back_front p q [] qs h = omega arith
    back_front p q (x ∷ xs) qs h = along-init_of p x q xs qs h

    reverse-ends :
        (q : Point c) (qs acc : Part c)
        → reverse_aux (q ∷ qs) acc ≡ last_of c q qs ∷ reverse_aux (init_of c q qs) acc
    reverse-ends q [] acc = refl
    reverse-ends q (x ∷ xs) acc = reverse-ends x xs (q ∷ acc)

    back_back :
        (p q : Point c) (ps qs : Part c)
        → same_key c less (last_of c p ps) (last_of c q qs) ≡ true
        → measure m ((q ∷ qs) ++ reverse (init_of c p ps)) ≡ along m p ps + along m q qs
    back_back p q ps qs h =
        let i = init_of c p ps in
        let flipped =
          reverse-append (q ∷ qs) (reverse i)
          ∙ ap (λ z. z ++ reverse (q ∷ qs)) (reverse-reverse i) in
        sym (measure-reverse ((q ∷ qs) ++ reverse i))
        ∙ ap (measure m) flipped
        ∙ ap (λ z. measure m (i ++ z)) (reverse-ends q qs [])
        ∙ back_front p (last_of c q qs) ps (reverse (init_of c q qs)) h
        ∙ ap (λ z. along m p ps + measure m z) (sym (reverse-ends q qs []))
        ∙ ap (λ z. along m p ps + z) (measure-reverse (q ∷ qs))

-- A part of points that are `Ok`, with its first one.
abbrev pub IsPart : {A : Type 0} → (A → Type 0) → List A → Type 0
IsPart Ok [] = ⊥
IsPart Ok (p ∷ ps) = Ok p × All Ok ps

module _ (c : Plane) (Ok : Point c → Type 0) where
  pub last_of-Ok : (p : Point c) (ps : Part c) → Ok p → All Ok ps → Ok (last_of c p ps)
  last_of-Ok p [] h k = h
  last_of-Ok p (q ∷ qs) h k = last_of-Ok q qs k.0 k.1

  init_of-Ok : (p : Point c) (ps : Part c) → Ok p → All Ok ps → All Ok (init_of c p ps)
  init_of-Ok p [] h k = tt
  init_of-Ok p (q ∷ qs) h k = (h, init_of-Ok q qs k.0 k.1)

  reverse_aux-Ok : (ps acc : Part c) → All Ok ps → All Ok acc → All Ok (reverse_aux ps acc)
  reverse_aux-Ok [] acc h k = k
  reverse_aux-Ok (p ∷ ps) acc h k = reverse_aux-Ok ps (p ∷ acc) h.1 (h.0, k)

  append-IsPart : (ps qs : Part c) → All Ok ps → IsPart Ok qs → IsPart Ok (ps ++ qs)
  append-IsPart [] qs h k = k
  append-IsPart (p ∷ ps) [] h k = absurd k
  append-IsPart (p ∷ ps) (q ∷ qs) h k = (h.0, All-append Ok ps (q ∷ qs) h.1 k)

  module _ (less : Point c → Point c → Bool) (keyed : IsKeyed c less Ok) (m : Point c → Point c → ℕ)
      (law : IsMeasure c less m) where
    -- What a join makes of two parts.
    abbrev pub IsJoin : Option (Part c) → Part c → Part c → Type 0
    IsJoin o s e =
        (r : Part c) × (o ≡ some r) × IsPart Ok r × (measure c m r ≡ measure c m s + measure c m e)

    same_sym : (p q : Point c) → same_key c less p q ≡ true → same_key c less q p ≡ true
    same_sym p q h = ground arith

    -- If `==` tells the point from the first one, it is the last one.
    other_end :
        (k p q : Point c) (qs : Part c)
        → Ok k
        → Ok p
        → Ok q
        → All Ok qs
        → same_key c less k p ≡ true
        → IsEnd c Ok less k (q ∷ qs)
        → point_eq c p q ≡ false
        → same_key c less p (last_of c q qs) ≡ true
    other_end k p q qs hk hp hq hqs h (inl e) ne =
        let t = keyed.same_trans p k q hp hk hq (same_sym k p h) e in
        absurd (let z = sym ne ∙ keyed.same-eq p q hp hq ∙ t in cc)
    other_end k p q qs hk hp hq hqs h (inr e) ne =
        keyed.same_trans p k (last_of c q qs) hp hk (last_of-Ok q qs hq hqs) (same_sym k p h) e

    pub join_front-IsJoin :
        (k p : Point c) (ps e : Part c)
        → Ok k
        → IsPart Ok (p ∷ ps)
        → IsPart Ok e
        → same_key c less k p ≡ true
        → IsEnd c Ok less k e
        → IsJoin (join_front c p ps e) (p ∷ ps) e
    join_front-IsJoin k p ps [] hk hp he h end = absurd he
    join_front-IsJoin k p ps (q ∷ qs) hk hp he h end = elim (Bool-cases (point_eq c p q)) [
      | inl t ↦
          let same = sym (keyed.same-eq p q hp.0 he.0) ∙ t in
          (
            reverse ps ++ (q ∷ qs),
            rw t refl,
            append-IsPart (reverse ps) (q ∷ qs) (reverse_aux-Ok ps [] hp.1 tt) he,
            front_front c less m law p q ps qs same,
          )
      | inr t ↦
          let same = other_end k p q qs hk hp.0 he.0 he.1 h end t in
          (
            (q ∷ qs) ++ ps,
            rw t refl,
            (he.0, All-append Ok qs ps he.1 hp.1),
            front_back c less m law p q ps qs same,
          )
    ]

    pub join_back-IsJoin :
        (k p : Point c) (ps e : Part c)
        → Ok k
        → IsPart Ok (p ∷ ps)
        → IsPart Ok e
        → same_key c less k (last_of c p ps) ≡ true
        → IsEnd c Ok less k e
        → IsJoin (join_back c p ps e) (p ∷ ps) e
    join_back-IsJoin k p ps [] hk hp he h end = absurd he
    join_back-IsJoin k p ps (q ∷ qs) hk hp he h end =
        let b = last_of c p ps in
        let hb = last_of-Ok p ps hp.0 hp.1 in
        let i = init_of c p ps in
        let hi = init_of-Ok p ps hp.0 hp.1 in
        elim (Bool-cases (point_eq c b q)) [
          | inl t ↦
              let same = sym (keyed.same-eq b q hb he.0) ∙ t in
              (
                i ++ (q ∷ qs),
                rw t refl,
                append-IsPart i (q ∷ qs) hi he,
                back_front c less m law p q ps qs same,
              )
          | inr t ↦
              let same = other_end k b q qs hk hb he.0 he.1 h end t in
              (
                (q ∷ qs) ++ reverse i,
                rw t refl,
                (he.0, All-append Ok qs (reverse i) he.1 (reverse_aux-Ok i [] hi tt)),
                back_back c less m law p q ps qs same,
              )
        ]
