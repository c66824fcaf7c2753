-- ===== src/Combine/Tests.antt =====
-- The theorem on CombineLinesFilter (src/osgGIS/CombineLinesFilter.cpp) on a plane of whole numbers,
-- and a run.
use osggis.Base.{
  ℕ, ◌+◌, ◌≤◌, ◌≡◌, refl, Bool, not, ◌&&◌, ◌||◌, ◌==◌, ltb, some, List, [], ◌∷◌, length, sum_of,
  All, arith,
}
use osggis.Geo.Point.{Point, new_point, point_eq}
use osggis.Geo.Grid.{grid, distance}
use osggis.Shapes.Shape.{Part}
use osggis.Shapes.Polygon.{Vectors}
use osggis.Combine.Defs.{combine_parts}
use osggis.Combine.Join.{IsKeyed, IsMeasure, measure, IsPart}
use osggis.Combine.Conserve.{combine_parts-measure}

-- osg::Vec3d::operator <
abbrev less : Point grid → Point grid → Bool
less p q = ltb p.x q.x || ((p.x == q.x) && (ltb p.y q.y || ((p.y == q.y) && ltb p.z q.z)))

abbrev vectors : Vectors grid
vectors = record {
  differ = λ p q. not ((p.x == q.x) && (p.y == q.y) && (p.z == q.z));
  length2 = λ p q. distance p.x q.x + distance p.y q.y;
}

abbrev Planar : Point grid → Type 0
Planar p = (p.z ≡ 0) × (p.dim ≡ 2) × (p.srs ≡ some 1)

less-IsKeyed : IsKeyed grid less Planar
unfolding point_eq
less-IsKeyed = record {
  same_trans = λ p q r hp hq hr h k. ground arith;
  same_refl = λ p h. ground arith;
  same-eq = λ p q h k. ground arith;
}

abbrev manhattan : Point grid → Point grid → ℕ
manhattan p q = distance p.x q.x + distance p.y q.y

manhattan-IsMeasure : IsMeasure grid less manhattan
manhattan-IsMeasure = record { m_sym = λ p q. omega arith; m_same = λ p q r h. ground arith }

abbrev at : ℕ → ℕ → Point grid
at x y = new_point grid x y (some 1)

-- Two lines that end at one point, one that goes on from the first, and one apart.
abbrev lines : List (Part grid)
lines =
    (at 0 0 ∷ at 1 0 ∷ [])
    ∷ (at 2 1 ∷ at 1 0 ∷ [])
    ∷ []
    ∷ (at 0 0 ∷ at 0 5 ∷ [])
    ∷ (at 7 7 ∷ at 8 7 ∷ [])
    ∷ []

abbrev planar : (x y : ℕ) → Planar (at x y)
planar x y = (refl, refl, refl)

combine_parts-measure_example :
    (r : List (Part grid)) × (combine_parts grid less vectors lines ≡ some r)
    × (length r ≤ length lines)
    × All (λ (part : Part grid). IsPart Planar part) r
    × (sum_of (measure grid manhattan) r ≡ sum_of (measure grid manhattan) lines)
combine_parts-measure_example =
    combine_parts-measure grid Planar less vectors less-IsKeyed manhattan manhattan-IsMeasure lines
      (
        (planar 0 0, (planar 1 0, tt)),
        (
          (planar 2 1, (planar 1 0, tt)),
          (tt, ((planar 0 0, (planar 0 5, tt)), ((planar 7 7, (planar 8 7, tt)), tt))),
        ),
      )

combine_run :
    combine_parts grid less vectors lines
    ≡ some ((at 7 7 ∷ at 8 7 ∷ []) ∷ (at 0 5 ∷ at 0 0 ∷ at 1 0 ∷ at 2 1 ∷ []) ∷ [])
unfolding combine_parts point_eq
combine_run = refl

-- The same place with a third coordinate.
abbrev at3 : ℕ → ℕ → Point grid
at3 x y = record (at x y) { dim = 3 }

-- Two lines that begin at one place, as points of different dimensions: the map takes the points
-- for one, `==` does not, and the lines are joined at the wrong end.
mismatch_run :
    combine_parts grid less vectors ((at3 1 0 ∷ at3 9 9 ∷ []) ∷ (at 1 0 ∷ at 0 0 ∷ []) ∷ [])
    ≡ some ((at3 1 0 ∷ at3 9 9 ∷ at 0 0 ∷ []) ∷ [])
unfolding combine_parts point_eq
mismatch_run = refl
