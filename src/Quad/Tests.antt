-- ===== src/Quad/Tests.antt =====
-- The theorems on quadtree keys (src/osgGISProjects/QuadKey.cpp) at concrete cells, on a plane of whole
-- numbers.
use osggis.Base.{
  ◌≡◌, ◌↔◌, ◌||◌, refl, ℕ, ◌/◌, ◌%◌, ◌^◌, ◌≤◌, true, false, some, none, [], ◌∷◌, All, arith, ltb,
}
use osggis.Geo.Point.{Plane, IsPlane, new_point}
use osggis.Geo.Extent.{new_extent, cornered}
use osggis.Quad.Key.{
  QuadMap, QuadKey, new_map, new_key, cell_digits, cell_size, is_exceeded, best_lod,
}
use osggis.Quad.Digits.{decode, decode-cell_digits}
use osggis.Quad.Best.{best_lod-IsBest, levels_below}
use osggis.Quad.Ends.{Vanishes, best_lod_iff}
use osggis.Geo.Grid

-- Multiplication is division by the second number, so that `half` is 2.
abbrev grid : Plane
grid = record Grid.grid { half = 2; mul = λ a b. a / b }

grid-IsPlane : IsPlane grid
grid-IsPlane = record {
  le_left = Grid.grid-IsPlane.le_left;
  le_right = Grid.grid-IsPlane.le_right;
  le_trans = Grid.grid-IsPlane.le_trans;
  le_of_lt = Grid.grid-IsPlane.le_of_lt;
  le_of_not_lt = Grid.grid-IsPlane.le_of_not_lt;
  lt_of_not_le = Grid.grid-IsPlane.lt_of_not_le;
  not_lt_of_le = Grid.grid-IsPlane.not_lt_of_le;
  fabs-sub = Grid.grid-IsPlane.fabs-sub;
  transform_srs = Grid.grid-IsPlane.transform_srs;
  transform_self = Grid.grid-IsPlane.transform_self;
}

abbrev world : QuadMap grid
world = new_map grid (
    cornered grid (record (new_extent grid) {
      sw = new_point grid 0 0 (some 1);
      ne = new_point grid 64 64 (some 1);
    }))

abbrev key : QuadKey grid
key = new_key grid (49 ∷ 50 ∷ []) world

decode-cell_digits_example : decode (cell_digits 5 3 3) ≡ (5 % 2 ^ 3, 3 % 2 ^ 3)
decode-cell_digits_example = decode-cell_digits 5 3 3

exceeded : is_exceeded grid world 20 20 2 ≡ true
unfolding cell_size
exceeded = refl

best_lod-IsBest_example :
    (r : ℕ) × (best_lod grid 9 world 20 20 ≡ some r)
    × (r ≤ 2)
    × (is_exceeded grid world 20 20 r ≡ true)
    × All (λ i. is_exceeded grid world 20 20 i ≡ false) (levels_below r)
best_lod-IsBest_example = best_lod-IsBest grid 9 world 20 20 2 exceeded (omega arith)

-- Seven halvings bring 64 to 0.
vanishes : Vanishes grid 64
vanishes size h = (7, h)

best_lod_iff_example :
    ((fuel : ℕ) × (r : ℕ) × (best_lod grid fuel world 0 20 ≡ some r))
    ↔ ((ltb 0 0 || ltb 0 20) ≡ true)
best_lod_iff_example =
    best_lod_iff grid world 0 20 grid-IsPlane (λ w h. ground arith) refl refl vanishes vanishes refl
      refl

-- A search for cells of 0 by 0 is still going after fifty levels.
endless_run : best_lod grid 50 world 0 0 ≡ none
unfolding best_lod cell_size
endless_run = refl
