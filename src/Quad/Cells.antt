-- ===== src/Quad/Cells.antt =====
-- The extents of keys (src/osgGISProjects/QuadKey.cpp, getExtent) in the doubles as they are: no law
-- of arithmetic is used.
use osggis.Base.{ℕ, ◌+◌, ◌≡◌, refl, ap, sym, [], ◌∷◌, ◌++◌, length, Bytes, Bool, false, true}
use osggis.Geo.Point.{Plane}
use osggis.Geo.Extent.{Extent}
use osggis.Quad.Key.{
  zero_char, QuadKey, Frame, get_lod, create_sub_key, halve_times, cell_size, descend, walk,
  map_frame, frame_extent, get_extent, stored, computed,
}

module _ (c : Plane) where
  walk-append : (f : Frame c) (qs rs : Bytes) → walk c f (qs ++ rs) ≡ walk c (walk c f qs) rs
  unfolding walk
  walk-append f [] rs = refl
  walk-append f (q ∷ qs) rs = walk-append (descend c f q) qs rs

  walk-size :
      (f : Frame c) (qs : Bytes)
      → ◌≡◌ {A = c.W × c.W}
          ((walk c f qs).dx, (walk c f qs).dy)
          (halve_times c (length qs) (f.dx, f.dy))
  unfolding walk
  walk-size f [] = refl
  walk-size f (q ∷ qs) = walk-size (descend c f q) qs

  -- The cell of a key is as large as getCellSize says for its level.
  pub walk-cell_size :
      (k : QuadKey c)
      → ◌≡◌ {A = c.W × c.W}
          ((walk c (map_frame c k.quad_map) k.qstr).dx, (walk c (map_frame c k.quad_map) k.qstr).dy)
          (cell_size c k.quad_map (get_lod c k))
  unfolding cell_size get_lod
  walk-cell_size k = walk-size (map_frame c k.quad_map) k.qstr

  -- The extent of a sub key is the quadrant of its key's cell.
  pub get_extent-create_sub_key :
      (k : QuadKey c) (quadrant : ℕ)
      → (get_extent c (create_sub_key c quadrant k)).0
        ≡ frame_extent c
            (descend c (walk c (map_frame c k.quad_map) k.qstr) (zero_char + quadrant))
            k.quad_map
  unfolding get_extent create_sub_key walk
  get_extent-create_sub_key k quadrant =
      ap (λ f. frame_extent c f k.quad_map)
        (walk-append (map_frame c k.quad_map) k.qstr ((zero_char + quadrant) ∷ []))

  stored_again :
      (k : QuadKey c) (e : Extent c) (b : Bool)
      → e ≡ computed c k
      → (stored c b (record k { extent = e }) (computed c k)).0 ≡ e
  stored_again k e true h = refl
  stored_again k e false h = sym h

  stored_twice :
      (k : QuadKey c) (b : Bool)
      → k.extent.is_valid ≡ b
      → (get_extent c (stored c b k (computed c k)).1).0 ≡ (stored c b k (computed c k)).0
  unfolding get_extent
  stored_twice k true h = ap (λ b. (stored c b k (computed c k)).0) h
  stored_twice k false h = stored_again k (computed c k) (computed c k).is_valid refl

  -- A second call of `getExtent` gives the same extent as the first one.
  pub get_extent_again : (k : QuadKey c) → (get_extent c (get_extent c k).1).0 ≡ (get_extent c k).0
  unfolding get_extent
  get_extent_again k = stored_twice k k.extent.is_valid refl
