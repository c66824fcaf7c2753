-- ===== src/Index/Extent.antt =====
-- computeExtent of a node's entries (src/osgGIS/RTree.cpp.inline).
use osggis.Base.{◌<◌, List, [], ◌∷◌, length, arith}
use osggis.Index.Boxes.{Boxes, IsBoxes}
use osggis.Index.Node.{RtEntry, extent_from, compute_extent}
use osggis.Index.Inv.{AreBoxes, Covers}

module _ (b : Boxes) (law : IsBoxes b) (D : Type 0) where
  extent_from-Covers :
      (e : b.Box) (xs : List (RtEntry b D))
      → b.IsBox e
      → AreBoxes b law D xs
      → b.IsBox (extent_from b D e xs)
        × b.Within e (extent_from b D e xs)
        × Covers b law D (extent_from b D e xs) xs
  unfolding extent_from
  extent_from-Covers e [] h k = (h, law.Within_refl e h, tt)
  extent_from-Covers e (x ∷ xs) h k =
      let next = law.include-IsBox e x.extent h k.0 in
      let (p, q, r) = extent_from-Covers (b.include e x.extent) xs next k.1 in
      let end = extent_from b D (b.include e x.extent) xs in
      (
        p,
        law.Within_trans e (b.include e x.extent) end (law.Within_left e x.extent h k.0) q,
        (
          law.Within_trans x.extent (b.include e x.extent) end (law.Within_right e x.extent h k.0)
              q,
          r,
        ),
      )

  -- The extent computed for a node that has entries is a box and covers each of them, if their
  -- extents are boxes.
  pub compute_extent-Covers :
      (xs : List (RtEntry b D))
      → 0 < length xs
      → AreBoxes b law D xs
      → b.IsBox (compute_extent b D xs) × Covers b law D (compute_extent b D xs) xs
  unfolding compute_extent extent_from
  compute_extent-Covers [] l k = absurd (omega arith)
  compute_extent-Covers (x ∷ xs) l k =
      let (p, q, r) =
        extent_from-Covers (b.include b.nothing x.extent) xs (law.include_first x.extent k.0) k.1 in
      (
        p,
        (
          law.Within_trans x.extent (b.include b.nothing x.extent)
              (extent_from b D (b.include b.nothing x.extent) xs) (law.Within_first x.extent k.0) q,
          r,
        ),
      )
