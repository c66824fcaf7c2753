-- ===== src/Index/Boxes.antt =====
-- What the spatial indexes take from GeoExtent and from `double`: the operations, and the laws on
-- the boxes among the extents. Geo fills the interface (Index/OfExtents).
use osggis.Base.{◌≡◌, Bool, true}

pub record Boxes : Type 1 where
  pub Box : Type 0
  pub Area : Type 0
  -- GeoExtent()
  pub nothing : Box
  -- GeoExtent::invalid()
  pub invalid : Box
  -- expandToInclude( extent )
  pub include : Box → Box → Box
  pub is_valid : Box → Bool
  pub is_infinite : Box → Bool
  pub area : Box → Area
  pub intersects : Box → Box → Bool
  -- expand( 0.0001, 0.0001 )
  pub inflate : Box → Box
  pub minus : Area → Area → Area
  pub less : Area → Area → Bool
  pub is_zero : Area → Bool
  pub minus_one : Area
  -- DBL_MAX
  pub max_area : Area
  -- The extents that have an order of corners, and the containment of these.
  pub IsBox : Box → Type 0
  pub Within : Box → Box → Type 0

pub record IsBoxes (b : Boxes) : Type 1 where
  pub Within_refl : (x : b.Box) → b.IsBox x → b.Within x x
  pub Within_trans : (x y z : b.Box) → b.Within x y → b.Within y z → b.Within x z
  pub include_first : (x : b.Box) → b.IsBox x → b.IsBox (b.include b.nothing x)
  pub Within_first : (x : b.Box) → b.IsBox x → b.Within x (b.include b.nothing x)
  pub include-IsBox : (x y : b.Box) → b.IsBox x → b.IsBox y → b.IsBox (b.include x y)
  pub Within_left : (x y : b.Box) → b.IsBox x → b.IsBox y → b.Within x (b.include x y)
  pub Within_right : (x y : b.Box) → b.IsBox x → b.IsBox y → b.Within y (b.include x y)
  -- What meets a box meets each box around it.
  pub intersects_mono :
      (x y q : b.Box)
      → b.IsBox x
      → b.IsBox y
      → b.Within x y
      → b.intersects x q ≡ true
      → b.intersects y q ≡ true
