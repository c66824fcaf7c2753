-- ===== src/Index/Service.antt =====
-- RTreeSpatialIndex and SimpleSpatialIndex (src/osgGIS/RTreeSpatialIndex.cpp, SimpleSpatialIndex.cpp):
-- how they are built from the features of a store, and the identifiers that their queries yield. A
-- store is seen as the features that its cursor goes through.
use osggis.Base.{ℕ, Bool, true, false, not, ◌&&◌, Option, some, List, [], ◌∷◌, if◌then◌else◌, ◌>>=◌}
use osggis.Index.Boxes.{Boxes}
use osggis.Index.Tree.{RTree, insert, new_tree, find}

module _ (b : Boxes) (D : Type 0) where
  open b use {Box, invalid, nothing, include, is_valid, is_infinite, intersects}

  -- Feature::getExtent and getOID.
  pub record IndexedFeature : Type 0 where
    pub extent : Box
    pub oid : D

  pub record RTreeSpatialIndex : Type 0 where
    pub rtree : RTree b D
    pub extent : Box

  abbrev pub is_usable : IndexedFeature → Bool
  is_usable f = is_valid f.extent && not (is_infinite f.extent)

  abbrev pub extend : Box → IndexedFeature → Box
  extend extent f = if is_valid extent then include extent f.extent else f.extent

  -- The loop of buildIndex over the features; `fuel` is that of insert.
  unfoldable pub build_from : ℕ → RTreeSpatialIndex → List IndexedFeature → Option RTreeSpatialIndex
  build_from fuel index [] = some index
  build_from fuel index (f ∷ fs) = elim (is_usable f) [
    | true ↦ insert b D fuel index.rtree f.extent f.oid >>= λ t.
        build_from fuel (record { rtree = t; extent = extend index.extent f }) fs
    | false ↦ build_from fuel index fs
  ]

  -- buildIndex when there is no work directory, hence no cached index.
  unfoldable pub build_index : ℕ → List IndexedFeature → Option RTreeSpatialIndex
  unfolding build_from
  build_index fuel fs = build_from fuel (record { rtree = new_tree b D; extent = invalid }) fs

  -- The identifiers of getCursor, for the query in the store's spatial reference.
  unfoldable pub query : ℕ → RTreeSpatialIndex → Box → Option (List D)
  query fuel index q = find b D fuel index.rtree q

  -- The identifiers of SimpleSpatialIndex::getCursor.
  unfoldable pub scan : Box → List IndexedFeature → List D
  scan q [] = []
  scan q (f ∷ fs) = elim (intersects f.extent q) [ true ↦ f.oid ∷ scan q fs | false ↦ scan q fs ]

  -- SimpleSpatialIndex::buildIndex, from the extent on.
  unfoldable pub simple_extent : Box → List IndexedFeature → Box
  simple_extent extent [] = extent
  simple_extent extent (f ∷ fs) = simple_extent (include extent f.extent) fs
