-- ===== src/Index/Reopened.antt =====
-- An index that is written to the work directory and loaded again
-- (src/osgGIS/RTreeSpatialIndex.cpp).
use mathlib.Core.Path.{subst}
use osggis.Base.{
  ℕ, ◌<◌, ◌≤◌, ◌≡◌, ◌↔◌, In, refl, true, false, none, some, List, [], ◌∷◌, map, length, ltb, ◌>>=◌,
  Bytes, All, arith,
}
use osggis.Index.Boxes.{Boxes, IsBoxes}
use osggis.Index.Node.{RtEntry}
use osggis.Index.Tree.{new_tree}
use osggis.Index.Table.{write_same}
use osggis.Index.Service.{IndexedFeature, RTreeSpatialIndex, build_index, query, scan}
use osggis.Index.Refine.{indexed, items_onto, build_from-IsSettled, new_tree-IsSettled, find-scan}
use osggis.Index.File.{Disk, write_to, read_from}
use osggis.Index.Lines.{IsDisk, stored_extent, stored_entry}
use osggis.Index.Reload.{stored_tree, read_from-write_to}
use osggis.Index.Adjust.{IsSettled}
use osggis.Index.Rounded.{IsRounding, stored_tree-IsSettled}
use osggis.Index.Keep.{Has, build_from-Has}
use osggis.Index.Cached.{CacheFile, load, save, build_cached}

module _ {b : Boxes} (boxes : IsBoxes b) {D : Type 0} (k : Disk b D) (round : k.Number → k.Number)
    (law : IsDisk k round) where
  -- The features with the extents that the file keeps.
  abbrev pub kept_features : List (IndexedFeature b D) → List (IndexedFeature b D)
  kept_features gs =
      map (λ (g : IndexedFeature b D). record g { extent = stored_extent k round law g.extent }) gs

  items_onto-kept_features :
      (gs : List (IndexedFeature b D)) (items : List (RtEntry b D))
      → map (stored_entry k round law) (items_onto b boxes D gs items)
        ≡ items_onto b boxes D (kept_features gs) (map (stored_entry k round law) items)
  items_onto-kept_features [] items = refl
  items_onto-kept_features (g ∷ gs) items = items_onto-kept_features gs (_ ∷ items)

  -- The trees of the indexes that are built have their first node.
  build_index-Has :
      (fuel : ℕ) (fs : List (IndexedFeature b D)) (index : RTreeSpatialIndex b D)
      → build_index b D fuel fs ≡ some index
      → Has b D 1 index.rtree.node_table
  unfolding build_index new_tree
  build_index-Has fuel fs index e =
      build_from-Has b D 1 fuel fs (record { rtree = new_tree b D; extent = b.invalid }) index e
        (_, write_same b D (λ id. none) 1 _)

  -- What a later process finds in the file of an index.
  abbrev kept_index : RTreeSpatialIndex b D → RTreeSpatialIndex b D
  kept_index index = record {
    rtree = stored_tree k round law index.rtree;
    extent = stored_extent k round law index.extent;
  }

  -- An index with the file that it leaves and the levels of its tree.
  reopen :
      (fuel : ℕ) (fs : List (IndexedFeature b D))
      → All (λ (g : IndexedFeature b D). b.IsBox g.extent) (indexed b boxes D fs)
      → length fs < fuel
      → (index : RTreeSpatialIndex b D) × (w : Bytes) × (high : ℕ) × (build_index b D fuel fs
          ≡ some index)
        × (write_to k index.rtree index.extent ≡ some w)
        × (read_from k (new_tree b D) w
            ≡ some (some ((kept_index index).rtree, (kept_index index).extent)))
        × IsSettled b boxes D index.rtree (items_onto b boxes D (indexed b boxes D fs) []) high
        × (high < fuel)
  unfolding build_index
  reopen fuel fs h l =
      let start : RTreeSpatialIndex b D = record { rtree = new_tree b D; extent = b.invalid } in
      let (index, high, e, s, top) =
        build_from-IsSettled b boxes D fuel start fs [] 0 (new_tree-IsSettled b boxes D) h
          (omega arith) in
      let items = items_onto b boxes D (indexed b boxes D fs) [] in
      let (first, at) = build_index-Has fuel fs index e in
      let (w, p, g) =
        read_from-write_to boxes k round law index.rtree items high first index.extent s at in
      (index, w, high, e, p, g, s, omega arith)

  -- On a store whose features have boxes for their extents, with fuel above their number, buildIndex
  -- without a file, or with one that is not newer than the store, makes an index and writes it. If
  -- what the file keeps of an extent is rounded in such a way that boxes stay boxes and containment
  -- is kept, then a later call with a file of that content that is newer than the store, whatever the
  -- features then are, loads an index and writes nothing. With that fuel each query of the loaded index ends, with
  -- exactly the identifiers of a linear scan of the features that were inserted, with their extents as
  -- the file keeps them.
  pub build_cached-scan :
      (fuel later_fuel mod_time later_time : ℕ) (fs later : List (IndexedFeature b D))
      (file : CacheFile)
      → IsRounding b (stored_extent k round law)
      → All (λ (g : IndexedFeature b D). b.IsBox g.extent) (indexed b boxes D fs)
      → length fs < fuel
      → later_time < file.mtime
      → file.mtime ≤ mod_time
      → (index loaded : RTreeSpatialIndex b D) × (w : Bytes) × (build_cached k fuel true none
            mod_time fs
          ≡ some (index, some w))
        × (build_cached k fuel true (some file) mod_time fs ≡ some (index, some w))
        × (build_cached k later_fuel true (some (record file { content = some w })) later_time later
            ≡ some (loaded, none))
        × ((q : b.Box)
            → (r : List D) × (query b D fuel loaded q ≡ some r)
              × ((d : D) → In d r ↔ In d (scan b D q (kept_features (indexed b boxes D fs)))))
  unfolding build_cached load save query
  build_cached-scan fuel later_fuel mod_time later_time fs later file rounding h l newer older =
      let (index, w, high, e, p, g, s, top) = reopen fuel fs h l in
      let gs = indexed b boxes D fs in
      let old : ltb mod_time file.mtime ≡ false = ground arith in
      let new : ltb later_time file.mtime ≡ true = ground arith in
      let s' =
        subst (λ xs. IsSettled b boxes D (stored_tree k round law index.rtree) xs high)
          (items_onto-kept_features gs [])
          (stored_tree-IsSettled boxes k round law rounding index.rtree (items_onto b boxes D gs [])
            high s) in
      (
        index,
        kept_index index,
        w,
        rw (e, ◌>>=◌, p) refl,
        rw (old, e, ◌>>=◌, p) refl,
        rw (new, g, ◌>>=◌) refl,
        λ q. find-scan b boxes D fuel (kept_index index).rtree (kept_features gs) high q s' top,
      )
