-- ===== src/Index/Tests.antt =====
-- The theorems on the spatial index (src/osgGIS/RTree.cpp.inline, RTreeSpatialIndex.cpp) on extents
-- of a plane of whole numbers, and runs of the model.
use osggis.Base.{
  ◌≡◌, refl, ℕ, zero, suc, ◌+◌, ◌≤◌, ◌↔◌, true, none, some, arith, All, In, [], ◌∷◌, List, length,
  Bytes, ◌>>=◌,
}
use osggis.Geo.Extent.{get_area, expand}
use osggis.Geo.Grid.{grid, grid-IsPlane, box}
use osggis.Index.Boxes.{Boxes, IsBoxes}
use osggis.Index.Node.{RtEntry, data_slot, write}
use osggis.Index.File.{Disk, write_to, read_from}
use osggis.Index.Lines.{stored_extent}
use osggis.Index.Reload.{stored_tree, read_from-write_to}
use osggis.Index.Cached.{build_cached}
use osggis.Index.Reopened.{kept_features, build_cached-scan}
use osggis.Index.Unary.{unary_disk, unary_disk-IsDisk, unary_disk-IsRounding, round_even}
use osggis.Index.Split.{Groups, split_entries}
use osggis.Index.Tree.{
  RTree, new_node, new_tree, insert_at, inserted_extent, insert, find, adjust_tree, adjust_parent,
  grow_root, split_if_full, split_node,
}
use osggis.Index.Division.{IsDivision, split_entries-IsDivision}
use osggis.Index.Adjust.{IsSettled}
use osggis.Index.Insert.{insert_at-IsSettled}
use osggis.Index.Service.{IndexedFeature, RTreeSpatialIndex, build_index, query, scan}
use osggis.Index.Refine.{indexed, query-scan, new_tree-IsSettled}
use osggis.Index.OfExtents.{Areas, extent_boxes, extent_boxes-IsBoxes, IsBoxOf, include, meets}

abbrev areas : Areas grid
areas = record { margin = 0; max_area = 1000000 }

abbrev boxes : Boxes
boxes = extent_boxes grid 1 areas

laws : IsBoxes boxes
laws = extent_boxes-IsBoxes grid grid-IsPlane 1 areas

abbrev entry : ℕ → RtEntry boxes ℕ
entry k = record { extent = box k (k + 2); slot = data_slot k }

-- The entries from a number on, so many of them.
abbrev entries : ℕ → ℕ → List (RtEntry boxes ℕ)
entries k zero = []
entries k (suc n) = entry k ∷ entries (k + 1) n

split_entries-IsDivision_example :
    (g : Groups boxes ℕ) × (split_entries boxes ℕ (entries 0 64) ≡ some g)
    × IsDivision boxes ℕ (entries 0 64) g
split_entries-IsDivision_example = split_entries-IsDivision boxes ℕ (entries 0 64) refl

abbrev feature : ℕ → IndexedFeature boxes ℕ
feature k = record { extent = box k (k + 2); oid = k }

abbrev two_features : List (IndexedFeature boxes ℕ)
two_features = feature 3 ∷ feature 7 ∷ []

box-IsBox : (k : ℕ) → IsBoxOf grid 1 (box k (k + 2))
box-IsBox k = ((refl, refl, refl, refl, ground arith, ground arith), refl, refl)

two_features-AreBoxes :
    All (λ (g : IndexedFeature boxes ℕ). boxes.IsBox g.extent) (indexed boxes laws ℕ two_features)
unfolding inserted_extent get_area expand
two_features-AreBoxes = (box-IsBox 3, (box-IsBox 7, tt))

query-scan_example :
    (index : RTreeSpatialIndex boxes ℕ) × (r : List ℕ) × (build_index boxes ℕ 3 two_features
      ≡ some index)
    × (query boxes ℕ 3 index (box 5 6) ≡ some r)
    × ((d : ℕ) → In d r ↔ In d (scan boxes ℕ (box 5 6) (indexed boxes laws ℕ two_features)))
query-scan_example =
    query-scan boxes laws ℕ 3 two_features (box 5 6) two_features-AreBoxes (omega arith)

insert_at-IsSettled_example :
    (t : RTree boxes ℕ) × (high : ℕ) × (insert_at boxes ℕ 1 (new_tree boxes ℕ) 1 (box 2 4) 5
      ≡ some t)
    × IsSettled boxes laws ℕ t (record { extent = box 2 4; slot = data_slot 5 } ∷ []) high
    × (high ≤ 1)
unfolding new_tree
insert_at-IsSettled_example =
    insert_at-IsSettled boxes laws ℕ 1 (new_tree boxes ℕ) [] 0 (box 2 4) 5
      (new_tree-IsSettled boxes laws ℕ) (box-IsBox 2) (omega arith)

extent_boxes-IsBoxes_example : IsBoxes (extent_boxes grid 1 areas)
extent_boxes-IsBoxes_example = extent_boxes-IsBoxes grid grid-IsPlane 1 areas

-- Two of three features meet the query.
query_run :
    (build_index boxes ℕ 5 (feature 3 ∷ feature 4 ∷ feature 9 ∷ []) >>= λ index.
    query boxes ℕ 5 index (box 5 6))
    ≡ some (3 ∷ 4 ∷ [])
unfolding build_index query insert insert_at adjust_tree find inserted_extent expand get_area
    new_tree split_if_full meets
query_run = refl

-- A node is split when the 64th entry comes: 64 features make two leaves under a new root, and a
-- query over all finds each.
abbrev features : ℕ → ℕ → List (IndexedFeature boxes ℕ)
features k zero = []
features k (suc n) = feature k ∷ features (k + 1) n

split_run :
    (build_index boxes ℕ 5 (features 0 64) >>= λ index.
    query boxes ℕ 5 index (box 0 90) >>= λ r. some (length r))
    ≡ some 64
unfolding build_index query insert insert_at adjust_tree adjust_parent grow_root split_if_full
    split_node find inserted_extent expand get_area new_tree include meets
split_run = refl

abbrev disk : Disk boxes ℕ
disk = unary_disk areas

build_cached-scan_example :
    (index loaded : RTreeSpatialIndex boxes ℕ) × (w : Bytes) × (build_cached disk 3 true none 5
        two_features
      ≡ some (index, some w))
    × (build_cached disk 3 true (some (record { mtime = 4; content = none })) 5 two_features
        ≡ some (index, some w))
    × (build_cached disk 1 true (some (record { mtime = 4; content = some w })) 3 []
        ≡ some (loaded, none))
    × ((q : boxes.Box)
        → (r : List ℕ) × (query boxes ℕ 3 loaded q ≡ some r)
          × ((d : ℕ)
              → In d r
                ↔ In d (
                    scan boxes ℕ q (
                      kept_features laws disk round_even
                        (unary_disk-IsDisk areas)
                        (indexed boxes laws ℕ two_features)))))
build_cached-scan_example =
    build_cached-scan laws disk round_even (unary_disk-IsDisk areas) 3 1 5 3 two_features []
      (record { mtime = 4; content = none }) (unary_disk-IsRounding areas) two_features-AreBoxes
      (omega arith) (omega arith) (omega arith)

-- The new tree, written and read back.
abbrev kept_tree : RTree boxes ℕ
kept_tree = stored_tree disk round_even (unary_disk-IsDisk areas) (new_tree boxes ℕ)

new_tree-first : (new_tree boxes ℕ).node_table 1 ≡ some (new_node boxes ℕ 0 true [])
unfolding new_tree write
new_tree-first = refl

read_from-write_to_example :
    (w : Bytes) × (write_to disk (new_tree boxes ℕ) (box 2 4) ≡ some w)
    × (read_from disk (new_tree boxes ℕ) w
        ≡ some
            (some (kept_tree, stored_extent disk round_even (unary_disk-IsDisk areas) (box 2 4))))
read_from-write_to_example =
    read_from-write_to laws disk round_even (unary_disk-IsDisk areas) (new_tree boxes ℕ) [] 0
      (new_node boxes ℕ 0 true []) (box 2 4) (new_tree-IsSettled boxes laws ℕ) new_tree-first
