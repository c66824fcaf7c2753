-- ===== src/Index/Node.antt =====
-- The nodes of the R-tree (src/osgGIS/RTree) and what is computed from the entries of one node
-- (computeExtent, chooseLeaf and find in src/osgGIS/RTree.cpp.inline). A node's `id` is the key at which
-- the table has it.
use osggis.Base.{
  ℕ, zero, suc, Bool, true, false, Option, none, some, List, [], ◌∷◌, ◌++◌, ◌==◌, if◌then◌else◌,
  ◌>>=◌,
}
use osggis.Index.Boxes.{Boxes}

-- The union of an entry: `child_id` in a node that is no leaf, `data` in a leaf.
pub data Slot (D : Type 0) : Type 0 where
  child_id : ℕ → Slot D
  data_slot : D → Slot D

module _ (b : Boxes) (D : Type 0) where
  open b use {Box, Area, nothing, include, area, intersects, minus, less}

  pub record RtEntry : Type 0 where
    pub extent : Box
    pub slot : Slot D

  pub record RtNode : Type 0 where
    pub parent_id : ℕ
    pub is_leaf : Bool
    pub entries : List RtEntry

  -- A missing key stands for NULL, which `operator []` would insert.
  abbrev pub NodeTable : Type 0
  NodeTable = ℕ → Option RtNode

  unfoldable pub write : NodeTable → ℕ → RtNode → NodeTable
  write table id n k = if k == id then some n else table k

  -- The loop of computeExtent.
  unfoldable pub extent_from : Box → List RtEntry → Box
  extent_from e [] = e
  extent_from e (x ∷ xs) = extent_from (include e x.extent) xs

  unfoldable pub compute_extent : List RtEntry → Box
  unfolding extent_from
  compute_extent xs = extent_from nothing xs

  -- The loop of chooseLeaf over the entries of a node.
  unfoldable pub best_from : Box → Area → RtEntry → List RtEntry → RtEntry
  best_from e smallest best [] = best
  best_from e smallest best (x ∷ xs) =
      let area_diff = minus (area (include x.extent e)) (area e) in
      elim (less area_diff smallest) [
        | true ↦ best_from e area_diff x xs
        | false ↦ best_from e smallest best xs
      ]

  -- best_i, which is `begin()` at first; NULL stands for its use if there is no entry.
  unfoldable pub best_entry : Box → List RtEntry → Option RtEntry
  unfolding best_from
  best_entry e [] = none
  best_entry e (x ∷ xs) = some (best_from e b.max_area x (x ∷ xs))

  abbrev pub child_of : Slot D → Option ℕ
  child_of (child_id c) = some c
  child_of (data_slot d) = none

  -- With fuel. The result is the id of the leaf.
  unfoldable pub choose_leaf : ℕ → NodeTable → ℕ → Box → Option ℕ
  unfolding best_entry
  choose_leaf zero table id e = none
  choose_leaf (suc fuel) table id e = table id >>= λ n. elim n.is_leaf [
    | true ↦ some id
    | false ↦ best_entry e n.entries >>= λ x. child_of x.slot >>= λ c. choose_leaf fuel table c e
  ]

  -- What the loop of find adds for one entry that meets the query.
  abbrev pub hit : (ℕ → Option (List D)) → Bool → Slot D → Option (List D)
  hit search true (data_slot d) = some (d ∷ [])
  hit search true (child_id c) = none
  hit search false (child_id c) = search c
  hit search false (data_slot d) = none

  -- The loop of find over the entries of a node; `search` is the call for a child.
  unfoldable pub find_entries : (ℕ → Option (List D)) → Bool → Box → List RtEntry → Option (List D)
  find_entries search leaf q [] = some []
  find_entries search leaf q (x ∷ xs) = elim (intersects x.extent q) [
    | true ↦ hit search leaf x.slot >>= λ r. find_entries search leaf q xs >>= λ s. some (r ++ s)
    | false ↦ find_entries search leaf q xs
  ]

  -- With fuel.
  unfoldable pub find_from : ℕ → NodeTable → Box → ℕ → Option (List D)
  unfolding find_entries
  find_from zero table q id = none
  find_from (suc fuel) table q id =
      table id >>= λ n. find_entries (find_from fuel table q) n.is_leaf q n.entries
