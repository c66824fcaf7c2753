-- ===== src/Index/Inv.antt =====
-- The invariant of the R-tree (src/osgGIS/RTree.cpp.inline), one condition for each node of the
-- table. `stale` is the node whose entries its parent's entry may not cover yet, `extra` the node that
-- is in no parent yet, as adjustTree finds them; 0 is the id of no node.
use osggis.Base.{
  ℕ, ◌≤◌, ◌<◌, ◌≡◌, ◌≢◌, true, false, some, List, length, In, All, sum_of, if◌then◌else◌,
}
use osggis.Index.Boxes.{Boxes, IsBoxes}
use osggis.Index.Node.{child_id, data_slot, RtEntry, RtNode, NodeTable}
use osggis.Index.Tree.{is_child}

module _ (b : Boxes) (D : Type 0) where
  -- How many entries refer to a child.
  abbrev pub count_child : ℕ → List (RtEntry b D) → ℕ
  count_child c xs = sum_of (λ x. if is_child b D c x.slot then 1 else 0) xs

  abbrev pub IsData : RtEntry b D → Type 0
  IsData x = (d : D) × (x.slot ≡ data_slot d)

  -- The child of an entry of the node `id` is in the table, below the node, which is its parent. It
  -- is not `extra`.
  abbrev pub IsInner : NodeTable b D → (ℕ → ℕ) → ℕ → ℕ → RtEntry b D → Type 0
  IsInner table level extra id x =
      (c : ℕ) × (m : RtNode b D) × (x.slot ≡ child_id c)
      × (table c ≡ some m)
      × (level c < level id)
      × (c ≢ extra)
      × (m.parent_id ≡ id)

  -- An item is an entry of a leaf.
  abbrev pub IsKept : NodeTable b D → RtEntry b D → Type 0
  IsKept table x =
      (id : ℕ) × (n : RtNode b D) × (table id ≡ some n) × (n.is_leaf ≡ true) × In x n.entries

module _ (b : Boxes) (law : IsBoxes b) (D : Type 0) where
  abbrev pub AreBoxes : List (RtEntry b D) → Type 0
  AreBoxes xs = All (λ x. b.IsBox x.extent) xs

  abbrev pub Covers : b.Box → List (RtEntry b D) → Type 0
  Covers e xs = All (λ x. b.Within x.extent e) xs

  -- The node's parent has an entry for it, which covers it unless it is `stale`.
  abbrev pub IsLinked : NodeTable b D → (ℕ → ℕ) → ℕ → ℕ → RtNode b D → Type 0
  IsLinked table level stale id n =
      (m : RtNode b D) × (e : RtEntry b D) × (table n.parent_id ≡ some m)
      × (m.is_leaf ≡ false)
      × (level id < level n.parent_id)
      × In e m.entries
      × (e.slot ≡ child_id id)
      × ((id ≢ stale) → Covers e.extent n.entries)

  pub record IsTree (table : NodeTable b D) (level : ℕ → ℕ) (root gen : ℕ)
      (items : List (RtEntry b D)) (stale extra : ℕ) : Type 0 where
    pub bounds :
        (id : ℕ) (n : RtNode b D)
        → table id ≡ some n
        → (0 < id) × (id ≤ gen) × (level id ≤ level root)
    pub small : (id : ℕ) (n : RtNode b D) → table id ≡ some n → id ≢ stale → length n.entries < 64
    pub boxes : (id : ℕ) (n : RtNode b D) → table id ≡ some n → AreBoxes n.entries
    pub unique :
        (id : ℕ) (n : RtNode b D) → table id ≡ some n → (c : ℕ) → count_child b D c n.entries ≤ 1
    pub nonempty :
        (id : ℕ) (n : RtNode b D) → table id ≡ some n → n.is_leaf ≡ false → 0 < length n.entries
    pub inner :
        (id : ℕ) (n : RtNode b D)
        → table id ≡ some n
        → n.is_leaf ≡ false
        → (x : RtEntry b D) → In x n.entries
        → IsInner b D table level extra id x
    pub leaf :
        (id : ℕ) (n : RtNode b D)
        → table id ≡ some n
        → n.is_leaf ≡ true
        → (x : RtEntry b D) → In x n.entries
        → IsData b D x × In x items
    pub linked :
        (id : ℕ) (n : RtNode b D)
        → table id ≡ some n
        → id ≢ root
        → id ≢ extra
        → IsLinked table level stale id n
    pub rooted : (n : RtNode b D) × (table root ≡ some n) × (n.parent_id ≡ 0)
    pub kept : (x : RtEntry b D) → In x items → IsKept b D table x
