-- ===== src/Index/Tree.antt =====
-- RTree: insert, adjustTree and find (src/osgGIS/RTree.cpp.inline). A pointer to a node is its id.
use osggis.Base.{
  ℕ, zero, suc, Bool, true, false, Option, none, some, List, [], ◌∷◌, ◌++◌, ◌==◌, leb, length,
  if◌then◌else◌, ◌>>=◌,
}
use osggis.Index.Boxes.{Boxes}
use osggis.Index.Node.{
  Slot, child_id, data_slot, RtEntry, RtNode, NodeTable, write, compute_extent, choose_leaf,
  find_from,
}
use osggis.Index.Split.{const_m, split_entries, reparent_children, set_parent}

module _ (b : Boxes) (D : Type 0) where
  open b use {Box}

  pub record RTree : Type 0 where
    pub node_table : NodeTable b D
    pub root_id : ℕ
    pub node_id_gen : ℕ

  abbrev pub new_node : ℕ → Bool → List (RtEntry b D) → RtNode b D
  new_node parent leaf xs = record { parent_id = parent; is_leaf = leaf; entries = xs }

  unfoldable pub new_tree : RTree
  unfolding write
  new_tree = record {
    node_table = write b D (λ id. none) 1 (new_node 0 true []);
    root_id = 1;
    node_id_gen = 1;
  }

  -- The entry of a node in its parent.
  abbrev pub entry_of : ℕ → RtNode b D → RtEntry b D
  entry_of id n = record { extent = compute_extent b D n.entries; slot = child_id id }

  -- splitNodeQ: the tree and the id of the new node.
  unfoldable pub split_node : RTree → ℕ → Option (RTree × ℕ)
  unfolding write split_entries reparent_children
  split_node t l = t.node_table l >>= λ n. split_entries b D n.entries >>= λ g.
      let ll = suc t.node_id_gen in
      let table =
        write b D (write b D t.node_table ll (record n { entries = g.second_group })) l
          (record n { entries = g.first_group }) in
      reparent_children b D n.is_leaf table g.second_group ll >>= λ table'.
      some (record t { node_table = table'; node_id_gen = ll }, ll)

  -- if ( entries.size() >= CONST_M ) splitNodeQ, for the node at an id.
  unfoldable pub split_if_full : RTree → ℕ → Option (RTree × Option ℕ)
  unfolding split_node
  split_if_full t l = t.node_table l >>= λ n. elim (leb const_m (length n.entries)) [
    | true ↦ split_node t l >>= λ r. some (r.0, some r.1)
    | false ↦ some (t, none)
  ]

  -- I4 of adjustTree: the root has been split.
  unfoldable pub grow_root : RTree → ℕ → ℕ → Option RTree
  unfolding write set_parent
  grow_root t n nn = t.node_table n >>= λ node. t.node_table nn >>= λ node'.
      let p = suc t.node_id_gen in
      let root = new_node 0 false (entry_of n node ∷ entry_of nn node' ∷ []) in
      set_parent b D t.node_table n p >>= λ t1. set_parent b D t1 nn p >>= λ t2.
      some (record { node_table = write b D t2 p root; root_id = p; node_id_gen = p })

  abbrev pub is_child : ℕ → Slot D → Bool
  is_child id (child_id c) = c == id
  is_child id (data_slot d) = false

  -- AT3: the first entry of a child gets its extent anew.
  unfoldable pub refresh : ℕ → Box → List (RtEntry b D) → List (RtEntry b D)
  refresh id e [] = []
  refresh id e (x ∷ xs) = elim (is_child id x.slot) [
    | true ↦ record x { extent = e } ∷ xs
    | false ↦ x ∷ refresh id e xs
  ]

  -- AT3 and AT4 at the parent `p` of `n`; the new node beside `n`, if any, is `nn`. The result is
  -- the tree and the new node beside `p`.
  unfoldable pub adjust_parent : RTree → ℕ → RtNode b D → ℕ → Option ℕ → Option (RTree × Option ℕ)
  unfolding write set_parent refresh
  adjust_parent t n node p none = t.node_table p >>= λ parent.
      let xs = refresh n (compute_extent b D node.entries) parent.entries in
      some
        (record t { node_table = write b D t.node_table p (record parent { entries = xs }) }, none)
  adjust_parent t n node p (some nn) = t.node_table p >>= λ parent. t.node_table nn >>= λ node'.
      set_parent b D t.node_table nn p >>= λ table.
      let xs = refresh n (compute_extent b D node.entries) parent.entries in
      let parent' = record parent { entries = xs ++ (entry_of nn node' ∷ []) } in
      split_if_full (record t { node_table = write b D table p parent' }) p

  -- adjustTree with fuel.
  unfoldable pub adjust_tree : ℕ → RTree → ℕ → Option ℕ → Option RTree
  adjust_tree zero t n nn = none
  adjust_tree (suc fuel) t n nn = t.node_table n >>= λ node. elim (node.parent_id == 0) [
    | true ↦ elim nn [ none ↦ some t | some k ↦ grow_root t n k ]
    | false ↦
        adjust_parent t n node node.parent_id nn >>= λ r. adjust_tree fuel r.0 node.parent_id r.1
  ]

  -- insert( node_id, extent, data ), with the fuel of its two recursions.
  unfoldable pub insert_at : ℕ → RTree → ℕ → Box → D → Option RTree
  unfolding choose_leaf write
  insert_at fuel t id e d = choose_leaf b D fuel t.node_table id e >>= λ l. t.node_table l >>= λ n.
      let x : RtEntry b D = record { extent = e; slot = data_slot d } in
      let n' = record n { entries = n.entries ++ (x ∷ []) } in
      split_if_full (record t { node_table = write b D t.node_table l n' }) l >>= λ r.
      adjust_tree fuel r.0 l r.1

  -- The extent under which insert puts an item.
  unfoldable pub inserted_extent : Box → Box
  inserted_extent e = if b.is_zero (b.area e) then b.inflate e else e

  unfoldable pub insert : ℕ → RTree → Box → D → Option RTree
  unfolding insert_at inserted_extent
  insert fuel t e d = insert_at fuel t t.root_id (inserted_extent e) d

  unfoldable pub find : ℕ → RTree → Box → Option (List D)
  unfolding find_from
  find fuel t q = find_from b D fuel t.node_table q t.root_id
