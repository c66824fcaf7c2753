-- ===== src/Index/Keep.antt =====
-- The nodes of the R-tree are never removed from its table (src/osgGIS/RTree.cpp.inline).
use mathlib.Core.Path.{subst}
use osggis.Base.{
  ℕ, zero, suc, ◌≡◌, Bool, true, false, Option, none, some, List, [], ◌∷◌, ◌==◌, leb, length,
  bind-some, some-inj, Bool-cases, inl, inr,
}
use osggis.Index.Boxes.{Boxes}
use osggis.Index.Node.{Slot, child_id, data_slot, RtEntry, RtNode, NodeTable, write, choose_leaf}
use osggis.Index.Split.{
  split_entries, set_parent, set_slot_parent, reparent, reparent_children, const_m,
}
use osggis.Index.Tree.{
  RTree, split_node, split_if_full, grow_root, adjust_parent, adjust_tree, insert_at, insert,
}
use osggis.Index.Table.{write-Extends}
use osggis.Index.Service.{IndexedFeature, RTreeSpatialIndex, is_usable, extend, build_from}

module _ (b : Boxes) (D : Type 0) (c : ℕ) where
  -- The table has a node at the key.
  abbrev pub Has : NodeTable b D → Type 0
  Has table = (m : RtNode b D) × (table c ≡ some m)

  write-Has :
      (table : NodeTable b D) (id : ℕ) (n : RtNode b D) → Has table → Has (write b D table id n)
  write-Has table id n (m, h) = write-Extends b D table id n c m h

  set_parent-Has :
      (table table' : NodeTable b D) (id p : ℕ)
      → set_parent b D table id p ≡ some table'
      → Has table
      → Has table'
  unfolding set_parent
  set_parent-Has table table' id p e h =
      let (n, _, e') = bind-some (table id) _ table' e in
      subst Has (some-inj _ table' e') (write-Has table id (record n { parent_id = p }) h)

  set_slot_parent-Has :
      (table table' : NodeTable b D) (s : Slot D) (p : ℕ)
      → set_slot_parent b D table s p ≡ some table'
      → Has table
      → Has table'
  set_slot_parent-Has table table' (child_id k) p e h = set_parent-Has table table' k p e h
  set_slot_parent-Has table table' (data_slot d) p e h = absurd (cc)

  reparent-Has :
      (xs : List (RtEntry b D)) (table table' : NodeTable b D) (p : ℕ)
      → reparent b D table xs p ≡ some table'
      → Has table
      → Has table'
  unfolding reparent
  reparent-Has [] table table' p e h = subst Has (some-inj table table' e) h
  reparent-Has (x ∷ xs) table table' p e h =
      let (t, e', e'') = bind-some (set_slot_parent b D table x.slot p) _ table' e in
      reparent-Has xs t table' p e'' (set_slot_parent-Has table t x.slot p e' h)

  reparent_children-Has :
      (leaf : Bool) (xs : List (RtEntry b D)) (table table' : NodeTable b D) (p : ℕ)
      → reparent_children b D leaf table xs p ≡ some table'
      → Has table
      → Has table'
  unfolding reparent_children
  reparent_children-Has true xs table table' p e h = subst Has (some-inj table table' e) h
  reparent_children-Has false xs table table' p e h = reparent-Has xs table table' p e h

  abbrev HasIn : RTree b D → Type 0
  HasIn t = Has t.node_table

  split_node-Has :
      (t : RTree b D) (l : ℕ) (r : RTree b D × ℕ)
      → split_node b D t l ≡ some r
      → HasIn t
      → HasIn r.0
  unfolding split_node
  split_node-Has t l r e h =
      let (n, _, e1) = bind-some (t.node_table l) _ r e in
      let (g, _, e2) = bind-some (split_entries b D n.entries) _ r e1 in
      let (table, e3, e4) = bind-some _ _ r e2 in
      let ll = suc t.node_id_gen in
      let second : RtNode b D = record n { entries = g.second_group } in
      let first : RtNode b D = record n { entries = g.first_group } in
      let t1 = write b D t.node_table ll second in
      let h' = write-Has t1 l first (write-Has t.node_table ll second h) in
      subst (λ (z : RTree b D × ℕ). HasIn z.0) (some-inj _ r e4)
        (reparent_children-Has n.is_leaf g.second_group (write b D t1 l first) table ll e3 h')

  split_if_full-Has :
      (t : RTree b D) (l : ℕ) (r : RTree b D × Option ℕ)
      → split_if_full b D t l ≡ some r
      → HasIn t
      → HasIn r.0
  unfolding split_if_full
  split_if_full-Has t l r e h =
      let (n, _, e1) = bind-some (t.node_table l) _ r e in
      elim (Bool-cases (leb const_m (length n.entries))) [
        | inl f ↦
            let (s, e2, e3) =
              bind-some (split_node b D t l) (λ s. some (s.0, some s.1)) r (rw f at e1) in
            subst (λ (z : RTree b D × Option ℕ). HasIn z.0) (some-inj _ r e3)
              (split_node-Has t l s e2 h)
        | inr f ↦
            let e2 : some (t, none) ≡ some r = rw f at e1 in
            subst (λ (z : RTree b D × Option ℕ). HasIn z.0) (some-inj (t, none) r e2) h
      ]

  grow_root-Has :
      (t : RTree b D) (n nn : ℕ) (r : RTree b D) → grow_root b D t n nn ≡ some r → HasIn t → HasIn r
  unfolding grow_root
  grow_root-Has t n nn r e h =
      let (node, _, e1) = bind-some (t.node_table n) _ r e in
      let (node', _, e2) = bind-some (t.node_table nn) _ r e1 in
      let p = suc t.node_id_gen in
      let (t1, s1, e3) = bind-some (set_parent b D t.node_table n p) _ r e2 in
      let (t2, s2, e4) = bind-some (set_parent b D t1 nn p) _ r e3 in
      let h2 = set_parent-Has t1 t2 nn p s2 (set_parent-Has t.node_table t1 n p s1 h) in
      subst HasIn (some-inj _ r e4) (write-Has t2 p _ h2)

  adjust_parent-Has :
      (t : RTree b D) (n : ℕ) (node : RtNode b D) (p : ℕ) (o : Option ℕ) (r : RTree b D × Option ℕ)
      → adjust_parent b D t n node p o ≡ some r
      → HasIn t
      → HasIn r.0
  unfolding adjust_parent
  adjust_parent-Has t n node p none r e h =
      let (parent, _, e1) = bind-some (t.node_table p) _ r e in
      subst (λ (z : RTree b D × Option ℕ). HasIn z.0) (some-inj _ r e1)
        (write-Has t.node_table p _ h)
  adjust_parent-Has t n node p (some nn) r e h =
      let (parent, _, e1) = bind-some (t.node_table p) _ r e in
      let (node', _, e2) = bind-some (t.node_table nn) _ r e1 in
      let (table, s, e3) = bind-some (set_parent b D t.node_table nn p) _ r e2 in
      split_if_full-Has _ p r e3 (write-Has table p _ (set_parent-Has t.node_table table nn p s h))

  abbrev root_adjusted : RTree b D → ℕ → Option ℕ → Option (RTree b D)
  root_adjusted t n none = some t
  root_adjusted t n (some k) = grow_root b D t n k

  root_adjusted-Has :
      (t : RTree b D) (n : ℕ) (o : Option ℕ) (r : RTree b D)
      → root_adjusted t n o ≡ some r
      → HasIn t
      → HasIn r
  root_adjusted-Has t n none r e h = subst HasIn (some-inj t r e) h
  root_adjusted-Has t n (some k) r e h = grow_root-Has t n k r e h

  adjust_tree-Has :
      (fuel : ℕ) (t : RTree b D) (n : ℕ) (o : Option ℕ) (r : RTree b D)
      → adjust_tree b D fuel t n o ≡ some r
      → HasIn t
      → HasIn r
  unfolding adjust_tree
  adjust_tree-Has zero t n o r e h = absurd (cc)
  adjust_tree-Has (suc fuel) t n o r e h =
      let (node, _, e1) = bind-some (t.node_table n) _ r e in
      elim (Bool-cases (node.parent_id == 0)) [
        | inl f ↦ root_adjusted-Has t n o r (rw f at e1) h
        | inr f ↦
            let (s, e2, e3) =
              bind-some (adjust_parent b D t n node node.parent_id o)
                (λ s. adjust_tree b D fuel s.0 node.parent_id s.1) r (rw f at e1) in
            adjust_tree-Has fuel s.0 node.parent_id s.1 r e3
              (adjust_parent-Has t n node node.parent_id o s e2 h)
      ]

  insert-Has :
      (fuel : ℕ) (t : RTree b D) (e : b.Box) (d : D) (r : RTree b D)
      → insert b D fuel t e d ≡ some r
      → HasIn t
      → HasIn r
  unfolding insert insert_at
  insert-Has fuel t e d r h k =
      let (l, _, e1) = bind-some (choose_leaf b D fuel t.node_table t.root_id _) _ r h in
      let (n, _, e2) = bind-some (t.node_table l) _ r e1 in
      let (s, e3, e4) = bind-some _ _ r e2 in
      adjust_tree-Has fuel s.0 l s.1 r e4
        (split_if_full-Has _ l s e3 (write-Has t.node_table l _ k))

  -- The nodes of an index stay while features are added to it.
  pub build_from-Has :
      (fuel : ℕ) (fs : List (IndexedFeature b D)) (index index' : RTreeSpatialIndex b D)
      → build_from b D fuel index fs ≡ some index'
      → HasIn index.rtree
      → HasIn index'.rtree
  unfolding build_from
  build_from-Has fuel [] index index' e h =
      subst (λ (z : RTreeSpatialIndex b D). HasIn z.rtree) (some-inj index index' e) h
  build_from-Has fuel (f ∷ fs) index index' e h = elim (Bool-cases (is_usable b D f)) [
    | inl u ↦
        let (t, e1, e2) =
          bind-some (insert b D fuel index.rtree f.extent f.oid)
            (λ t. build_from b D fuel (record { rtree = t; extent = extend b D index.extent f }) fs)
            index' (rw (u, build_from) at e) in
        build_from-Has fuel fs _ index' e2 (insert-Has fuel index.rtree f.extent f.oid t e1 h)
    | inr u ↦ build_from-Has fuel fs index index' (rw (u, build_from) at e) h
  ]
