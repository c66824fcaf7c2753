-- ===== src/Index/Insert.antt =====
-- insert of the R-tree: the choice of a leaf, the placement and the way up
-- (src/osgGIS/RTree.cpp.inline).
use osggis.Base.{
  ℕ, zero, suc, ◌≤◌, ◌<◌, ◌≡◌, refl, ◌∙◌, true, false, Option, some, List, [], ◌∷◌, ◌++◌, length,
  length-append, ◌>>=◌, inl, inr, In, arith, Bool-cases,
}
use osggis.Index.Boxes.{Boxes, IsBoxes}
use osggis.Index.Node.{
  child_id, data_slot, RtEntry, RtNode, NodeTable, write, best_from, best_entry, choose_leaf,
}
use osggis.Index.Tree.{RTree, split_if_full, adjust_tree, insert_at}
use osggis.Index.Inv.{IsTree}
use osggis.Index.Table.{write_same}
use osggis.Index.Place.{placed-IsTree}
use osggis.Index.Adjust.{IsSettled, split_if_full-IsPending}
use osggis.Index.Climb.{adjust_tree-IsSettled}

module _ (b : Boxes) (law : IsBoxes b) (D : Type 0) where
  -- The entry chosen is one of the node's.
  best_from-In :
      (e : b.Box) (smallest : b.Area) (best : RtEntry b D) (xs ys : List (RtEntry b D))
      → In best ys
      → ((x : RtEntry b D) → In x xs → In x ys)
      → In (best_from b D e smallest best xs) ys
  unfolding best_from
  best_from-In e smallest best [] ys h k = h
  best_from-In e smallest best (x ∷ xs) ys h k =
      let d = b.minus (b.area (b.include x.extent e)) (b.area e) in
      elim (Bool-cases (b.less d smallest)) [
        | inl t ↦ rw (t, best_from) (best_from-In e d x xs ys (k x (inl refl)) (λ y i. k y (inr i)))
        | inr t ↦ rw (t, best_from) (best_from-In e smallest best xs ys h (λ y i. k y (inr i)))
      ]

  best_entry-In :
      (e : b.Box) (xs : List (RtEntry b D))
      → 0 < length xs
      → (x : RtEntry b D) × (best_entry b D e xs ≡ some x) × In x xs
  unfolding best_entry
  best_entry-In e [] h = absurd (omega arith)
  best_entry-In e (x ∷ xs) h =
      (_, refl, best_from-In e b.max_area x (x ∷ xs) (x ∷ xs) (inl refl) (λ y i. i))

  choose_leaf_step :
      (fuel id c : ℕ) (e : b.Box) (table : NodeTable b D) (n : RtNode b D) (x : RtEntry b D)
      → table id ≡ some n
      → n.is_leaf ≡ false
      → best_entry b D e n.entries ≡ some x
      → x.slot ≡ child_id c
      → choose_leaf b D (suc fuel) table id e ≡ choose_leaf b D fuel table c e
  unfolding choose_leaf
  choose_leaf_step fuel id c e table n x at t h s = rw (at, ◌>>=◌, t, h, s) refl

  choose_leaf_done :
      (fuel id : ℕ) (e : b.Box) (table : NodeTable b D) (n : RtNode b D)
      → table id ≡ some n
      → n.is_leaf ≡ true
      → choose_leaf b D (suc fuel) table id e ≡ some id
  unfolding choose_leaf
  choose_leaf_done fuel id e table n at t = rw (at, ◌>>=◌, t) refl

  module _ (table : NodeTable b D) (level : ℕ → ℕ) (root gen : ℕ) (items : List (RtEntry b D))
      (v : IsTree b law D table level root gen items 0 0) (e : b.Box) where
    -- The descent ends at a leaf.
    choose_leaf_total :
        (fuel id : ℕ) (n : RtNode b D)
        → table id ≡ some n
        → level id < fuel
        → (l : ℕ) × (m : RtNode b D) × (choose_leaf b D fuel table id e ≡ some l)
          × (table l ≡ some m)
          × (m.is_leaf ≡ true)
    choose_leaf_total zero id n at h = absurd (omega arith)
    choose_leaf_total (suc fuel) id n at h = elim (Bool-cases n.is_leaf) [
      | inl t ↦ (id, n, choose_leaf_done fuel id e table n at t, at, t)
      | inr t ↦
          let (x, best, i) = best_entry-In e n.entries (v.nonempty id n at t) in
          let (c, m, s, at', lt, _, _) = v.inner id n at t x i in
          let (l, k, p, q, r) = choose_leaf_total fuel c m at' (omega arith) in
          (l, k, choose_leaf_step fuel id c e table n x at t best s ∙ p, q, r)
    ]

  insert_at_step :
      (fuel : ℕ) (t t1 : RTree b D) (e : b.Box) (d : D) (l : ℕ) (n : RtNode b D) (o : Option ℕ)
      → choose_leaf b D fuel t.node_table t.root_id e ≡ some l
      → t.node_table l ≡ some n
      → split_if_full b D
          (record t {
            node_table = write b D t.node_table l (record n {
              entries = n.entries ++ (record { extent = e; slot = data_slot d } ∷ []);
            });
          })
          l
        ≡ some (t1, o)
      → insert_at b D fuel t t.root_id e d ≡ adjust_tree b D fuel t1 l o
  unfolding insert_at
  insert_at_step fuel t t1 e d l n o h at s = rw (h, ◌>>=◌, at, s) refl

  -- In a tree that has the invariant and its root at a level below the fuel, the insertion of a box
  -- at the root ends. The new tree has the invariant for the item and those before, and its root at
  -- most one level higher.
  pub insert_at-IsSettled :
      (fuel : ℕ) (t : RTree b D) (items : List (RtEntry b D)) (high : ℕ) (e : b.Box) (d : D)
      → IsSettled b law D t items high
      → b.IsBox e
      → high < fuel
      → (t' : RTree b D) × (high' : ℕ) × (insert_at b D fuel t t.root_id e d ≡ some t')
        × IsSettled b law D t' (record { extent = e; slot = data_slot d } ∷ items) high'
        × (high' ≤ suc high)
  insert_at-IsSettled fuel t items high e d s box h =
      let v = s.tree in
      let top = s.highest in
      let (r, at_root, _) = v.rooted in
      let (l, n, chosen, at, leaf) =
        choose_leaf_total t.node_table s.level t.root_id t.node_id_gen items v e fuel t.root_id r
          at_root (omega arith) in
      let (positive, _, low) = v.bounds l n at in
      let x : RtEntry b D = record { extent = e; slot = data_slot d } in
      let n' : RtNode b D = record n { entries = n.entries ++ (x ∷ []) } in
      let t1 : RTree b D = record t { node_table = write b D t.node_table l n' } in
      let small = v.small l n at (omega arith) in
      let more = length-append n.entries (x ∷ []) in
      let placed =
        placed-IsTree b law D t.node_table s.level t.root_id t.node_id_gen items v l n at leaf x box
          (d, refl) in
      let (t2, o, e2, w) =
        split_if_full-IsPending b law D t1 s.level (x ∷ items) l placed n'
          (write_same b D t.node_table l n') (omega arith) (omega arith) in
      let (t3, high', e3, s', k) =
        adjust_tree-IsSettled b law D fuel t2 (x ∷ items) l o (s.level t.root_id) (s.level l) w low
          (omega arith) in
      (t3, high', insert_at_step fuel t t2 e d l n o chosen at e2 ∙ e3, s', omega arith)
