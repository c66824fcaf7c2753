-- ===== src/Index/Step.antt =====
-- A step of adjustTree from a changed node to its parent (src/osgGIS/RTree.cpp.inline).
use mathlib.Core.Path.{subst, fun_ext}
use osggis.Base.{
  ℕ, ◌≤◌, ◌<◌, ◌≡◌, ◌≢◌, refl, sym, ap, ◌∙◌, false, Option, none, some, List, [], ◌∷◌, ◌++◌, ◌==◌,
  length, length-append, ◌>>=◌, inl, inr, arith, Bool-cases, some-inj, ==_iff,
}
use osggis.Index.Boxes.{Boxes, IsBoxes}
use osggis.Index.Node.{RtEntry, RtNode, NodeTable, write, compute_extent}
use osggis.Index.Split.{set_parent}
use osggis.Index.Tree.{RTree, entry_of, refresh, split_if_full, adjust_parent}
use osggis.Index.Inv.{IsTree}
use osggis.Index.Table.{write_same, write_other}
use osggis.Index.Refresh.{length-refresh}
use osggis.Index.Refreshed.{refreshed-IsTree}
use osggis.Index.Link.{linked-IsTree}
use osggis.Index.Adjust.{extra_id, IsPending, split_if_full-IsPending}

module _ (b : Boxes) (law : IsBoxes b) (D : Type 0) where
  -- The first of three writes is to the key of the last.
  write_collapse :
      (table : NodeTable b D) (p q : ℕ) (n m k : RtNode b D)
      → write b D (write b D (write b D table p n) q m) p k ≡ write b D (write b D table q m) p k
  unfolding write
  write_collapse table p q n m k = fun_ext (λ id. ground arith)

  module _ (t : RTree b D) (items : List (RtEntry b D)) (n : ℕ) (o : Option ℕ) (high low : ℕ)
      (w : IsPending b law D t items n o high low) where
    open w use {level, node, tree, there}

    -- A node without a parent is the root.
    pub root_of : node.parent_id ≡ 0 → n ≡ t.root_id
    root_of e = elim (Bool-cases (n == t.root_id)) [
      | inl h ↦ (==_iff n t.root_id).0 h
      | inr h ↦
          let (k, x, at, _, _, _, _, _) = tree.linked n node there (ground arith) w.not_extra in
          let (positive, _, _) = tree.bounds node.parent_id k at in absurd (omega arith)
    ]

    not_root : node.parent_id ≢ 0 → n ≢ t.root_id
    not_root ne e =
        let (r, at, z) = tree.rooted in
        let same = some-inj node r (sym there ∙ ap t.node_table e ∙ at) in
        ne (ap (λ (z : RtNode b D). z.parent_id) same ∙ z)

    -- The step of adjustTree at a node that has a parent.
    module _ (parent : RtNode b D) (at_parent : t.node_table node.parent_id ≡ some parent)
        (inner_parent : parent.is_leaf ≡ false) (below : level n < level node.parent_id)
        (ne : n ≢ t.root_id) where
      abbrev p : ℕ
      p = node.parent_id

      abbrev entries' : List (RtEntry b D)
      entries' = refresh b D n (compute_extent b D node.entries) parent.entries

      abbrev parent' : RtNode b D
      parent' = record parent { entries = entries' }

      abbrev table1 : NodeTable b D
      table1 = write b D t.node_table p parent'

      abbrev refreshed : RTree b D
      refreshed = record t { node_table = table1 }

      tree1 : IsTree b law D table1 level t.root_id t.node_id_gen items p (extra_id o)
      tree1 =
          refreshed-IsTree b law D t.node_table level t.root_id t.node_id_gen items n (extra_id o)
            tree node parent there at_parent inner_parent w.some_entry w.small_node ne w.not_extra

      parent_small : length parent.entries < 64
      parent_small =
          tree.small p parent at_parent (λ e. let e' = ap level e in absurd (omega arith))

      same_length : length entries' ≡ length parent.entries
      same_length = length-refresh b D n (compute_extent b D node.entries) parent.entries

      some_parent : 0 < length entries'
      some_parent = omega (arith, same_length, tree.nonempty p parent at_parent inner_parent)

      refreshed-IsPending : o ≡ none → IsPending b law D refreshed items p none high (level p)
      refreshed-IsPending e = record {
        level = level;
        node = parent';
        tree =
            subst (λ z. IsTree b law D table1 level t.root_id t.node_id_gen items p (extra_id z)) e
              tree1;
        there = write_same b D t.node_table p parent';
        some_entry = some_parent;
        small_node = omega (arith, same_length, parent_small);
        beside = tt;
        highest = w.highest;
        lowest = refl;
        not_extra =
            let (positive, _, _) = tree.bounds p parent at_parent in (λ same. absurd (omega arith));
      }

      module _ (nn : ℕ) (is_nn : o ≡ some nn) (new : RtNode b D)
          (at_new : t.node_table nn ≡ some new) (some_new : 0 < length new.entries)
          (level_new : level nn ≡ level n) where
        abbrev new' : RtNode b D
        new' = record new { parent_id = p }

        abbrev parent'' : RtNode b D
        parent'' = record parent { entries = entries' ++ (entry_of b D nn new ∷ []) }

        abbrev table2 : NodeTable b D
        table2 = write b D (write b D t.node_table nn new') p parent''

        abbrev linked : RTree b D
        linked = record t { node_table = table2 }

        apart : nn ≢ p
        apart e = let e' = ap level e in absurd (omega arith)

        tree2 : IsTree b law D table2 level t.root_id t.node_id_gen items p 0
        tree2 =
            let not_root' : nn ≢ t.root_id = λ e.
              let e' = ap level e in
              let (_, _, top) = tree.bounds p parent at_parent in absurd (omega arith) in
            subst (λ z. IsTree b law D z level t.root_id t.node_id_gen items p 0)
              (write_collapse t.node_table p nn parent' new' parent'')
              (linked-IsTree b law D table1 level t.root_id t.node_id_gen items p nn
                (subst
                  (λ z. IsTree b law D table1 level t.root_id t.node_id_gen items p (extra_id z))
                  is_nn tree1)
                parent' new (write_same b D t.node_table p parent')
                (write_other b D t.node_table p nn parent' apart ∙ at_new) inner_parent some_new
                (omega arith) not_root')

        pub linked-IsPending :
            (t' : RTree b D) × (o' : Option ℕ) × (split_if_full b D linked p ≡ some (t', o'))
            × IsPending b law D t' items p o' (level t.root_id) (level p)
        linked-IsPending =
            let more = length-append entries' (entry_of b D nn new ∷ []) in
            split_if_full-IsPending b law D linked level items p tree2 parent''
              (write_same b D (write b D t.node_table nn new') p parent'') (omega arith)
              (omega (arith, same_length, parent_small))

  adjust_parent-none :
      (t : RTree b D) (n : ℕ) (node parent : RtNode b D)
      → t.node_table node.parent_id ≡ some parent
      → adjust_parent b D t n node node.parent_id none
        ≡ some (
          record t {
            node_table = write b D t.node_table node.parent_id (record parent {
              entries = refresh b D n (compute_extent b D node.entries) parent.entries;
            });
          },
          none,
        )
  unfolding adjust_parent
  adjust_parent-none t n node parent at = rw (at, ◌>>=◌) refl

  adjust_parent-some :
      (t : RTree b D) (n nn : ℕ) (node parent new : RtNode b D)
      → t.node_table node.parent_id ≡ some parent
      → t.node_table nn ≡ some new
      → adjust_parent b D t n node node.parent_id (some nn)
        ≡ split_if_full b D
            (record t {
              node_table =
                  write b D
                    (write b D t.node_table nn (record new { parent_id = node.parent_id }))
                    node.parent_id
                    (record parent {
                      entries =
                          refresh b D n (compute_extent b D node.entries) parent.entries
                          ++ (entry_of b D nn new ∷ []);
                    });
            })
            node.parent_id
  unfolding adjust_parent set_parent
  adjust_parent-some t n nn node parent new at at' = rw (at, ◌>>=◌, at') refl

  -- One step up.
  pub adjust_parent-IsPending :
      (t : RTree b D) (items : List (RtEntry b D)) (n : ℕ) (o : Option ℕ) (high low : ℕ)
      (w : IsPending b law D t items n o high low)
      → w.node.parent_id ≢ 0
      → (t' : RTree b D) × (o' : Option ℕ) × (low' : ℕ) × (adjust_parent b D t n w.node
            w.node.parent_id o
          ≡ some (t', o'))
        × IsPending b law D t' items w.node.parent_id o' high low'
        × (low < low')
        × (low' ≤ high)
  adjust_parent-IsPending t items n none high low w ne =
      let (k, x, at, t', lt, _, _, _) =
        w.tree.linked n w.node w.there (not_root t items n none high low w ne) w.not_extra in
      let (_, _, top) = w.tree.bounds w.node.parent_id k at in
      let q = w.highest in
      let r = w.lowest in
      (
        _,
        none,
        w.level w.node.parent_id,
        adjust_parent-none t n w.node k at,
        refreshed-IsPending t items n none high low w k at t' lt
            (not_root t items n none high low w ne) refl,
        omega arith,
        omega arith,
      )
  adjust_parent-IsPending t items n (some nn) high low w ne =
      let up = not_root t items n (some nn) high low w ne in
      let (k, x, at, t', lt, _, _, _) = w.tree.linked n w.node w.there up w.not_extra in
      let (_, _, top) = w.tree.bounds w.node.parent_id k at in
      let (new, at', some_new, same, apart) = w.beside in
      let q = w.highest in
      let r = w.lowest in
      let (t1, o', e, pending) =
        linked-IsPending t items n (some nn) high low w k at t' lt up nn refl new at' some_new
          same in
      (
        t1,
        o',
        w.level w.node.parent_id,
        adjust_parent-some t n nn w.node k new at at' ∙ e,
        subst (λ z. IsPending b law D t1 items w.node.parent_id o' z (w.level w.node.parent_id)) q
            pending,
        omega arith,
        omega arith,
      )
