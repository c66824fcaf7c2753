-- ===== src/Index/Climb.antt =====
-- adjustTree from a changed node up to the root (src/osgGIS/RTree.cpp.inline).
use mathlib.Core.Path.{subst}
use osggis.Base.{
  ℕ, zero, suc, ◌+◌, ◌≤◌, ◌<◌, ◌≡◌, ◌≢◌, refl, sym, ap, ◌∙◌, false, Option, none, some, List, [],
  ◌∷◌, ◌==◌, length, ◌>>=◌, inl, inr, arith, Bool-cases, some-inj, ==_iff, if◌then◌else◌,
}
use osggis.Index.Boxes.{Boxes, IsBoxes}
use osggis.Index.Node.{RtEntry, RtNode, write}
use osggis.Index.Split.{set_parent}
use osggis.Index.Tree.{RTree, entry_of, new_node, grow_root, adjust_tree}
use osggis.Index.Grow.{grown-IsTree}
use osggis.Index.Adjust.{IsPending, IsSettled}
use osggis.Index.Step.{root_of, adjust_parent-IsPending}

module _ (b : Boxes) (law : IsBoxes b) (D : Type 0) where
  -- At the root with no node beside it nothing is left to do.
  settle :
      (t : RTree b D) (items : List (RtEntry b D)) (high low : ℕ)
      → IsPending b law D t items t.root_id none high low
      → IsSettled b law D t items high
  settle t items high low w =
      let v = w.tree in
      record {
        level = w.level;
        tree = record {
          bounds = v.bounds;
          small = λ id m e _. elim (Bool-cases (id == t.root_id)) [
            | inl h ↦
                let same =
                  some-inj w.node m
                    (sym w.there ∙ ap t.node_table (sym ((==_iff id t.root_id).0 h)) ∙ e) in
                subst (λ (z : RtNode b D). length z.entries < 64) same w.small_node
            | inr h ↦ v.small id m e (ground arith)
          ];
          boxes = v.boxes;
          unique = v.unique;
          nonempty = v.nonempty;
          inner = v.inner;
          leaf = v.leaf;
          linked = λ id m e ne ne'.
              let (k, x, at, leaf, lt, i, s, cover) = v.linked id m e ne ne' in
              (k, x, at, leaf, lt, i, s, λ _. cover ne);
          rooted = v.rooted;
          kept = v.kept;
        };
        highest = w.highest;
      }

  grow_root_lem :
      (t : RTree b D) (nn : ℕ) (old new : RtNode b D)
      → t.node_table t.root_id ≡ some old
      → t.node_table nn ≡ some new
      → nn ≢ t.root_id
      → let p = suc t.node_id_gen in
        let old' : RtNode b D = record old { parent_id = p } in
        let new' : RtNode b D = record new { parent_id = p } in
        let top = new_node b D 0 false (entry_of b D t.root_id old ∷ entry_of b D nn new ∷ []) in
        grow_root b D t t.root_id nn
        ≡ some (record {
          node_table = write b D (write b D (write b D t.node_table t.root_id old') nn new') p top;
          root_id = p;
          node_id_gen = p;
        })
  unfolding grow_root set_parent
  grow_root_lem t nn old new at at' ne =
      let h : (nn == t.root_id) ≡ false = ground arith in rw (at, ◌>>=◌, at', h) refl

  -- At the root with a node beside it a new root is put above them.
  grow_root-IsSettled :
      (t : RTree b D) (items : List (RtEntry b D)) (nn high low : ℕ)
      → IsPending b law D t items t.root_id (some nn) high low
      → (t' : RTree b D) × (grow_root b D t t.root_id nn ≡ some t')
        × IsSettled b law D t' items (suc high)
  grow_root-IsSettled t items nn high low w =
      let (new, at', some_new, same, apart) = w.beside in
      let p = suc t.node_id_gen in
      let old' : RtNode b D = record w.node { parent_id = p } in
      let new' : RtNode b D = record new { parent_id = p } in
      let top = new_node b D 0 false (entry_of b D t.root_id w.node ∷ entry_of b D nn new ∷ []) in
      (
        record {
          node_table = write b D (write b D (write b D t.node_table t.root_id old') nn new') p top;
          root_id = p;
          node_id_gen = p;
        },
        grow_root_lem t nn w.node new w.there at' apart,
        record {
          level = λ id. if id == p then suc (w.level t.root_id) else w.level id;
          tree =
              grown-IsTree b law D t.node_table w.level t.root_id t.node_id_gen items nn w.tree
                w.node new w.there at' w.some_entry w.small_node some_new apart;
          highest = let q = w.highest in ground arith;
        },
      )

  -- What adjustTree does at the root.
  abbrev stop : RTree b D → Option ℕ → ℕ → Option (RTree b D)
  stop t o n = elim o [ none ↦ some t | some nn ↦ grow_root b D t n nn ]

  at_root :
      (t : RTree b D) (items : List (RtEntry b D)) (o : Option ℕ) (high low : ℕ)
      → IsPending b law D t items t.root_id o high low
      → (t' : RTree b D) × (high' : ℕ) × (stop t o t.root_id ≡ some t')
        × IsSettled b law D t' items high'
        × (high' ≤ suc high)
  at_root t items none high low w = (t, high, refl, settle t items high low w, omega arith)
  at_root t items (some nn) high low w =
      let (t', e, s) = grow_root-IsSettled t items nn high low w in
      (t', suc high, e, s, omega arith)

  -- adjustTree ends, and the root has gone up by a level at most.
  pub adjust_tree-IsSettled :
      (fuel : ℕ) (t : RTree b D) (items : List (RtEntry b D)) (n : ℕ) (o : Option ℕ) (high low : ℕ)
      → IsPending b law D t items n o high low
      → low ≤ high
      → high < low + fuel
      → (t' : RTree b D) × (high' : ℕ) × (adjust_tree b D fuel t n o ≡ some t')
        × IsSettled b law D t' items high'
        × (high' ≤ suc high)
  unfolding adjust_tree
  adjust_tree-IsSettled zero t items n o high low w h k = absurd (omega arith)
  adjust_tree-IsSettled (suc fuel) t items n o high low w h k =
      elim (Bool-cases (w.node.parent_id == 0)) [
        | inl e ↦
            let root = root_of b law D t items n o high low w ((==_iff w.node.parent_id 0).0 e) in
            let w' = subst (λ z. IsPending b law D t items z o high low) root w in
            let (t', high', e', s, l) = at_root t items o high low w' in
            (t', high', rw (w.there, ◌>>=◌, e) (ap (stop t o) root ∙ e'), s, l)
        | inr e ↦
            let (t', o', low', e', w', lt, le) =
              adjust_parent-IsPending b law D t items n o high low w (ground arith) in
            let (t'', high', e'', s, l) =
              adjust_tree-IsSettled fuel t' items w.node.parent_id o' high low' w' le
                (omega arith) in
            (t'', high', rw (w.there, ◌>>=◌, e, e') e'', s, l)
      ]
