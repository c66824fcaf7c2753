-- ===== src/Index/Refreshed.antt =====
-- The invariant after a changed node has got its extent anew in its parent, by adjustTree
-- (src/osgGIS/RTree.cpp.inline).
use mathlib.Core.Path.{subst}
use osggis.Base.{
  ℕ, ◌≤◌, ◌<◌, ◌≡◌, ◌≢◌, refl, sym, ap, ◌∙◌, true, false, some, List, ◌==◌, length, inl, inr, In,
  arith, Bool-cases, some-inj, ==_iff,
}
use osggis.Index.Boxes.{Boxes, IsBoxes}
use osggis.Index.Node.{child_id, RtEntry, RtNode, NodeTable, write, compute_extent}
use osggis.Index.Tree.{refresh}
use osggis.Index.Extent.{compute_extent-Covers}
use osggis.Index.Inv.{count_child, IsData, IsInner, IsLinked, IsKept, AreBoxes, Covers, IsTree}
use osggis.Index.Table.{write_same, write_other, write_elim}
use osggis.Index.Refresh.{
  refresh-All, length-refresh, count_child-refresh, refresh-In, refresh_other, refresh_hit,
}

module _ (b : Boxes) (law : IsBoxes b) (D : Type 0) (table : NodeTable b D) (level : ℕ → ℕ)
    (root gen : ℕ) (items : List (RtEntry b D)) (n extra : ℕ)
    (v : IsTree b law D table level root gen items n extra) (node parent : RtNode b D)
    (at : table n ≡ some node) (at_parent : table node.parent_id ≡ some parent)
    (inner_parent : parent.is_leaf ≡ false) (some_entry : 0 < length node.entries)
    (small_node : length node.entries < 64) (not_root : n ≢ root) (not_extra : n ≢ extra) where
  abbrev p : ℕ
  p = node.parent_id

  abbrev ext : b.Box
  ext = compute_extent b D node.entries

  abbrev parent' : RtNode b D
  parent' = record parent { entries = refresh b D n ext parent.entries }

  abbrev table' : NodeTable b D
  table' = write b D table p parent'

  covered : b.IsBox ext × Covers b law D ext node.entries
  covered = compute_extent-Covers b law D node.entries some_entry (v.boxes n node at)

  -- A node of the table is there after the write, with the same parent.
  still :
      (c : ℕ) (m : RtNode b D)
      → table c ≡ some m
      → (m' : RtNode b D) × (table' c ≡ some m') × (m'.parent_id ≡ m.parent_id)
  still c m e = elim (Bool-cases (c == p)) [
    | inl t ↦
        let same = (==_iff c p).0 t in
        let e' = some-inj m parent (sym e ∙ ap table same ∙ at_parent) in
        (
          parent',
          ap table' same ∙ write_same b D table p parent',
          sym (ap (λ (z : RtNode b D). z.parent_id) e'),
        )
    | inr t ↦ (m, write_other b D table p c parent' (ground arith) ∙ e, refl)
  ]

  IsInner-still :
      (id : ℕ) (x y : RtEntry b D)
      → x.slot ≡ y.slot
      → IsInner b D table level extra id y
      → IsInner b D table' level extra id x
  IsInner-still id x y same (c, m, s, e, lt, ne, par) =
      let (m', e', k) = still c m e in (c, m', same ∙ s, e', lt, ne, k ∙ par)

  -- A node that is not `n` with an entry in `p` keeps the entry; that of `n` covers it now.
  linked_parent :
      (id : ℕ) (m : RtNode b D) (x : RtEntry b D)
      → table id ≡ some m
      → In x parent.entries
      → x.slot ≡ child_id id
      → (id ≢ n → Covers b law D x.extent m.entries)
      → (y : RtEntry b D) × In y parent'.entries
        × (y.slot ≡ child_id id)
        × Covers b law D y.extent m.entries
  linked_parent id m x e i s cover = elim (Bool-cases (id == n)) [
    | inl t ↦
        let is_n = (==_iff id n).0 t in
        let (y, j, s', e') = refresh_hit b D n ext x parent.entries i (s ∙ ap child_id is_n) in
        let node_m = some-inj node m (sym at ∙ ap table (sym is_n) ∙ e) in
        (
          y,
          j,
          s' ∙ ap child_id (sym is_n),
          subst (λ z. Covers b law D z m.entries) (sym e')
              (subst (λ (z : RtNode b D). Covers b law D ext z.entries) node_m covered.1),
        )
    | inr t ↦
        let ne : id ≢ n = ground arith in
        (x, refresh_other b D n ext x id parent.entries i s ne, s, cover ne)
  ]

  IsLinked-still :
      (id : ℕ) (m : RtNode b D)
      → table id ≡ some m
      → IsLinked b law D table level n id m
      → IsLinked b law D table' level p id m
  IsLinked-still id m e (k, x, at', t, lt, i, s, cover) = elim (Bool-cases (m.parent_id == p)) [
    | inl t' ↦
        let same = (==_iff m.parent_id p).0 t' in
        let k_parent = some-inj k parent (sym at' ∙ ap table same ∙ at_parent) in
        let i' = subst (λ (z : RtNode b D). In x z.entries) k_parent i in
        let (y, j, s', cover') = linked_parent id m x e i' s cover in
        (
          parent',
          y,
          ap table' same ∙ write_same b D table p parent',
          inner_parent,
          lt,
          j,
          s',
          λ _. cover',
        )
    | inr t' ↦
        let ne : m.parent_id ≢ p = ground arith in
        (
          k,
          x,
          write_other b D table p m.parent_id parent' ne ∙ at',
          t,
          lt,
          i,
          s,
          λ _. cover (λ is_n.
              let m_node = some-inj m node (sym e ∙ ap table is_n ∙ at) in
              ne (ap (λ (z : RtNode b D). z.parent_id) m_node)),
        )
  ]

  IsKept-still : (x : RtEntry b D) → In x items → IsKept b D table' x
  IsKept-still x i =
      let (id, m, e, t, j) = v.kept x i in
      (
        id,
        m,
        write_other b D table p id parent' (λ is_p.
              let m_parent = some-inj m parent (sym e ∙ ap table is_p ∙ at_parent) in
              let t' = ap (λ (z : RtNode b D). z.is_leaf) m_parent in absurd (cc))
            ∙ e,
        t,
        j,
      )

  -- With the extent anew, the entry of `n` in its parent covers it; the parent's own may not.
  pub refreshed-IsTree : IsTree b law D table' level root gen items p extra
  refreshed-IsTree = record {
    bounds =
        write_elim b D (λ id m. (0 < id) × (id ≤ gen) × (level id ≤ level root)) table p parent'
          (v.bounds p parent at_parent) (λ id m _ e. v.bounds id m e);
    small =
        write_elim b D (λ id m. id ≢ p → length m.entries < 64) table p parent'
          (λ ne. absurd (ne refl))
          (λ id m _ e _. elim (Bool-cases (id == n)) [
            | inl t ↦
                let node_m = some-inj node m (sym at ∙ ap table (sym ((==_iff id n).0 t)) ∙ e) in
                subst (λ (z : RtNode b D). length z.entries < 64) node_m small_node
            | inr t ↦ v.small id m e (ground arith)
          ]);
    boxes =
        write_elim b D (λ id m. AreBoxes b law D m.entries) table p parent'
          (refresh-All b D n ext b.IsBox parent.entries covered.0 (v.boxes p parent at_parent))
          (λ id m _ e. v.boxes id m e);
    unique =
        write_elim b D (λ id m. (c : ℕ) → count_child b D c m.entries ≤ 1) table p parent'
          (λ c.
            omega (
              arith,
              count_child-refresh b D n ext c parent.entries,
              v.unique p parent at_parent c,
            ))
          (λ id m _ e. v.unique id m e);
    nonempty =
        write_elim b D (λ id m. m.is_leaf ≡ false → 0 < length m.entries) table p parent'
          (λ t.
            omega (arith, length-refresh b D n ext parent.entries, v.nonempty p parent at_parent t))
          (λ id m _ e. v.nonempty id m e);
    inner =
        write_elim b D
          (λ id m.
            m.is_leaf ≡ false
            → (x : RtEntry b D) → In x m.entries
            → IsInner b D table' level extra id x)
          table p parent'
          (λ t x i.
            let (y, j, same) = refresh-In b D n ext x parent.entries i in
            IsInner-still p x y same (v.inner p parent at_parent t y j))
          (λ id m _ e t x i. IsInner-still id x x refl (v.inner id m e t x i));
    leaf =
        write_elim b D
          (λ id m.
            m.is_leaf ≡ true → (x : RtEntry b D) → In x m.entries → IsData b D x × In x items)
          table p parent' (λ t. absurd (cc)) (λ id m _ e. v.leaf id m e);
    linked =
        write_elim b D (λ id m. id ≢ root → id ≢ extra → IsLinked b law D table' level p id m) table
          p parent'
          (λ ne ne'.
            let (k, x, at', t, lt, i, s, cover) =
              IsLinked-still p parent at_parent (v.linked p parent at_parent ne ne') in
            (k, x, at', t, lt, i, s, λ no. absurd (no refl)))
          (λ id m _ e ne ne'. IsLinked-still id m e (v.linked id m e ne ne'));
    rooted = let (r, e, z) = v.rooted in let (m, e', k) = still root r e in (m, e', k ∙ z);
    kept = IsKept-still;
  }
