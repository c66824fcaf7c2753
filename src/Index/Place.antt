-- ===== src/Index/Place.antt =====
-- An item put into a leaf (I2 of insert in src/osgGIS/RTree.cpp.inline).
use mathlib.Core.Path.{subst}
use osggis.Base.{
  ℕ, ◌≤◌, ◌<◌, ◌≡◌, ◌≢◌, refl, sym, ap, ◌∙◌, true, false, some, List, [], ◌∷◌, ◌++◌, ◌==◌, length,
  inl, inr, In, In-left, In-right, In-append, All-append, sum_of-append, arith, Bool-cases,
  some-inj, ==_iff, if◌then◌else◌,
}
use osggis.Index.Boxes.{Boxes, IsBoxes}
use osggis.Index.Node.{RtEntry, RtNode, NodeTable, write}
use osggis.Index.Tree.{is_child}
use osggis.Index.Inv.{count_child, IsData, IsInner, IsLinked, AreBoxes, IsTree}
use osggis.Index.Table.{write_same, write_other, write_elim}

module _ (b : Boxes) (law : IsBoxes b) (D : Type 0) (table : NodeTable b D) (level : ℕ → ℕ)
    (root gen : ℕ) (items : List (RtEntry b D)) (v : IsTree b law D table level root gen items 0 0)
    (l : ℕ) (node : RtNode b D) (at : table l ≡ some node) (is_leaf : node.is_leaf ≡ true)
    (x : RtEntry b D) (box : b.IsBox x.extent) (item : IsData b D x) where
  abbrev node' : RtNode b D
  node' = record node { entries = node.entries ++ (x ∷ []) }

  abbrev table' : NodeTable b D
  table' = write b D table l node'

  still :
      (c : ℕ) (m : RtNode b D)
      → table c ≡ some m
      → (m' : RtNode b D) × (table' c ≡ some m')
        × (m'.is_leaf ≡ m.is_leaf)
        × (m'.parent_id ≡ m.parent_id)
        × ((y : RtEntry b D) → In y m.entries → In y m'.entries)
  still c m e = elim (Bool-cases (c == l)) [
    | inl t ↦
        let same = (==_iff c l).0 t in
        let e' = some-inj m node (sym e ∙ ap table same ∙ at) in
        (
          node',
          ap table' same ∙ write_same b D table l node',
          sym (ap (λ (z : RtNode b D). z.is_leaf) e'),
          sym (ap (λ (z : RtNode b D). z.parent_id) e'),
          λ y i. In-left y node.entries (x ∷ []) (subst (λ (z : RtNode b D). In y z.entries) e' i),
        )
    | inr t ↦
        let there = write_other b D table l c node' (ground arith) ∙ e in
        (m, there, refl, refl, λ y i. i)
  ]

  linked_still :
      (id : ℕ) (m : RtNode b D)
      → IsLinked b law D table level 0 id m
      → (0 < id)
      → IsLinked b law D table' level l id m
  linked_still id m (k, y, at', t, lt, i, s, cover) positive =
      let (k', e', leaf, _, keep) = still m.parent_id k at' in
      (k', y, e', leaf ∙ t, lt, keep y i, s, λ _. cover (omega arith))

  count_data : (c : ℕ) → count_child b D c node'.entries ≡ count_child b D c node.entries
  count_data c =
      let (d, e) = item in
      let sum =
        sum_of-append (λ (y : RtEntry b D). if is_child b D c y.slot then 1 else 0) node.entries
          (x ∷ []) in
      let no : is_child b D c x.slot ≡ false = rw e refl in ground arith

  -- The tree has the item, and the extent of the leaf's entry in its parent may be out of date.
  pub placed-IsTree : IsTree b law D table' level root gen (x ∷ items) l 0
  placed-IsTree = record {
    bounds =
        write_elim b D (λ id m. (0 < id) × (id ≤ gen) × (level id ≤ level root)) table l node'
          (v.bounds l node at) (λ id m _ e. v.bounds id m e);
    small =
        write_elim b D (λ id m. id ≢ l → length m.entries < 64) table l node'
          (λ ne. absurd (ne refl))
          (λ id m _ e _. let (positive, _, _) = v.bounds id m e in v.small id m e (omega arith));
    boxes =
        write_elim b D (λ id m. AreBoxes b law D m.entries) table l node'
          (All-append (λ y. b.IsBox y.extent) node.entries (x ∷ []) (v.boxes l node at) (box, tt))
          (λ id m _ e. v.boxes id m e);
    unique =
        write_elim b D (λ id m. (c : ℕ) → count_child b D c m.entries ≤ 1) table l node'
          (λ c. omega (arith, count_data c, v.unique l node at c))
          (λ id m _ e c. v.unique id m e c);
    nonempty =
        write_elim b D (λ id m. m.is_leaf ≡ false → 0 < length m.entries) table l node'
          (λ t. absurd (cc)) (λ id m _ e t. v.nonempty id m e t);
    inner =
        write_elim b D
          (λ id m.
            m.is_leaf ≡ false
            → (y : RtEntry b D) → In y m.entries
            → IsInner b D table' level 0 id y)
          table l node' (λ t. absurd (cc))
          (λ id m _ e t y i.
            let (c, k, s, e', lt, ne, par) = v.inner id m e t y i in
            let (k', e'', _, same, _) = still c k e' in (c, k', s, e'', lt, ne, same ∙ par));
    leaf =
        write_elim b D
          (λ id m.
            m.is_leaf ≡ true → (y : RtEntry b D) → In y m.entries → IsData b D y × In y (x ∷ items))
          table l node'
          (λ t y i. elim (In-append y node.entries (x ∷ []) i) [
            | inl j ↦ let (p, q) = v.leaf l node at t y j in (p, inr q)
            | inr j ↦ elim j [
              | inl same ↦ (subst (IsData b D) (sym same) item, inl same)
              | inr nothing_left ↦ absurd nothing_left
            ]
          ])
          (λ id m _ e t y i. let (p, q) = v.leaf id m e t y i in (p, inr q));
    linked =
        write_elim b D (λ id m. id ≢ root → id ≢ 0 → IsLinked b law D table' level l id m) table l
          node'
          (λ ne ne'.
            let (k, y, at', t, lt, i, s, cover) = v.linked l node at ne ne' in
            let (positive, _, _) = v.bounds l node at in
            let (k', y', at'', t', lt', i', s', _) =
              linked_still l node (k, y, at', t, lt, i, s, cover) positive in
            (k', y', at'', t', lt', i', s', λ no. absurd (no refl)))
          (λ id m _ e ne ne'.
            let (positive, _, _) = v.bounds id m e in
            linked_still id m (v.linked id m e ne ne') positive);
    rooted =
        let (r, e, z) = v.rooted in let (m, e', _, same, _) = still root r e in (m, e', same ∙ z);
    kept = λ y i. elim i [
      | inl same ↦ (
        l,
        node',
        write_same b D table l node',
        is_leaf,
        In-right y node.entries (x ∷ []) (inl same),
      )
      | inr j ↦
          let (id, m, e, t, k) = v.kept y j in
          let (m', e', leaf, _, keep) = still id m e in (id, m', e', leaf ∙ t, keep y k)
    ];
  }
