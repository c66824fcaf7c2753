-- ===== src/Index/Link.antt =====
-- The entry that adjustTree adds to a parent for the new node beside a split one
-- (src/osgGIS/RTree.cpp.inline).
use mathlib.Core.Path.{subst}
use osggis.Base.{
  ℕ, ◌≤◌, ◌<◌, ◌≡◌, ◌≢◌, refl, sym, ap, ◌∙◌, true, false, some, List, [], ◌∷◌, ◌++◌, ◌==◌, ltb,
  length, inl, inr, In, In-left, In-right, In-append, All-append, length-append, sum_of-append,
  arith, Bool-cases, some-inj, ==_iff, if◌then◌else◌,
}
use osggis.Index.Boxes.{Boxes, IsBoxes}
use osggis.Index.Node.{RtEntry, RtNode, NodeTable, write}
use osggis.Index.Tree.{is_child, entry_of}
use osggis.Index.Extent.{compute_extent-Covers}
use osggis.Index.Inv.{count_child, IsData, IsInner, IsLinked, AreBoxes, Covers, IsTree}
use osggis.Index.Table.{write_same, write_other, write_elim, count_child-In}

module _ (b : Boxes) (law : IsBoxes b) (D : Type 0) (table : NodeTable b D) (level : ℕ → ℕ)
    (root gen : ℕ) (items : List (RtEntry b D)) (p nn : ℕ)
    (v : IsTree b law D table level root gen items p nn) (parent new : RtNode b D)
    (at_parent : table p ≡ some parent) (at_new : table nn ≡ some new)
    (inner_parent : parent.is_leaf ≡ false) (some_entry : 0 < length new.entries)
    (below : level nn < level p) (not_root : nn ≢ root) where
  abbrev entry : RtEntry b D
  entry = entry_of b D nn new

  abbrev new' : RtNode b D
  new' = record new { parent_id = p }

  abbrev parent' : RtNode b D
  parent' = record parent { entries = parent.entries ++ (entry ∷ []) }

  abbrev table1 : NodeTable b D
  table1 = write b D table nn new'

  abbrev table' : NodeTable b D
  table' = write b D table1 p parent'

  two_nodes : nn ≢ p
  two_nodes e = let e' = ap level e in absurd (omega arith)

  table'-p : table' p ≡ some parent'
  table'-p = write_same b D table1 p parent'

  table'_nn : table' nn ≡ some new'
  table'_nn = write_other b D table1 p nn parent' two_nodes ∙ write_same b D table nn new'

  table'_other : (id : ℕ) → id ≢ p → id ≢ nn → table' id ≡ table id
  table'_other id h k = write_other b D table1 p id parent' h ∙ write_other b D table nn id new' k

  table'_elim :
      (P : ℕ → RtNode b D → Type 0)
      → P p parent'
      → P nn new'
      → ((id : ℕ) (m : RtNode b D) → id ≢ p → id ≢ nn → table id ≡ some m → P id m)
      → (id : ℕ) (m : RtNode b D) → table' id ≡ some m
      → P id m
  table'_elim P h k other = write_elim b D P table1 p parent' h (λ id m ne e.
      write_elim b D (λ id m. id ≢ p → P id m) table nn new' (λ _. k)
        (λ id m ne e ne'. other id m ne' ne e) id m e ne)

  -- The entries of a node are among those of the node after the step.
  still :
      (c : ℕ) (m : RtNode b D)
      → table c ≡ some m
      → (m' : RtNode b D) × (table' c ≡ some m')
        × (m'.is_leaf ≡ m.is_leaf)
        × (c ≢ nn → m'.parent_id ≡ m.parent_id)
        × ((x : RtEntry b D) → In x m.entries → In x m'.entries)
  still c m e = elim (Bool-cases (c == p)) [
    | inl t ↦
        let same = (==_iff c p).0 t in
        let e' = some-inj m parent (sym e ∙ ap table same ∙ at_parent) in
        (
          parent',
          ap table' same ∙ table'-p,
          sym (ap (λ (z : RtNode b D). z.is_leaf) e'),
          λ _. sym (ap (λ (z : RtNode b D). z.parent_id) e'),
          λ x i.
              In-left x parent.entries (entry ∷ [])
                (subst (λ (z : RtNode b D). In x z.entries) e' i),
        )
    | inr t ↦ elim (Bool-cases (c == nn)) [
      | inl t' ↦
          let same = (==_iff c nn).0 t' in
          let e' = some-inj m new (sym e ∙ ap table same ∙ at_new) in
          (
            new',
            ap table' same ∙ table'_nn,
            sym (ap (λ (z : RtNode b D). z.is_leaf) e'),
            λ ne. absurd (ne same),
            λ x i. subst (λ (z : RtNode b D). In x z.entries) e' i,
          )
      | inr t' ↦
          let there = table'_other c (ground arith) (ground arith) ∙ e in
          (m, there, refl, λ _. refl, λ x i. i)
    ]
  ]

  IsInner-still :
      (id : ℕ) (x : RtEntry b D) → IsInner b D table level nn id x → IsInner b D table' level 0 id x
  IsInner-still id x (c, m, s, e, lt, ne, par) =
      let (m', e', _, k, _) = still c m e in
      let (positive, _, _) = v.bounds c m e in (c, m', s, e', lt, omega arith, k ne ∙ par)

  IsLinked-still :
      (id : ℕ) (m : RtNode b D)
      → IsLinked b law D table level p id m
      → IsLinked b law D table' level p id m
  IsLinked-still id m (k, x, at', t, lt, i, s, cover) =
      let (k', e', leaf, _, keep) = still m.parent_id k at' in
      (k', x, e', leaf ∙ t, lt, keep x i, s, cover)

  covered : b.IsBox entry.extent × Covers b law D entry.extent new.entries
  covered = compute_extent-Covers b law D new.entries some_entry (v.boxes nn new at_new)

  entry-IsInner : IsInner b D table' level 0 p entry
  entry-IsInner =
      let (positive, _, _) = v.bounds nn new at_new in
      (nn, new', refl, table'_nn, below, omega arith, refl)

  entry-IsLinked : IsLinked b law D table' level p nn new'
  entry-IsLinked = (
    parent',
    entry,
    table'-p,
    inner_parent,
    below,
    In-right entry parent.entries (entry ∷ []) (inl refl),
    refl,
    λ _. covered.1,
  )

  -- No entry of the parent refers to the new node yet.
  unique_parent : (c : ℕ) → count_child b D c parent'.entries ≤ 1
  unique_parent c =
      let sum =
        sum_of-append (λ (x : RtEntry b D). if is_child b D c x.slot then 1 else 0) parent.entries
          (entry ∷ []) in
      let one = v.unique p parent at_parent c in
      elim (Bool-cases (nn == c)) [
        | inl t ↦ elim (Bool-cases (ltb 0 (count_child b D c parent.entries))) [
          | inl t' ↦
              let (x, i, s) = count_child-In b D c parent.entries (ground arith) in
              let (c', m, s', e, _, ne, _) = v.inner p parent at_parent inner_parent x i in
              let same : c' ≡ c = cc in absurd (ne (same ∙ sym ((==_iff nn c).0 t)))
          | inr t' ↦ ground arith
        ]
        | inr t ↦ ground arith
      ]

  -- With its entry in the parent the new node is part of the tree.
  pub linked-IsTree : IsTree b law D table' level root gen items p 0
  linked-IsTree = record {
    bounds =
        table'_elim (λ id m. (0 < id) × (id ≤ gen) × (level id ≤ level root))
          (v.bounds p parent at_parent) (v.bounds nn new at_new) (λ id m _ _ e. v.bounds id m e);
    small =
        table'_elim (λ id m. id ≢ p → length m.entries < 64) (λ ne. absurd (ne refl))
          (λ ne. v.small nn new at_new ne) (λ id m _ _ e ne. v.small id m e ne);
    boxes =
        table'_elim (λ id m. AreBoxes b law D m.entries)
          (All-append (λ x. b.IsBox x.extent) parent.entries (entry ∷ [])
            (v.boxes p parent at_parent) (covered.0, tt))
          (v.boxes nn new at_new) (λ id m _ _ e. v.boxes id m e);
    unique =
        table'_elim (λ id m. (c : ℕ) → count_child b D c m.entries ≤ 1) unique_parent
          (λ c. v.unique nn new at_new c) (λ id m _ _ e c. v.unique id m e c);
    nonempty =
        table'_elim (λ id m. m.is_leaf ≡ false → 0 < length m.entries)
          (λ t. omega (arith, length-append parent.entries (entry ∷ [])))
          (λ t. v.nonempty nn new at_new t) (λ id m _ _ e t. v.nonempty id m e t);
    inner =
        table'_elim
          (λ id m.
            m.is_leaf ≡ false
            → (x : RtEntry b D) → In x m.entries
            → IsInner b D table' level 0 id x)
          (λ t x i. elim (In-append x parent.entries (entry ∷ []) i) [
            | inl j ↦ IsInner-still p x (v.inner p parent at_parent t x j)
            | inr j ↦ elim j [
              | inl same ↦ subst (λ z. IsInner b D table' level 0 p z) (sym same) entry-IsInner
              | inr nothing_left ↦ absurd nothing_left
            ]
          ])
          (λ t x i. IsInner-still nn x (v.inner nn new at_new t x i))
          (λ id m _ _ e t x i. IsInner-still id x (v.inner id m e t x i));
    leaf =
        table'_elim
          (λ id m.
            m.is_leaf ≡ true → (x : RtEntry b D) → In x m.entries → IsData b D x × In x items)
          (λ t. absurd (cc)) (λ t x i. v.leaf nn new at_new t x i)
          (λ id m _ _ e t x i. v.leaf id m e t x i);
    linked =
        table'_elim (λ id m. id ≢ root → id ≢ 0 → IsLinked b law D table' level p id m)
          (λ ne _.
            let (k, x, at', t, lt, i, s, cover) =
              IsLinked-still p parent (v.linked p parent at_parent ne (λ e. two_nodes (sym e))) in
            (k, x, at', t, lt, i, s, λ no. absurd (no refl)))
          (λ _ _. entry-IsLinked)
          (λ id m _ ne' e ne _. IsLinked-still id m (v.linked id m e ne ne'));
    rooted =
        let (r, e, z) = v.rooted in
        let (m, e', _, k, _) = still root r e in (m, e', k (λ same. not_root (sym same)) ∙ z);
    kept = λ x i.
        let (id, m, e, t, j) = v.kept x i in
        let (m', e', leaf, _, keep) = still id m e in (id, m', e', leaf ∙ t, keep x j);
  }
