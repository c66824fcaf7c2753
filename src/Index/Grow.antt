-- ===== src/Index/Grow.antt =====
-- The new root above a split one (I4 of adjustTree in src/osgGIS/RTree.cpp.inline).
use mathlib.Core.Path.{subst}
use osggis.Base.{
  ℕ, suc, ◌≤◌, ◌<◌, ◌≡◌, ◌≢◌, refl, sym, ap, ◌∙◌, true, false, some, List, [], ◌∷◌, ◌==◌, length,
  inl, inr, In, arith, Bool-cases, some-inj, ==_iff, if◌then◌else◌,
}
use osggis.Index.Boxes.{Boxes, IsBoxes}
use osggis.Index.Node.{RtEntry, RtNode, NodeTable, write, compute_extent}
use osggis.Index.Tree.{entry_of, new_node}
use osggis.Index.Extent.{compute_extent-Covers}
use osggis.Index.Inv.{count_child, IsData, IsInner, IsLinked, AreBoxes, Covers, IsTree}
use osggis.Index.Table.{write_same, write_other, write_elim}

module _ (b : Boxes) (law : IsBoxes b) (D : Type 0) (table : NodeTable b D) (level : ℕ → ℕ)
    (root gen : ℕ) (items : List (RtEntry b D)) (nn : ℕ)
    (v : IsTree b law D table level root gen items root nn) (old new : RtNode b D)
    (at_root : table root ≡ some old) (at_new : table nn ≡ some new)
    (old_entry : 0 < length old.entries) (old_small : length old.entries < 64)
    (new_entry : 0 < length new.entries) (two_nodes : nn ≢ root) where
  abbrev p : ℕ
  p = suc gen

  abbrev old' : RtNode b D
  old' = record old { parent_id = p }

  abbrev new' : RtNode b D
  new' = record new { parent_id = p }

  abbrev top : RtNode b D
  top = new_node b D 0 false (entry_of b D root old ∷ entry_of b D nn new ∷ [])

  abbrev table1 : NodeTable b D
  table1 = write b D table root old'

  abbrev table2 : NodeTable b D
  table2 = write b D table1 nn new'

  abbrev table' : NodeTable b D
  table' = write b D table2 p top

  abbrev level' : ℕ → ℕ
  level' id = if id == p then suc (level root) else level id

  level'_old : (id : ℕ) → id ≤ gen → level' id ≡ level id
  level'_old id h = ground arith

  level'-p : level' p ≡ suc (level root)
  level'-p = ground arith

  root_bounds : (0 < root) × (root ≤ gen) × (level root ≤ level root)
  root_bounds = v.bounds root old at_root

  new_bounds : (0 < nn) × (nn ≤ gen) × (level nn ≤ level root)
  new_bounds = v.bounds nn new at_new

  table'-p : table' p ≡ some top
  table'-p = write_same b D table2 p top

  table'_old : (id : ℕ) → id ≤ gen → table' id ≡ table2 id
  table'_old id h = write_other b D table2 p id top (omega arith)

  table'-root : table' root ≡ some old'
  table'-root =
      table'_old root root_bounds.1
      ∙ (write_other b D table1 nn root new' (λ e. two_nodes (sym e))
          ∙ write_same b D table root old')

  table'_nn : table' nn ≡ some new'
  table'_nn = table'_old nn new_bounds.1 ∙ write_same b D table1 nn new'

  table'_other : (id : ℕ) → id ≤ gen → id ≢ root → id ≢ nn → table' id ≡ table id
  table'_other id l h k =
      table'_old id l ∙ (write_other b D table1 nn id new' k ∙ write_other b D table root id old' h)

  table'_elim :
      (P : ℕ → RtNode b D → Type 0)
      → P p top
      → P root old'
      → P nn new'
      → ((id : ℕ) (m : RtNode b D) → id ≢ p → id ≢ root → id ≢ nn → table id ≡ some m → P id m)
      → (id : ℕ) (m : RtNode b D) → table' id ≡ some m
      → P id m
  table'_elim P h k l other = write_elim b D P table2 p top h (λ id m ne e.
      write_elim b D (λ id m. id ≢ p → P id m) table1 nn new' (λ _. l)
        (λ id m ne e ne''.
          write_elim b D (λ id m. id ≢ p → id ≢ nn → P id m) table root old' (λ _ _. k)
            (λ id m ne e ne1 ne2. other id m ne1 ne ne2 e) id m e ne'' ne)
        id m e ne)

  -- A node keeps its entries, and its parent too if it is not one of the two.
  still :
      (c : ℕ) (m : RtNode b D)
      → table c ≡ some m
      → (m' : RtNode b D) × (table' c ≡ some m')
        × (m'.is_leaf ≡ m.is_leaf)
        × (c ≢ root → c ≢ nn → m'.parent_id ≡ m.parent_id)
        × (m.entries ≡ m'.entries)
  still c m e = elim (Bool-cases (c == root)) [
    | inl t ↦
        let same = (==_iff c root).0 t in
        let e' = some-inj m old (sym e ∙ ap table same ∙ at_root) in
        (
          old',
          ap table' same ∙ table'-root,
          sym (ap (λ (z : RtNode b D). z.is_leaf) e'),
          λ ne _. absurd (ne same),
          ap (λ (z : RtNode b D). z.entries) e',
        )
    | inr t ↦ elim (Bool-cases (c == nn)) [
      | inl t' ↦
          let same = (==_iff c nn).0 t' in
          let e' = some-inj m new (sym e ∙ ap table same ∙ at_new) in
          (
            new',
            ap table' same ∙ table'_nn,
            sym (ap (λ (z : RtNode b D). z.is_leaf) e'),
            λ _ ne. absurd (ne same),
            ap (λ (z : RtNode b D). z.entries) e',
          )
      | inr t' ↦
          let (_, small, _) = v.bounds c m e in
          let there = table'_other c small (ground arith) (ground arith) ∙ e in
          (m, there, refl, λ _ _. refl, refl)
    ]
  ]

  -- The root is in no entry, since its level is the highest.
  IsInner-still :
      (id : ℕ) (m : RtNode b D) (x : RtEntry b D)
      → table id ≡ some m
      → IsInner b D table level nn id x
      → IsInner b D table' level' 0 id x
  IsInner-still id m x at (c, k, s, e, lt, ne, par) =
      let (positive, small, _) = v.bounds c k e in
      let (_, small', highest) = v.bounds id m at in
      let (k', e', _, keep, _) = still c k e in
      let below = level'_old c small in
      let above = level'_old id small' in
      let not_top : c ≢ root = λ same. let same' = ap level same in absurd (omega arith) in
      (c, k', s, e', omega arith, omega arith, keep not_top ne ∙ par)

  IsLinked-still :
      (id : ℕ) (m : RtNode b D)
      → table id ≡ some m
      → id ≢ root
      → IsLinked b law D table level root id m
      → IsLinked b law D table' level' 0 id m
  IsLinked-still id m at ne (k, x, at', t, lt, i, s, cover) =
      let (_, small, _) = v.bounds id m at in
      let (_, small', _) = v.bounds m.parent_id k at' in
      let (k', e', leaf, _, keep) = still m.parent_id k at' in
      let below = level'_old id small in
      let above = level'_old m.parent_id small' in
      (k', x, e', leaf ∙ t, omega arith, subst (In x) keep i, s, λ _. cover ne)

  root_covered :
      b.IsBox (compute_extent b D old.entries)
      × Covers b law D (compute_extent b D old.entries) old.entries
  root_covered = compute_extent-Covers b law D old.entries old_entry (v.boxes root old at_root)

  new_covered :
      b.IsBox (compute_extent b D new.entries)
      × Covers b law D (compute_extent b D new.entries) new.entries
  new_covered = compute_extent-Covers b law D new.entries new_entry (v.boxes nn new at_new)

  root-IsLinked : IsLinked b law D table' level' 0 root old'
  root-IsLinked =
      let low = level'_old root root_bounds.1 in
      let high = level'-p in
      (top, entry_of b D root old, table'-p, refl, omega arith, inl refl, refl, λ _. root_covered.1)

  new-IsLinked : IsLinked b law D table' level' 0 nn new'
  new-IsLinked =
      let (_, small, below) = new_bounds in
      let low = level'_old nn small in
      let high = level'-p in
      (
        top,
        entry_of b D nn new,
        table'-p,
        refl,
        omega arith,
        inr (inl refl),
        refl,
        λ _. new_covered.1,
      )

  top-IsInner : (x : RtEntry b D) → In x top.entries → IsInner b D table' level' 0 p x
  top-IsInner x (inl e) =
      let (positive, small, _) = root_bounds in
      let low = level'_old root small in
      let high = level'-p in
      (root, old', ap (λ (z : RtEntry b D). z.slot) e, table'-root, omega arith, omega arith, refl)
  top-IsInner x (inr (inl e)) =
      let (positive, small, below) = new_bounds in
      let low = level'_old nn small in
      let high = level'-p in
      (nn, new', ap (λ (z : RtEntry b D). z.slot) e, table'_nn, omega arith, omega arith, refl)
  top-IsInner x (inr (inr i)) = absurd i

  -- The tree under the new root.
  pub grown-IsTree : IsTree b law D table' level' p p items 0 0
  grown-IsTree = record {
    bounds =
        let (positive, small, _) = root_bounds in
        let (positive', small', below') = new_bounds in
        table'_elim (λ id m. (0 < id) × (id ≤ p) × (level' id ≤ level' p))
          (omega arith, omega arith, omega arith)
          (positive, omega arith, omega (arith, level'_old root small, level'-p))
          (positive', omega arith, omega (arith, level'_old nn small', level'-p))
          (λ id m _ _ _ e.
            let (q, r, s) = v.bounds id m e in
            (q, omega arith, omega (arith, level'_old id r, level'-p)));
    small =
        table'_elim (λ id m. id ≢ 0 → length m.entries < 64) (λ _. omega arith) (λ _. old_small)
          (λ _. v.small nn new at_new two_nodes) (λ id m _ ne _ e _. v.small id m e ne);
    boxes =
        table'_elim (λ id m. AreBoxes b law D m.entries) (root_covered.0, (new_covered.0, tt))
          (v.boxes root old at_root) (v.boxes nn new at_new) (λ id m _ _ _ e. v.boxes id m e);
    unique =
        table'_elim (λ id m. (c : ℕ) → count_child b D c m.entries ≤ 1) (λ c. ground arith)
          (λ c. v.unique root old at_root c) (λ c. v.unique nn new at_new c)
          (λ id m _ _ _ e c. v.unique id m e c);
    nonempty =
        table'_elim (λ id m. m.is_leaf ≡ false → 0 < length m.entries) (λ _. omega arith)
          (λ t. v.nonempty root old at_root t) (λ t. v.nonempty nn new at_new t)
          (λ id m _ _ _ e t. v.nonempty id m e t);
    inner =
        table'_elim
          (λ id m.
            m.is_leaf ≡ false
            → (x : RtEntry b D) → In x m.entries
            → IsInner b D table' level' 0 id x)
          (λ _. top-IsInner)
          (λ t x i. IsInner-still root old x at_root (v.inner root old at_root t x i))
          (λ t x i. IsInner-still nn new x at_new (v.inner nn new at_new t x i))
          (λ id m _ _ _ e t x i. IsInner-still id m x e (v.inner id m e t x i));
    leaf =
        table'_elim
          (λ id m.
            m.is_leaf ≡ true → (x : RtEntry b D) → In x m.entries → IsData b D x × In x items)
          (λ t. absurd (cc)) (λ t x i. v.leaf root old at_root t x i)
          (λ t x i. v.leaf nn new at_new t x i) (λ id m _ _ _ e t x i. v.leaf id m e t x i);
    linked =
        table'_elim (λ id m. id ≢ p → id ≢ 0 → IsLinked b law D table' level' 0 id m)
          (λ ne. absurd (ne refl)) (λ _ _. root-IsLinked) (λ _ _. new-IsLinked)
          (λ id m _ ne ne' e _ _. IsLinked-still id m e ne (v.linked id m e ne ne'));
    rooted = (top, table'-p, refl);
    kept = λ x i.
        let (id, m, e, t, j) = v.kept x i in
        let (m', e', leaf, _, keep) = still id m e in (id, m', e', leaf ∙ t, subst (In x) keep j);
  }

  pub top_level : level' p ≡ suc (level root)
  top_level = level'-p
