-- ===== src/Index/Halve.antt =====
-- The split of a full node in the table (splitNodeQ in src/osgGIS/RTree.cpp.inline).
use mathlib.Core.Path.{subst}
use osggis.Base.{
  ℕ, suc, ◌≤◌, ◌<◌, ◌≡◌, ◌≢◌, refl, sym, ap, ◌∙◌, false, some, List, ◌==◌, inl, inr, arith,
  Bool-cases, Option-cases, some-inj, ==_iff, if◌then◌else◌,
}
use osggis.Index.Boxes.{Boxes, IsBoxes}
use osggis.Index.Node.{RtEntry, RtNode, NodeTable, write}
use osggis.Index.Split.{Groups}
use osggis.Index.Division.{IsDivision}
use osggis.Index.Inv.{count_child, IsTree}
use osggis.Index.Table.{write_same, write_other, count_child-In, moved, move_node, moved_in}

module _ (b : Boxes) (D : Type 0) where
  -- The node `l` with the first group and the new node `ll` with the second.
  abbrev pub halves : NodeTable b D → ℕ → ℕ → RtNode b D → Groups b D → NodeTable b D
  halves table l ll n g =
      write b D (write b D table ll (record n { entries = g.second_group })) l
        (record n { entries = g.first_group })

  abbrev pub split_table : NodeTable b D → ℕ → ℕ → RtNode b D → Groups b D → NodeTable b D
  split_table table l ll n g = moved_in b D g.second_group ll (halves table l ll n g)

module _ (b : Boxes) (law : IsBoxes b) (D : Type 0) where
  -- A full node `l` of a tree, and a division of its entries.
  pub record FullNode : Type 0 where
    pub table : NodeTable b D
    pub level : ℕ → ℕ
    pub root : ℕ
    pub gen : ℕ
    pub items : List (RtEntry b D)
    pub l : ℕ
    pub v : IsTree b law D table level root gen items l 0
    pub n : RtNode b D
    pub at : table l ≡ some n
    pub g : Groups b D
    pub div : IsDivision b D n.entries g

module _ (b : Boxes) (law : IsBoxes b) (D : Type 0) (full : FullNode b law D) where
  open full use {table, level, root, gen, items, l, v, n, at, g, div}

  abbrev pub ll : ℕ
  ll = suc gen

  abbrev pub first : RtNode b D
  first = record n { entries = g.first_group }

  abbrev pub second : RtNode b D
  second = record n { entries = g.second_group }

  abbrev pub table' : NodeTable b D
  table' = split_table b D table l ll n g

  abbrev pub level' : ℕ → ℕ
  level' id = if id == ll then level l else level id

  -- A child in the second group is another node below `l`, whose parent is `l`.
  pub child_of_l :
      (c : ℕ)
      → 0 < count_child b D c g.second_group
      → (c ≢ l)
        × (c ≢ ll)
        × (level c < level l)
        × (n.is_leaf ≡ false)
        × ((m : RtNode b D) → table c ≡ some m → m.parent_id ≡ l)
  child_of_l c h =
      let (x, i, e) = count_child-In b D c g.second_group h in
      let j = div.3 x (inr i) in
      elim (Bool-cases n.is_leaf) [
        | inl t ↦ let ((d, e'), _) = v.leaf l n at t x j in absurd (cc)
        | inr t ↦
            let (c', m, e', h', lt, _, parent) = v.inner l n at t x j in
            let same : c ≡ c' = cc in
            let (_, small, _) = v.bounds c' m h' in
            (ground arith, ground arith, ground arith, t, λ m' k. cc)
      ]

  halves_other : (id : ℕ) → id ≢ l → id ≢ ll → halves b D table l ll n g id ≡ table id
  halves_other id h k =
      write_other b D (write b D table ll second) l id first h
      ∙ write_other b D table ll id second k

  pub no_child_of_l :
      (c : ℕ) (m : RtNode b D)
      → (0 < count_child b D c g.second_group → ⊥)
      → moved b D g.second_group ll c m ≡ m
  no_child_of_l c m h = let z : count_child b D c g.second_group ≡ 0 = omega arith in rw z refl

  pub l_is_not_ll : l ≢ ll
  l_is_not_ll e = let (_, small, _) = v.bounds l n at in absurd (omega arith)

  -- The table after the split, at `l`, at the new node and elsewhere.
  pub table'-l : table' l ≡ some first
  table'-l =
      ap (move_node b D g.second_group ll l) (write_same b D (write b D table ll second) l first)
      ∙ ap some (no_child_of_l l first (λ h. (child_of_l l h).0 refl))

  pub table'-ll : table' ll ≡ some second
  table'-ll =
      ap (move_node b D g.second_group ll ll) (
        write_other b D (write b D table ll second) l ll first (λ e. l_is_not_ll (sym e))
        ∙ write_same b D table ll second)
      ∙ ap some (no_child_of_l ll second (λ h. (child_of_l ll h).1 refl))

  pub table'_other :
      (id : ℕ) (m : RtNode b D)
      → id ≢ l
      → table id ≡ some m
      → table' id ≡ some (moved b D g.second_group ll id m)
  table'_other id m h e =
      let (_, small, _) = v.bounds id m e in
      ap (move_node b D g.second_group ll id) (halves_other id h (ground arith) ∙ e)

  pub table'_elim :
      (P : ℕ → RtNode b D → Type 0)
      → P l first
      → P ll second
      → ((id : ℕ) (m : RtNode b D)
          → id ≢ l
          → id ≤ gen
          → table id ≡ some m
          → P id (moved b D g.second_group ll id m))
      → (id : ℕ) (m : RtNode b D) → table' id ≡ some m
      → P id m
  table'_elim P p q r id m e = elim (Bool-cases (id == l)) [
    | inl t ↦
        let same = (==_iff id l).0 t in
        let e' = some-inj first m (sym table'-l ∙ ap table' (sym same) ∙ e) in
        subst (λ z. P z m) (sym same) (subst (P l) e' p)
    | inr t ↦ elim (Bool-cases (id == ll)) [
      | inl t' ↦
          let same = (==_iff id ll).0 t' in
          let e' = some-inj second m (sym table'-ll ∙ ap table' (sym same) ∙ e) in
          subst (λ z. P z m) (sym same) (subst (P ll) e' q)
      | inr t' ↦
          let ne : id ≢ l = ground arith in
          let h = halves_other id ne (ground arith) in
          elim (Option-cases (table id)) [
            | inl e' ↦
                let none_there = sym (ap (move_node b D g.second_group ll id) (h ∙ e')) ∙ e in
                absurd (cc)
            | inr (k, e') ↦
                let (_, small, _) = v.bounds id k e' in
                subst (P id) (some-inj _ m (sym (table'_other id k ne e') ∙ e)) (r id k ne small e')
          ]
    ]
  ]

  pub level'_old : (id : ℕ) → id ≤ gen → level' id ≡ level id
  level'_old id h = ground arith

  pub level'-ll : level' ll ≡ level l
  level'-ll = ground arith

  pub level'-l : level' l ≡ level l
  level'-l = let (_, small, _) = v.bounds l n at in level'_old l small

  pub root_old : root ≤ gen
  root_old = let (r, e, _) = v.rooted in (v.bounds root r e).1
