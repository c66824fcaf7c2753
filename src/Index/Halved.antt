-- ===== src/Index/Halved.antt =====
-- The entries of the nodes after the split of a full node (splitNodeQ in src/osgGIS/RTree.cpp.inline).
use osggis.Base.{
  ℕ, suc, ◌+◌, ◌≤◌, ◌<◌, ◌≡◌, ◌≢◌, refl, true, false, some, ◌==◌, length, inl, inr, In, In-All,
  All-In, arith, if◌then◌else◌,
}
use osggis.Index.Boxes.{Boxes, IsBoxes}
use osggis.Index.Node.{RtEntry, RtNode, NodeTable}
use osggis.Index.Tree.{is_child}
use osggis.Index.Inv.{count_child, IsData, AreBoxes}
use osggis.Index.Halve.{
  split_table, FullNode, table'_elim, level'_old, level'-ll, level'-l, root_old,
}

module _ (b : Boxes) (law : IsBoxes b) (D : Type 0) (full : FullNode b law D) where
  open full use {table, level, root, gen, items, l, v, n, at, g, div}

  abbrev pub ll : ℕ
  ll = suc gen

  abbrev pub first : RtNode b D
  first = record n { entries = g.first_group }

  abbrev pub second : RtNode b D
  second = record n { entries = g.second_group }

  abbrev pub table' : NodeTable b D
  table' = split_table b D table l ll n g

  abbrev pub level' : ℕ → ℕ
  level' id = if id == ll then level l else level id

  pub In-first : (x : RtEntry b D) → In x g.first_group → In x n.entries
  In-first x i = div.3 x (inl i)

  pub In-second : (x : RtEntry b D) → In x g.second_group → In x n.entries
  In-second x i = div.3 x (inr i)

  pub bounds' :
      (id : ℕ) (m : RtNode b D)
      → table' id ≡ some m
      → (0 < id) × (id ≤ ll) × (level' id ≤ level' root)
  bounds' =
      let r = level'_old b law D full root (root_old b law D full) in
      let (p, q, s) = v.bounds l n at in
      table'_elim b law D full (λ id m. (0 < id) × (id ≤ ll) × (level' id ≤ level' root))
        (p, omega arith, omega (arith, r, (level'-l b law D full)))
        (omega arith, omega arith, omega (arith, r, (level'-ll b law D full)))
        (λ id m ne small e.
          let (p', _, s') = v.bounds id m e in
          (p', omega arith, omega (arith, r, level'_old b law D full id small)))

  pub small' : (id : ℕ) (m : RtNode b D) → table' id ≡ some m → id ≢ l → length m.entries < 64
  small' =
      table'_elim b law D full (λ id m. id ≢ l → length m.entries < 64) (λ ne. absurd (ne refl))
        (λ ne. omega (arith, div.1)) (λ id m ne _ e _. v.small id m e ne)

  pub boxes' : (id : ℕ) (m : RtNode b D) → table' id ≡ some m → AreBoxes b law D m.entries
  boxes' =
      let P = λ (x : RtEntry b D). b.IsBox x.extent in
      table'_elim b law D full (λ id m. AreBoxes b law D m.entries)
        (All-In P g.first_group (λ x i. In-All P x n.entries (v.boxes l n at) (In-first x i)))
        (All-In P g.second_group (λ x i. In-All P x n.entries (v.boxes l n at) (In-second x i)))
        (λ id m _ _ e. v.boxes id m e)

  pub counts :
      (c : ℕ)
      → count_child b D c g.first_group + count_child b D c g.second_group
        ≡ count_child b D c n.entries
  counts c = div.4 (λ x. if is_child b D c x.slot then 1 else 0)

  pub unique' :
      (id : ℕ) (m : RtNode b D) → table' id ≡ some m → (c : ℕ) → count_child b D c m.entries ≤ 1
  unique' =
      table'_elim b law D full (λ id m. (c : ℕ) → count_child b D c m.entries ≤ 1)
        (λ c. omega (arith, counts c, v.unique l n at c))
        (λ c. omega (arith, counts c, v.unique l n at c)) (λ id m _ _ e c. v.unique id m e c)

  pub nonempty' :
      (id : ℕ) (m : RtNode b D) → table' id ≡ some m → m.is_leaf ≡ false → 0 < length m.entries
  nonempty' =
      table'_elim b law D full (λ id m. m.is_leaf ≡ false → 0 < length m.entries)
        (λ _. omega (arith, div.0)) (λ _. omega (arith, div.1))
        (λ id m _ _ e t. v.nonempty id m e t)

  pub leaf' :
      (id : ℕ) (m : RtNode b D)
      → table' id ≡ some m
      → m.is_leaf ≡ true
      → (x : RtEntry b D) → In x m.entries
      → IsData b D x × In x items
  leaf' =
      table'_elim b law D full
        (λ id m. m.is_leaf ≡ true → (x : RtEntry b D) → In x m.entries → IsData b D x × In x items)
        (λ t x i. v.leaf l n at t x (In-first x i)) (λ t x i. v.leaf l n at t x (In-second x i))
        (λ id m _ _ e t x i. v.leaf id m e t x i)
