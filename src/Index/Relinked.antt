-- ===== src/Index/Relinked.antt =====
-- The links between nodes, and the invariant, after the split of a full node (splitNodeQ in src/osgGIS/RTree.cpp.inline).
use mathlib.Core.Path.{subst}
use osggis.Base.{
  ℕ, suc, ◌≤◌, ◌<◌, ◌≡◌, ◌≢◌, refl, sym, ap, ◌∙◌, false, some, ◌==◌, ltb, inl, inr, In, arith,
  Bool-cases, some-inj, ==_iff, if◌then◌else◌,
}
use osggis.Index.Boxes.{Boxes, IsBoxes}
use osggis.Index.Node.{child_id, RtEntry, RtNode, NodeTable}
use osggis.Index.Inv.{count_child, IsInner, IsLinked, IsKept, IsTree}
use osggis.Index.Table.{count_child_pos, moved}
use osggis.Index.Halve.{
  split_table, FullNode, table'_elim, table'-ll, table'-l, table'_other, child_of_l, no_child_of_l,
  level'_old, level'-ll, level'-l, root_old, l_is_not_ll,
}
use osggis.Index.Halved.{
  In-first, In-second, bounds', small', boxes', counts, unique', nonempty', leaf',
}

module _ (b : Boxes) (law : IsBoxes b) (D : Type 0) (full : FullNode b law D) where
  open full use {table, level, root, gen, items, l, v, n, at, g, div}

  abbrev ll : ℕ
  ll = suc gen

  abbrev first : RtNode b D
  first = record n { entries = g.first_group }

  abbrev second : RtNode b D
  second = record n { entries = g.second_group }

  abbrev table' : NodeTable b D
  table' = split_table b D table l ll n g

  abbrev level' : ℕ → ℕ
  level' id = if id == ll then level l else level id

  -- A node that is in no entry of the second group keeps its parent.
  parent_kept :
      (c : ℕ) (m : RtNode b D)
      → table c ≡ some m
      → (0 < count_child b D c g.second_group → ⊥)
      → (m' : RtNode b D) × (table' c ≡ some m') × (m'.parent_id ≡ m.parent_id)
  parent_kept c m e h = elim (Bool-cases (c == l)) [
    | inl t ↦
        let same = (==_iff c l).0 t in
        let there = ap table' same ∙ table'-l b law D full in
        let e' = some-inj n m (sym at ∙ ap table (sym same) ∙ e) in
        (first, there, ap (λ (z : RtNode b D). z.parent_id) e')
    | inr t ↦
        let ne : c ≢ l = ground arith in
        (m, table'_other b law D full c m ne e ∙ ap some (no_child_of_l b law D full c m h), refl)
  ]

  IsInner-kept :
      (id : ℕ) (x : RtEntry b D)
      → id ≤ gen
      → ((c : ℕ) (m : RtNode b D)
          → x.slot ≡ child_id c
          → table c ≡ some m
          → m.parent_id ≡ id
          → 0 < count_child b D c g.second_group
          → ⊥)
      → IsInner b D table level 0 id x
      → IsInner b D table' level' ll id x
  IsInner-kept id x small h (c, m, s, e, lt, _, parent) =
      let (_, small', _) = v.bounds c m e in
      let (m', e', k) = parent_kept c m e (h c m s e parent) in
      let p = level'_old b law D full c small' in
      let q = level'_old b law D full id small in
      (c, m', s, e', omega arith, omega arith, k ∙ parent)

  IsInner-second :
      (x : RtEntry b D)
      → In x g.second_group
      → IsInner b D table level 0 l x
      → IsInner b D table' level' ll ll x
  IsInner-second x i (c, m, s, e, lt, _, parent) =
      let (_, small', _) = v.bounds c m e in
      let ne : c ≢ l = ground arith in
      let pos = count_child_pos b D c g.second_group x i s in
      let p = level'_old b law D full c small' in
      (
        c,
        moved b D g.second_group ll c m,
        s,
        table'_other b law D full c m ne e,
        omega (arith, p, (level'-ll b law D full)),
        omega arith,
        ground arith,
      )

  -- An entry of the first group is in no entry of the second.
  first_only :
      (c : ℕ) (x : RtEntry b D)
      → In x g.first_group
      → x.slot ≡ child_id c
      → 0 < count_child b D c g.second_group
      → ⊥
  first_only c x i s h =
      let pos = count_child_pos b D c g.first_group x i s in
      absurd (omega (arith, counts b law D full c, v.unique l n at c))

  inner' :
      (id : ℕ) (m : RtNode b D)
      → table' id ≡ some m
      → m.is_leaf ≡ false
      → (x : RtEntry b D) → In x m.entries
      → IsInner b D table' level' ll id x
  inner' =
      table'_elim b law D full
        (λ id m.
          m.is_leaf ≡ false
          → (x : RtEntry b D) → In x m.entries
          → IsInner b D table' level' ll id x)
        (λ t x i.
          let (_, small, _) = v.bounds l n at in
          IsInner-kept l x small (λ c m s _ _. first_only c x i s)
            (v.inner l n at t x (In-first b law D full x i)))
        (λ t x i. IsInner-second x i (v.inner l n at t x (In-second b law D full x i)))
        (λ id m ne small e t x i.
          IsInner-kept id x small
            (λ c k s h parent pos.
              let (_, _, _, _, only) = child_of_l b law D full c pos in ne (sym parent ∙ only k h))
            (v.inner id m e t x i))

  entry_of_l :
      (id : ℕ) (k : RtNode b D) (e : RtEntry b D)
      → id ≡ l
      → table id ≡ some k
      → k.is_leaf ≡ false
      → In e k.entries
      → (n.is_leaf ≡ false) × In e n.entries
  entry_of_l id k e same at' t i =
      let kn = some-inj k n (sym at' ∙ ap table same ∙ at) in
      (
        sym (ap (λ (z : RtNode b D). z.is_leaf) kn) ∙ t,
        subst (λ (z : RtNode b D). In e z.entries) kn i,
      )

  -- A node that is not in the second group is in the same parent as before.
  linked_kept :
      (id : ℕ) (m : RtNode b D)
      → id ≤ gen
      → (0 < count_child b D id g.second_group → ⊥)
      → IsLinked b law D table level l id m
      → IsLinked b law D table' level' l id m
  linked_kept id m small h (k, e, at', t, lt, i, s, cover) =
      let (_, small', _) = v.bounds m.parent_id k at' in
      let p = level'_old b law D full id small in
      let q = level'_old b law D full m.parent_id small' in
      elim (Bool-cases (m.parent_id == l)) [
        | inl t' ↦
            let same = (==_iff m.parent_id l).0 t' in
            let (leaf, j) = entry_of_l m.parent_id k e same at' t i in
            (
              first,
              e,
              ap table' same ∙ (table'-l b law D full),
              leaf,
              omega arith,
              elim (div.2 e j) [
                | inl j' ↦ j'
                | inr j' ↦ absurd (h (count_child_pos b D id g.second_group e j' s))
              ],
              s,
              cover,
            )
        | inr t' ↦
            let ne : m.parent_id ≢ l = ground arith in
            (
              moved b D g.second_group ll m.parent_id k,
              e,
              table'_other b law D full m.parent_id k ne at',
              t,
              omega arith,
              i,
              s,
              cover,
            )
      ]

  linked_second :
      (id : ℕ) (m : RtNode b D)
      → id ≤ gen
      → id ≢ l
      → table id ≡ some m
      → 0 < count_child b D id g.second_group
      → IsLinked b law D table level l id m
      → IsLinked b law D table' level' l id (record m { parent_id = ll })
  linked_second id m small ne at'' h (k, e, at', t, lt, i, s, cover) =
      let (_, _, below, leaf, only) = child_of_l b law D full id h in
      let (_, j) = entry_of_l m.parent_id k e (only m at'') at' t i in
      let p = level'_old b law D full id small in
      (
        second,
        e,
        (table'-ll b law D full),
        leaf,
        omega (arith, p, (level'-ll b law D full)),
        elim (div.2 e j) [ inl j' ↦ absurd (first_only id e j' s h) | inr j' ↦ j' ],
        s,
        cover,
      )

  linked' :
      (id : ℕ) (m : RtNode b D)
      → table' id ≡ some m
      → id ≢ root
      → id ≢ ll
      → IsLinked b law D table' level' l id m
  linked' =
      table'_elim b law D full (λ id m. id ≢ root → id ≢ ll → IsLinked b law D table' level' l id m)
        (λ ne _.
          let (positive, small, _) = v.bounds l n at in
          let (k, e, at', t, lt, i, s, cover) = v.linked l n at ne (ground arith) in
          linked_kept l first small (λ h. (child_of_l b law D full l h).0 refl)
            (k, e, at', t, lt, i, s, λ ne'. absurd (ne' refl)))
        (λ _ ne. absurd (ne refl))
        (λ id m ne small at' ne' _.
          let (positive, _, _) = v.bounds id m at' in
          let old = v.linked id m at' ne' (ground arith) in
          elim (Bool-cases (ltb 0 (count_child b D id g.second_group))) [
            | inl t ↦
                subst (λ (p : ℕ). IsLinked b law D table' level' l id (record m { parent_id = p }))
                  (rw t refl) (linked_second id m small ne at' (ground arith) old)
            | inr t ↦
                let none_there : 0 < count_child b D id g.second_group → ⊥ = ground arith in
                subst (λ z. IsLinked b law D table' level' l id z)
                  (sym (no_child_of_l b law D full id m none_there))
                  (linked_kept id m small none_there old)
          ])

  rooted' : (m : RtNode b D) × (table' root ≡ some m) × (m.parent_id ≡ 0)
  rooted' =
      let (r, e, z) = v.rooted in
      let (m, e', same) = parent_kept root r e (λ h.
        let (_, _, below, _, _) = child_of_l b law D full root h in
        let (_, _, top) = v.bounds l n at in absurd (omega arith)) in
      (m, e', same ∙ z)

  kept' : (x : RtEntry b D) → In x items → IsKept b D table' x
  kept' x i =
      let (id, m, e, t, j) = v.kept x i in
      elim (Bool-cases (id == l)) [
        | inl t' ↦
            let mn = some-inj m n (sym e ∙ ap table ((==_iff id l).0 t') ∙ at) in
            let leaf = sym (ap (λ (z : RtNode b D). z.is_leaf) mn) ∙ t in
            elim (div.2 x (subst (λ (z : RtNode b D). In x z.entries) mn j)) [
              | inl k ↦ (l, first, (table'-l b law D full), leaf, k)
              | inr k ↦ (ll, second, (table'-ll b law D full), leaf, k)
            ]
        | inr t' ↦ (
          id,
          moved b D g.second_group ll id m,
          table'_other b law D full id m (ground arith) e,
          t,
          j,
        )
      ]

  -- The table after the split of a full node has the invariant, but for the node's parent, which does
  -- not know of the new node yet.
  pub split_table-IsTree : IsTree b law D table' level' root ll items l ll
  split_table-IsTree = record {
    bounds = bounds' b law D full;
    small = small' b law D full;
    boxes = boxes' b law D full;
    unique = unique' b law D full;
    nonempty = nonempty' b law D full;
    inner = inner';
    leaf = leaf' b law D full;
    linked = linked';
    rooted = rooted';
    kept = kept';
  }

  pub split_facts :
      (table' l ≡ some first)
      × (table' ll ≡ some second)
      × (level' root ≡ level root)
      × (level' l ≡ level l)
      × (level' ll ≡ level l)
      × (l ≢ ll)
  split_facts = (
    (table'-l b law D full),
    (table'-ll b law D full),
    level'_old b law D full root (root_old b law D full),
    (level'-l b law D full),
    (level'-ll b law D full),
    (l_is_not_ll b law D full),
  )
