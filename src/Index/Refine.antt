-- ===== src/Index/Refine.antt =====
-- The R-tree index of a store against a linear scan (src/osgGIS/RTreeSpatialIndex.cpp,
-- SimpleSpatialIndex.cpp, RTree.cpp.inline).
use mathlib.Core.Path.{subst}
use osggis.Base.{
  ℕ, suc, ◌+◌, ◌≤◌, ◌<◌, ◌≡◌, ◌≢◌, ◌↔◌, refl, sym, ap, ◌∙◌, true, false, none, some, List, [], ◌∷◌,
  length, ◌⊎◌, inl, inr, In, All, arith, Bool-cases, if◌then◌else◌,
}
use osggis.Index.Boxes.{Boxes, IsBoxes}
use osggis.Index.Node.{data_slot, RtEntry, RtNode, NodeTable, write}
use osggis.Index.Tree.{RTree, new_node, new_tree, inserted_extent, insert, find}
use osggis.Index.Inv.{IsTree}
use osggis.Index.Table.{write_same, write_elim}
use osggis.Index.Search.{find_from_total, find_from-In, find_from-from}
use osggis.Index.Adjust.{IsSettled}
use osggis.Index.Insert.{insert_at-IsSettled}
use osggis.Index.Service.{
  IndexedFeature, RTreeSpatialIndex, is_usable, extend, build_from, build_index, query, scan,
}

module _ (b : Boxes) (law : IsBoxes b) (D : Type 0) where
  abbrev root : RtNode b D
  root = new_node b D 0 true []

  abbrev new_table : NodeTable b D
  new_table = write b D (λ id. none) 1 root

  -- The root is the only node of a new tree.
  new_table_elim :
      (P : ℕ → RtNode b D → Type 0)
      → P 1 root
      → (id : ℕ) (m : RtNode b D) → new_table id ≡ some m
      → P id m
  new_table_elim P h = write_elim b D P (λ id. none) 1 root h (λ k m _ e. absurd (cc))

  new_table-IsTree : IsTree b law D new_table (λ id. 0) 1 1 [] 0 0
  new_table-IsTree = record {
    bounds =
        new_table_elim (λ id m. (0 < id) × (id ≤ 1) × (0 ≤ 0))
          (omega arith, omega arith, omega arith);
    small = new_table_elim (λ id m. id ≢ 0 → length m.entries < 64) (λ _. omega arith);
    boxes = new_table_elim (λ id m. All (λ x. b.IsBox x.extent) m.entries) tt;
    unique = new_table_elim _ (λ c. omega arith);
    nonempty = new_table_elim (λ id m. m.is_leaf ≡ false → 0 < length m.entries) (λ t. absurd (cc));
    inner = new_table_elim _ (λ t. absurd (cc));
    leaf = new_table_elim _ (λ t x i. elim i [ ]);
    linked = new_table_elim _ (λ ne. absurd (ne refl));
    rooted = (root, write_same b D (λ id. none) 1 root, refl);
    kept = λ x i. elim i [ ];
  }

  pub new_tree-IsSettled : IsSettled b law D (new_tree b D) [] 0
  unfolding new_tree
  new_tree-IsSettled = record { level = λ id. 0; tree = new_table-IsTree; highest = refl }

  -- With more fuel than the tree has levels a search ends, with exactly the items that meet the query.
  find-IsSettled :
      (fuel : ℕ) (t : RTree b D) (items : List (RtEntry b D)) (high : ℕ) (q : b.Box)
      → IsSettled b law D t items high
      → high < fuel
      → (r : List D) × (find b D fuel t q ≡ some r)
        × ((x : RtEntry b D) (d : D)
            → In x items
            → x.slot ≡ data_slot d
            → b.intersects x.extent q ≡ true
            → In d r)
        × ((d : D)
            → In d r
            → (x : RtEntry b D) × In x items
              × (x.slot ≡ data_slot d)
              × (b.intersects x.extent q ≡ true))
  unfolding find
  find-IsSettled fuel t items high q s h =
      let top = s.highest in
      let v = s.tree in
      let (n, at, _) = v.rooted in
      let (r, e) =
        find_from_total b law D t.node_table s.level t.root_id t.node_id_gen items v q fuel
          t.root_id n at (omega arith) in
      (
        r,
        e,
        λ x d i k m.
            find_from-In b law D t.node_table s.level t.root_id t.node_id_gen items v q x d fuel r i
              k m (omega arith) e,
        λ d i.
            find_from-from b law D t.node_table s.level t.root_id t.node_id_gen items v q fuel
              t.root_id n r d at e i,
      )

  abbrev Feature : Type 0
  Feature = IndexedFeature b D

  -- The features that buildIndex inserts, with the extents under which the tree has them.
  abbrev pub indexed : List Feature → List Feature
  indexed [] = []
  indexed (f ∷ fs) =
      if is_usable b D f
      then record f { extent = inserted_extent b D f.extent } ∷ indexed fs
      else indexed fs

  abbrev item : Feature → RtEntry b D
  item g = record { extent = g.extent; slot = data_slot g.oid }

  -- The last one inserted is the first.
  abbrev pub items_onto : List Feature → List (RtEntry b D) → List (RtEntry b D)
  items_onto [] items = items
  items_onto (g ∷ gs) items = items_onto gs (item g ∷ items)

  items_onto_kept :
      (gs : List Feature) (items : List (RtEntry b D)) (x : RtEntry b D)
      → In x items
      → In x (items_onto gs items)
  items_onto_kept [] items x i = i
  items_onto_kept (g ∷ gs) items x i = items_onto_kept gs (item g ∷ items) x (inr i)

  items_onto-In :
      (gs : List Feature) (items : List (RtEntry b D)) (g : Feature)
      → In g gs
      → In (item g) (items_onto gs items)
  items_onto-In [] items g i = elim i [ ]
  items_onto-In (h ∷ gs) items g (inl e) =
      items_onto_kept gs (item h ∷ items) (item g) (inl (ap item e))
  items_onto-In (h ∷ gs) items g (inr i) = items_onto-In gs (item h ∷ items) g i

  items_onto_from :
      (gs : List Feature) (items : List (RtEntry b D)) (x : RtEntry b D)
      → In x (items_onto gs items)
      → In x items ⊎ ((g : Feature) × In g gs × (x ≡ item g))
  items_onto_from [] items x i = inl i
  items_onto_from (h ∷ gs) items x i = elim (items_onto_from gs (item h ∷ items) x i) [
    | inl j ↦ elim j [ inl e ↦ inr (h, inl refl, e) | inr k ↦ inl k ]
    | inr (g, j, e) ↦ inr (g, inr j, e)
  ]

  scan-In :
      (q : b.Box) (gs : List Feature) (g : Feature)
      → In g gs
      → b.intersects g.extent q ≡ true
      → In g.oid (scan b D q gs)
  unfolding scan
  scan-In q [] g i m = elim i [ ]
  scan-In q (h ∷ gs) g i m = elim (Bool-cases (b.intersects h.extent q)) [
    | inl t ↦
        rw (t, scan)
          (elim i [
            | inl e ↦ inl (ap (λ (z : Feature). z.oid) e)
            | inr j ↦ inr (scan-In q gs g j m)
          ])
    | inr t ↦ rw (t, scan) (elim i [ inl e ↦ absurd (ground arith) | inr j ↦ scan-In q gs g j m ])
  ]

  scan_from :
      (q : b.Box) (gs : List Feature) (d : D)
      → In d (scan b D q gs)
      → (g : Feature) × In g gs × (b.intersects g.extent q ≡ true) × (g.oid ≡ d)
  unfolding scan
  scan_from q [] d i = elim i [ ]
  scan_from q (h ∷ gs) d i = elim (Bool-cases (b.intersects h.extent q)) [
    | inl t ↦
        let e : scan b D q (h ∷ gs) ≡ h.oid ∷ scan b D q gs = rw (t, scan) refl in
        let j : In d (h.oid ∷ scan b D q gs) = subst (In d) e i in
        elim j [
          | inl e ↦ (h, inl refl, t, sym e)
          | inr k ↦ let (g, l, m, e) = scan_from q gs d k in (g, inr l, m, e)
        ]
    | inr t ↦
        let e : scan b D q (h ∷ gs) ≡ scan b D q gs = rw (t, scan) refl in
        let j : In d (scan b D q gs) = subst (In d) e i in
        let (g, l, m, e) = scan_from q gs d j in (g, inr l, m, e)
  ]

  insert-IsSettled :
      (fuel : ℕ) (t : RTree b D) (items : List (RtEntry b D)) (high : ℕ) (e : b.Box) (d : D)
      → IsSettled b law D t items high
      → b.IsBox (inserted_extent b D e)
      → high < fuel
      → (t' : RTree b D) × (high' : ℕ) × (insert b D fuel t e d ≡ some t')
        × IsSettled b law D t'
            (record { extent = inserted_extent b D e; slot = data_slot d } ∷ items)
            high'
        × (high' ≤ suc high)
  unfolding insert
  insert-IsSettled fuel t items high e d s box h =
      insert_at-IsSettled b law D fuel t items high (inserted_extent b D e) d s box h

  pub build_from-IsSettled :
      (fuel : ℕ) (index : RTreeSpatialIndex b D) (fs : List Feature) (items : List (RtEntry b D))
      (high : ℕ)
      → IsSettled b law D index.rtree items high
      → All (λ (g : Feature). b.IsBox g.extent) (indexed fs)
      → high + length fs < fuel
      → (index' : RTreeSpatialIndex b D) × (high' : ℕ) × (build_from b D fuel index fs
          ≡ some index')
        × IsSettled b law D index'.rtree (items_onto (indexed fs) items) high'
        × (high' ≤ high + length fs)
  unfolding build_from
  build_from-IsSettled fuel index [] items high s h k = (index, high, refl, s, omega arith)
  build_from-IsSettled fuel index (f ∷ fs) items high s h k =
      let g : Feature = record f { extent = inserted_extent b D f.extent } in
      elim (Bool-cases (is_usable b D f)) [
        | inl t ↦
            let h' : All (λ (g : Feature). b.IsBox g.extent) (g ∷ indexed fs) = rw t at h in
            let (t', high', e, s', l) =
              insert-IsSettled fuel index.rtree items high f.extent f.oid s h'.0 (omega arith) in
            let (i, high'', e', s'', l') =
              build_from-IsSettled fuel (record { rtree = t'; extent = extend b D index.extent f })
                fs (item g ∷ items) high' s' h'.1 (omega arith) in
            (i, high'', rw (t, build_from, e) e', rw (t, indexed) s'', omega arith)
        | inr t ↦
            let h' : All (λ (g : Feature). b.IsBox g.extent) (indexed fs) = rw t at h in
            let (i, high', e, s', l) =
              build_from-IsSettled fuel index fs items high s h' (omega arith) in
            (i, high', rw (t, build_from) e, rw (t, indexed) s', omega arith)
      ]

  -- A tree of the items of some features answers a query as a scan of these features does.
  pub find-scan :
      (fuel : ℕ) (t : RTree b D) (gs : List Feature) (high : ℕ) (q : b.Box)
      → IsSettled b law D t (items_onto gs []) high
      → high < fuel
      → (r : List D) × (find b D fuel t q ≡ some r) × ((d : D) → In d r ↔ In d (scan b D q gs))
  find-scan fuel t gs high q s h =
      let (r, e', complete, sound) = find-IsSettled fuel t (items_onto gs []) high q s h in
      (
        r,
        e',
        λ d. (
          λ i.
              let (x, j, slot, m) = sound d i in
              elim (items_onto_from gs [] x j) [
                | inl nothing ↦ absurd nothing
                | inr (g, k, same) ↦
                    let m' = subst (λ (z : RtEntry b D). b.intersects z.extent q ≡ true) same m in
                    let slot' : data_slot d ≡ data_slot g.oid =
                      sym slot ∙ ap (λ (z : RtEntry b D). z.slot) same in
                    let oid : d ≡ g.oid = cc in
                    subst (λ z. In z (scan b D q gs)) (sym oid) (scan-In q gs g k m')
              ],
          λ i.
              let (g, j, m, oid) = scan_from q gs d i in
              complete (item g) d (items_onto-In gs [] g j) (ap data_slot oid) m,
        ),
      )

  -- An index built from the features of a store, with fuel above their number, exists, and each
  -- query of it with fuel above their number ends. It yields exactly the identifiers that the linear
  -- scan yields on the features that buildIndex inserts, with the extents that insert gives them, if
  -- these are boxes.
  pub query-scan :
      (fuel : ℕ) (fs : List Feature) (q : b.Box)
      → All (λ (g : Feature). b.IsBox g.extent) (indexed fs)
      → length fs < fuel
      → (index : RTreeSpatialIndex b D) × (r : List D) × (build_index b D fuel fs ≡ some index)
        × (query b D fuel index q ≡ some r)
        × ((d : D) → In d r ↔ In d (scan b D q (indexed fs)))
  unfolding build_index query
  query-scan fuel fs q h k =
      let start : RTreeSpatialIndex b D = record { rtree = new_tree b D; extent = b.invalid } in
      let (index, high, e, s, l) =
        build_from-IsSettled fuel start fs [] 0 new_tree-IsSettled h (omega arith) in
      let (r, e', same) = find-scan fuel index.rtree (indexed fs) high q s (omega arith) in
      (index, r, e, e', same)
