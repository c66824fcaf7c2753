-- ===== src/Index/Rounded.antt =====
-- The tree that a file keeps (src/osgGIS/RTree.cpp.inline): each extent is rounded, and the tree still
-- has the invariant.
use osggis.Base.{
  ℕ, suc, ◌+◌, ◌≤◌, ◌<◌, ◌≡◌, ◌≢◌, refl, sym, ap, ◌∙◌, false, none, some, some-inj, List, [], ◌∷◌,
  map, length, In, All, In-All, All-In, inl, inr, arith, Option, if◌then◌else◌,
}
use mathlib.Core.Path.{subst}
use osggis.Index.Boxes.{Boxes, IsBoxes}
use osggis.Index.Node.{RtEntry, RtNode, NodeTable}
use osggis.Index.Tree.{RTree, is_child}
use osggis.Index.Inv.{IsTree, IsLinked, count_child}
use osggis.Index.File.{Disk}
use osggis.Index.Lines.{IsDisk, stored_extent, stored_entry, stored_node}
use osggis.Index.Reload.{stored_table, stored_tree, stored_at}
use osggis.Index.Adjust.{IsSettled}

module _ {A B : Type 0} (f : A → B) where
  In-map : (x : A) (xs : List A) → In x xs → In (f x) (map f xs)
  In-map x [] i = elim i [ ]
  In-map x (y ∷ ys) (inl e) = inl (ap f e)
  In-map x (y ∷ ys) (inr i) = inr (In-map x ys i)

  In_map_from : (y : B) (xs : List A) → In y (map f xs) → (x : A) × In x xs × (y ≡ f x)
  In_map_from y [] i = elim i [ ]
  In_map_from y (x ∷ xs) (inl e) = (x, inl refl, e)
  In_map_from y (x ∷ xs) (inr i) = let (z, j, e) = In_map_from y xs i in (z, inr j, e)

  All-map : (P : B → Type 0) (xs : List A) → All (λ x. P (f x)) xs → All P (map f xs)
  All-map P [] h = tt
  All-map P (x ∷ xs) h = (h.0, All-map P xs h.1)

  length-map : (xs : List A) → length (map f xs) ≡ length xs
  length-map [] = refl
  length-map (x ∷ xs) = ap suc (length-map xs)

-- Rounding the bounds of extents keeps the order of corners, and containment.
pub record IsRounding (b : Boxes) (round : b.Box → b.Box) : Type 0 where
  pub round-IsBox : (x : b.Box) → b.IsBox x → b.IsBox (round x)
  pub round-Within :
      (x y : b.Box) → b.IsBox x → b.IsBox y → b.Within x y → b.Within (round x) (round y)

module _ {b : Boxes} (boxes : IsBoxes b) {D : Type 0} (k : Disk b D) (round : k.Number → k.Number)
    (law : IsDisk k round) (r : IsRounding b (stored_extent k round law)) where
  abbrev kept : RtEntry b D → RtEntry b D
  kept = stored_entry k round law

  count_child-kept :
      (c : ℕ) (xs : List (RtEntry b D)) → count_child b D c (map kept xs) ≡ count_child b D c xs
  count_child-kept c [] = refl
  count_child-kept c (x ∷ xs) =
      ap (λ n. (if is_child b D c x.slot then 1 else 0) + n) (count_child-kept c xs)

  stored_at-some :
      (o : Option (RtNode b D)) (m : RtNode b D)
      → stored_at k round law o ≡ some m
      → (n : RtNode b D) × (o ≡ some n) × (stored_node k round law n ≡ m)
  stored_at-some none m e = absurd (cc)
  stored_at-some (some n) m e = (n, refl, some-inj (stored_node k round law n) m e)

  -- A property of the nodes of the stored table.
  stored_table_elim :
      (P : ℕ → RtNode b D → Type 0) (table : NodeTable b D)
      → ((id : ℕ) (n : RtNode b D) → table id ≡ some n → P id (stored_node k round law n))
      → (id : ℕ) (m : RtNode b D) → stored_table k round law table id ≡ some m
      → P id m
  stored_table_elim P table h id m e =
      let (n, at, same) = stored_at-some (table id) m e in subst (P id) same (h id n at)

  module _ (table : NodeTable b D) (level : ℕ → ℕ) (root gen : ℕ) (items : List (RtEntry b D))
      (v : IsTree b boxes D table level root gen items 0 0) where
    abbrev table' : NodeTable b D
    table' = stored_table k round law table

    found :
        (id : ℕ) (n : RtNode b D) → table id ≡ some n → table' id ≡ some (stored_node k round law n)
    found id n at = ap (stored_at k round law) at

    covered :
        (e : RtEntry b D) (xs : List (RtEntry b D))
        → b.IsBox e.extent
        → All (λ (x : RtEntry b D). b.IsBox x.extent) xs
        → All (λ (x : RtEntry b D). b.Within x.extent e.extent) xs
        → All (λ (x : RtEntry b D). b.Within x.extent (kept e).extent) (map kept xs)
    covered e [] box hs ws = tt
    covered e (x ∷ xs) box hs ws =
        (r.round-Within x.extent e.extent hs.0 box ws.0, covered e xs box hs.1 ws.1)

    linked_kept :
        (id : ℕ) (n : RtNode b D)
        → table id ≡ some n
        → id ≢ root
        → id ≢ 0
        → IsLinked b boxes D table' level 0 id (stored_node k round law n)
    linked_kept id n at h i =
        let (m, e, at', leaf, lt, j, s, cover) = v.linked id n at h i in
        (
          stored_node k round law m,
          kept e,
          found n.parent_id m at',
          leaf,
          lt,
          In-map kept e m.entries j,
          s,
          λ ne.
              covered e n.entries
                (In-All (λ x. b.IsBox x.extent) e m.entries (v.boxes n.parent_id m at') j)
                (v.boxes id n at) (cover ne),
        )

    pub stored_table-IsTree : IsTree b boxes D table' level root gen (map kept items) 0 0
    stored_table-IsTree = record {
      bounds =
          stored_table_elim (λ id m. (0 < id) × (id ≤ gen) × (level id ≤ level root)) table
            v.bounds;
      small =
          stored_table_elim (λ id m. id ≢ 0 → length m.entries < 64) table
            (λ id n at ne.
              let s = v.small id n at ne in let l = length-map kept n.entries in omega arith);
      boxes =
          stored_table_elim (λ id m. All (λ x. b.IsBox x.extent) m.entries) table
            (λ id n at. All-map kept _ n.entries (
              All-In _ n.entries (λ x i.
                r.round-IsBox x.extent
                  (In-All (λ z. b.IsBox z.extent) x n.entries (v.boxes id n at) i))));
      unique =
          stored_table_elim (λ id m. (c : ℕ) → count_child b D c m.entries ≤ 1) table
            (λ id n at c.
              let u = v.unique id n at c in let s = count_child-kept c n.entries in omega arith);
      nonempty =
          stored_table_elim (λ id m. m.is_leaf ≡ false → 0 < length m.entries) table
            (λ id n at leaf.
              let s = v.nonempty id n at leaf in let l = length-map kept n.entries in omega arith);
      inner = stored_table_elim _ table (λ id n at leaf x i.
          let (y, j, same) = In_map_from kept x n.entries i in
          let (c, m, s, at', lt, ne, up) = v.inner id n at leaf y j in
          (
            c,
            stored_node k round law m,
            ap (λ (z : RtEntry b D). z.slot) same ∙ s,
            found c m at',
            lt,
            ne,
            up,
          ));
      leaf = stored_table_elim _ table (λ id n at leaf x i.
          let (y, j, same) = In_map_from kept x n.entries i in
          let ((d, s), l) = v.leaf id n at leaf y j in
          (
            (d, ap (λ (z : RtEntry b D). z.slot) same ∙ s),
            subst (λ z. In z (map kept items)) (sym same) (In-map kept y items l),
          ));
      linked = stored_table_elim _ table linked_kept;
      rooted = let (n, at, p) = v.rooted in (stored_node k round law n, found root n at, p);
      kept = λ x i.
          let (y, j, same) = In_map_from kept x items i in
          let (id, n, at, leaf, l) = v.kept y j in
          (
            id,
            stored_node k round law n,
            found id n at,
            leaf,
            subst (λ z. In z (map kept n.entries)) (sym same) (In-map kept y n.entries l),
          );
    }

  -- With its items rounded too.
  pub stored_tree-IsSettled :
      (t : RTree b D) (items : List (RtEntry b D)) (high : ℕ)
      → IsSettled b boxes D t items high
      → IsSettled b boxes D (stored_tree k round law t) (map kept items) high
  stored_tree-IsSettled t items high s = record {
    level = s.level;
    tree = stored_table-IsTree t.node_table s.level t.root_id t.node_id_gen items s.tree;
    highest = s.highest;
  }
