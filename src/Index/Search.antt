-- ===== src/Index/Search.antt =====
-- What `find` returns (src/osgGIS/RTree.cpp.inline) on a tree that has the invariant.
use mathlib.Core.Path.{subst}
use osggis.Base.{
  ℕ, zero, suc, ◌+◌, ◌≤◌, ◌<◌, ◌≡◌, ◌≢◌, refl, sym, ap, Bool, true, false, Option, some, List, [],
  ◌∷◌, inl, inr, In, In-All, All-In, All, ◌∙◌, arith, Bool-cases, some-inj, ==_iff, ◌==◌,
}
use osggis.Index.Boxes.{Boxes, IsBoxes}
use osggis.Index.Node.{
  child_id, data_slot, RtEntry, RtNode, NodeTable, hit, find_entries, find_from,
}
use osggis.Index.Inv.{IsTree}
use osggis.Index.Entries.{find_entries-In, find_entries-from, find_entries_total}

module _ (b : Boxes) (law : IsBoxes b) (D : Type 0) (table : NodeTable b D) (level : ℕ → ℕ)
    (root gen : ℕ) (items : List (RtEntry b D)) (v : IsTree b law D table level root gen items 0 0)
    (q : b.Box) where
  module _ (search : ℕ → Option (List D)) where
    hit_leaf :
        (x : RtEntry b D) (d : D)
        → x.slot ≡ data_slot d
        → hit b D search true x.slot ≡ some (d ∷ [])
    hit_leaf x d h = rw h

    hit_inner :
        (x : RtEntry b D) (c : ℕ) → x.slot ≡ child_id c → hit b D search false x.slot ≡ search c
    hit_inner x c h = rw h

  -- The search ends within as many calls as the node has levels below it.
  pub find_from_total :
      (fuel id : ℕ) (n : RtNode b D)
      → table id ≡ some n
      → level id < fuel
      → (r : List D) × (find_from b D fuel table q id ≡ some r)
  unfolding find_from
  find_from_total zero id n h k = absurd (omega arith)
  find_from_total (suc fuel) id n h k =
      let search = find_from b D fuel table q in
      let P = λ (x : RtEntry b D). (s : List D) × (hit b D search n.is_leaf x.slot ≡ some s) in
      let hits : All P n.entries = All-In P n.entries (λ x i. elim (Bool-cases n.is_leaf) [
        | inl t ↦ let ((d, e), j) = v.leaf id n h t x i in (d ∷ [], rw t (hit_leaf search x d e))
        | inr t ↦
            let (c, m, e, e', l, _, _) = v.inner id n h t x i in
            let (s, es) = find_from_total fuel c m e' (omega arith) in
            (s, rw t (hit_inner search x c e ∙ es))
      ]) in
      let (r, e) = find_entries_total b D q search n.is_leaf n.entries hits in (r, rw h e)

  find_from_step :
      (leaf : Bool) (fuel id : ℕ) (n : RtNode b D) (r : List D)
      → table id ≡ some n
      → n.is_leaf ≡ leaf
      → find_from b D (suc fuel) table q id ≡ some r
      → find_entries b D (find_from b D fuel table q) leaf q n.entries ≡ some r
  unfolding find_from
  find_from_step leaf fuel id n r h t e = ground arith

  -- The node's results have the item `d`.
  abbrev Finds : D → ℕ → Type 0
  Finds d id =
      (fuel : ℕ) (r : List D) → level id < fuel → find_from b D fuel table q id ≡ some r → In d r

  Finds-leaf :
      (id : ℕ) (n : RtNode b D) (x : RtEntry b D) (d : D)
      → table id ≡ some n
      → n.is_leaf ≡ true
      → In x n.entries
      → x.slot ≡ data_slot d
      → b.intersects x.extent q ≡ true
      → Finds d id
  unfolding find_from
  Finds-leaf id n x d h t i e k zero r l j = absurd (omega arith)
  Finds-leaf id n x d h t i e k (suc fuel) r l j =
      find_entries-In b D q (find_from b D fuel table q) true n.entries x (d ∷ []) r d i k
        (hit_leaf (find_from b D fuel table q) x d e) (inl refl)
        (find_from_step true fuel id n r h t j)

  Finds-inner :
      (id : ℕ) (n : RtNode b D) (c : ℕ) (m : RtNode b D) (x : RtEntry b D) (d : D)
      → table id ≡ some n
      → n.is_leaf ≡ false
      → In x n.entries
      → x.slot ≡ child_id c
      → table c ≡ some m
      → level c < level id
      → b.intersects x.extent q ≡ true
      → Finds d c
      → Finds d id
  unfolding find_from
  Finds-inner id n c m x d h t i e h' lt k f zero r l j = absurd (omega arith)
  Finds-inner id n c m x d h t i e h' lt k f (suc fuel) r l j =
      let (s, es) = find_from_total fuel c m h' (omega arith) in
      find_entries-In b D q (find_from b D fuel table q) false n.entries x s r d i k
        (hit_inner (find_from b D fuel table q) x c e ∙ es) (f fuel s (omega arith) es)
        (find_from_step false fuel id n r h t j)

  -- From a node that finds an item up to its parent.
  climb_one :
      (id : ℕ) (n : RtNode b D) (x y : RtEntry b D) (d : D)
      → table id ≡ some n
      → id ≢ root
      → b.IsBox x.extent
      → In y n.entries
      → b.Within x.extent y.extent
      → b.intersects x.extent q ≡ true
      → Finds d id
      → (m : RtNode b D) × (e : RtEntry b D) × (table n.parent_id ≡ some m)
        × In e m.entries
        × b.Within x.extent e.extent
        × (level id < level n.parent_id)
        × Finds d n.parent_id
  climb_one id n x y d h ne box i w meets f =
      let (positive, _, _) = v.bounds id n h in
      let above : id ≢ 0 = ground arith in
      let (m, e, h', t, lt, j, s, cover) = v.linked id n h ne above in
      let box' = In-All (λ z. b.IsBox z.extent) e m.entries (v.boxes n.parent_id m h') j in
      let w' =
        law.Within_trans x.extent y.extent e.extent w
          (In-All (λ z. b.Within z.extent e.extent) y n.entries (cover above) i) in
      let meets' = law.intersects_mono x.extent e.extent q box box' w' meets in
      (m, e, h', j, w', lt, Finds-inner n.parent_id m id n e d h' t j s h lt meets' f)

  climb :
      (k id : ℕ) (n : RtNode b D) (x y : RtEntry b D) (d : D)
      → table id ≡ some n
      → b.IsBox x.extent
      → In y n.entries
      → b.Within x.extent y.extent
      → b.intersects x.extent q ≡ true
      → level root ≤ level id + k
      → Finds d id
      → Finds d root
  climb zero id n x y d h box i w meets l f = elim (Bool-cases (id == root)) [
    | inl t ↦ subst (Finds d) ((==_iff id root).0 t) f
    | inr t ↦
        let (m, e, h', j, w', lt, f') = climb_one id n x y d h (ground arith) box i w meets f in
        let (_, _, top) = v.bounds n.parent_id m h' in absurd (omega arith)
  ]
  climb (suc k) id n x y d h box i w meets l f = elim (Bool-cases (id == root)) [
    | inl t ↦ subst (Finds d) ((==_iff id root).0 t) f
    | inr t ↦
        let (m, e, h', j, w', lt, f') = climb_one id n x y d h (ground arith) box i w meets f in
        climb k n.parent_id m x e d h' box j w' meets (omega arith) f'
  ]

  -- With enough fuel the search finds each item of the tree that meets the query.
  pub find_from-In :
      (x : RtEntry b D) (d : D) (fuel : ℕ) (r : List D)
      → In x items
      → x.slot ≡ data_slot d
      → b.intersects x.extent q ≡ true
      → level root < fuel
      → find_from b D fuel table q root ≡ some r
      → In d r
  find_from-In x d fuel r i e meets l j =
      let (id, n, h, t, k) = v.kept x i in
      let box = In-All (λ z. b.IsBox z.extent) x n.entries (v.boxes id n h) k in
      climb (level root) id n x x d h box k (law.Within_refl x.extent box) meets (omega arith)
        (Finds-leaf id n x d h t k e meets) fuel r l j

  -- The search finds nothing but items of the tree that meet the query.
  pub find_from-from :
      (fuel id : ℕ) (n : RtNode b D) (r : List D) (d : D)
      → table id ≡ some n
      → find_from b D fuel table q id ≡ some r
      → In d r
      → (x : RtEntry b D) × In x items × (x.slot ≡ data_slot d) × (b.intersects x.extent q ≡ true)
  unfolding find_from
  find_from-from zero id n r d h j i = absurd (cc)
  find_from-from (suc fuel) id n r d h j i = elim (Bool-cases n.is_leaf) [
    | inl t ↦
        let (y, s, k, meets, e, l) =
          find_entries-from b D q (find_from b D fuel table q) true n.entries r d
            (find_from_step true fuel id n r h t j) i in
        let ((d', e'), k') = v.leaf id n h t y k in
        let s' = some-inj (d' ∷ []) s (sym (hit_leaf (find_from b D fuel table q) y d' e') ∙ e) in
        elim (subst (In d) (sym s') l) [
          | inl same ↦ (y, k', e' ∙ ap data_slot (sym same), meets)
          | inr none_left ↦ absurd none_left
        ]
    | inr t ↦
        let (y, s, k, meets, e, l) =
          find_entries-from b D q (find_from b D fuel table q) false n.entries r d
            (find_from_step false fuel id n r h t j) i in
        let (c, m, e', h', lt, _, _) = v.inner id n h t y k in
        find_from-from fuel c m s d h' (sym (hit_inner (find_from b D fuel table q) y c e') ∙ e) l
  ]
