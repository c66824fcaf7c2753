-- ===== src/Index/Table.antt =====
-- Writes to the table of nodes, and what they keep of the invariant of the R-tree
-- (src/osgGIS/RTree.cpp.inline).
use mathlib.Core.Path.{subst, fun_ext}
use osggis.Base.{
  ℕ, ◌<◌, ◌≡◌, ◌≢◌, refl, sym, ap, ◌∙◌, Bool, true, false, Option, none, some, List, [], ◌∷◌, ◌==◌,
  ltb, inl, inr, In, All, arith, Bool-cases, Option-cases, some-inj, ==_iff, if◌then◌else◌,
}
use osggis.Index.Boxes.{Boxes}
use osggis.Index.Node.{Slot, child_id, data_slot, RtEntry, RtNode, NodeTable, write}
use osggis.Index.Split.{set_parent, set_slot_parent, reparent, reparent_children}
use osggis.Index.Tree.{is_child}
use osggis.Index.Inv.{count_child, IsData}

module _ (b : Boxes) (D : Type 0) where
  pub write_same :
      (table : NodeTable b D) (id : ℕ) (n : RtNode b D) → write b D table id n id ≡ some n
  unfolding write
  write_same table id n = ground arith

  pub write_other :
      (table : NodeTable b D) (id k : ℕ) (n : RtNode b D)
      → k ≢ id
      → write b D table id n k ≡ table k
  unfolding write
  write_other table id k n h = ground arith

  -- A node of the table after a write is the one written or another node.
  pub write_elim :
      (P : ℕ → RtNode b D → Type 0) (table : NodeTable b D) (id : ℕ) (n : RtNode b D)
      → P id n
      → ((k : ℕ) (m : RtNode b D) → k ≢ id → table k ≡ some m → P k m)
      → (k : ℕ) (m : RtNode b D) → write b D table id n k ≡ some m
      → P k m
  write_elim P table id n h other k m e = elim (Bool-cases (k == id)) [
    | inl t ↦
        let same = (==_iff k id).0 t in
        let e' : n ≡ m =
          some-inj n m (sym (write_same table id n) ∙ ap (write b D table id n) (sym same) ∙ e) in
        subst (λ z. P z m) (sym same) (subst (P id) e' h)
    | inr t ↦ let ne : k ≢ id = ground arith in other k m ne (sym (write_other table id k n ne) ∙ e)
  ]

  -- Each node stays in the table.
  abbrev pub Extends : NodeTable b D → NodeTable b D → Type 0
  Extends table table' =
      (c : ℕ) (m : RtNode b D) → table c ≡ some m → (m' : RtNode b D) × (table' c ≡ some m')

  pub write-Extends :
      (table : NodeTable b D) (id : ℕ) (n : RtNode b D) → Extends table (write b D table id n)
  write-Extends table id n c m h = elim (Bool-cases (c == id)) [
    | inl t ↦ (n, ap (write b D table id n) ((==_iff c id).0 t) ∙ write_same table id n)
    | inr t ↦ let ne : c ≢ id = ground arith in (m, write_other table id c n ne ∙ h)
  ]

  pub slot_is_child : (c : ℕ) (s : Slot D) → is_child b D c s ≡ true → s ≡ child_id c
  slot_is_child c (child_id k) h = ap child_id ((==_iff k c).0 h)
  slot_is_child c (data_slot d) h = absurd (cc)

  -- A node that some entry refers to.
  pub count_child-In :
      (c : ℕ) (xs : List (RtEntry b D))
      → 0 < count_child b D c xs
      → (x : RtEntry b D) × In x xs × (x.slot ≡ child_id c)
  count_child-In c [] h = absurd (omega arith)
  count_child-In c (x ∷ xs) h = elim (Bool-cases (is_child b D c x.slot)) [
    | inl t ↦ (x, inl refl, slot_is_child c x.slot t)
    | inr t ↦ let (y, i, e) = count_child-In c xs (ground arith) in (y, inr i, e)
  ]

  pub count_child_pos :
      (c : ℕ) (xs : List (RtEntry b D)) (x : RtEntry b D)
      → In x xs
      → x.slot ≡ child_id c
      → 0 < count_child b D c xs
  count_child_pos c [] x i e = elim i [ ]
  count_child_pos c (y ∷ ys) x (inl same) e =
      let e' : y.slot ≡ child_id c = ap (λ (z : RtEntry b D). z.slot) (sym same) ∙ e in
      let t : is_child b D c y.slot ≡ true = rw e' (ground arith) in ground arith
  count_child_pos c (y ∷ ys) x (inr i) e = omega (arith, count_child_pos c ys x i e)

  -- A node whose parent changes if an entry of the list refers to it.
  abbrev pub moved : List (RtEntry b D) → ℕ → ℕ → RtNode b D → RtNode b D
  moved xs p id n = record n {
    parent_id = if ltb 0 (count_child b D id xs) then p else n.parent_id;
  }

  abbrev pub move_node : List (RtEntry b D) → ℕ → ℕ → Option (RtNode b D) → Option (RtNode b D)
  move_node xs p id none = none
  move_node xs p id (some n) = some (moved xs p id n)

  abbrev pub moved_in : List (RtEntry b D) → ℕ → NodeTable b D → NodeTable b D
  moved_in xs p table id = move_node xs p id (table id)

  -- The entry's child is in the table.
  abbrev pub HasChild : NodeTable b D → RtEntry b D → Type 0
  HasChild table x = (c : ℕ) × (m : RtNode b D) × (x.slot ≡ child_id c) × (table c ≡ some m)

  HasChild-Extends :
      (table table' : NodeTable b D) (xs : List (RtEntry b D))
      → Extends table table'
      → All (HasChild table) xs
      → All (HasChild table') xs
  HasChild-Extends table table' [] e h = tt
  HasChild-Extends table table' (x ∷ xs) e h =
      let (c, m, s, k) = h.0 in
      let (m', k') = e c m k in ((c, m', s, k'), HasChild-Extends table table' xs e h.1)

  reparent_one :
      (table : NodeTable b D) (x : RtEntry b D) (xs : List (RtEntry b D)) (p c : ℕ) (m : RtNode b D)
      → x.slot ≡ child_id c
      → table c ≡ some m
      → (id : ℕ)
      → moved_in xs p (write b D table c (record m { parent_id = p })) id
        ≡ moved_in (x ∷ xs) p table id
  unfolding write
  reparent_one table x xs p c m e h id = elim (Bool-cases (id == c)) [
    | inl t ↦
        let same = (==_iff id c).0 t in
        let h' : table id ≡ some m = ap table same ∙ h in
        let t' : (c == id) ≡ true = ground arith in
        let z : is_child b D id x.slot ≡ true = rw e t' in rw (t, h', z) (ground arith)
    | inr t ↦
        let t' : (c == id) ≡ false = ground arith in
        let z : is_child b D id x.slot ≡ false = rw e t' in
        elim (Option-cases (table id)) [
          | inl e' ↦ rw (t, e') refl
          | inr (n, e') ↦ rw (t, e', z) (ground arith)
        ]
  ]

  reparent_step :
      (table : NodeTable b D) (x : RtEntry b D) (xs : List (RtEntry b D)) (p c : ℕ) (m : RtNode b D)
      → x.slot ≡ child_id c
      → table c ≡ some m
      → reparent b D table (x ∷ xs) p
        ≡ reparent b D (write b D table c (record m { parent_id = p })) xs p
  unfolding reparent set_parent
  reparent_step table x xs p c m e h = rw (e, set_slot_parent, h) refl

  pub reparent_lem :
      (xs : List (RtEntry b D)) (table : NodeTable b D) (p : ℕ)
      → All (HasChild table) xs
      → reparent b D table xs p ≡ some (moved_in xs p table)
  unfolding reparent set_parent
  reparent_lem [] table p h = ap some (
      fun_ext (λ id. elim (Option-cases (table id)) [ inl e ↦ rw e refl | inr (n, e) ↦ rw e refl ]))
  reparent_lem (x ∷ xs) table p h =
      let (c, m, e, k) = h.0 in
      let n : RtNode b D = record m { parent_id = p } in
      let table' = write b D table c n in
      let rest =
        reparent_lem xs table' p (HasChild-Extends table table' xs (write-Extends table c n) h.1) in
      reparent_step table x xs p c m e k
      ∙ (rest ∙ ap some (fun_ext (reparent_one table x xs p c m e k)))

  reparent_children_leaf :
      (xs : List (RtEntry b D)) (table : NodeTable b D) (p id : ℕ)
      → All (IsData b D) xs
      → count_child b D id xs ≡ 0
  reparent_children_leaf [] table p id h = refl
  reparent_children_leaf (x ∷ xs) table p id h =
      let (d, e) = h.0 in
      let z : is_child b D id x.slot ≡ false = rw e refl in
      ground (arith, reparent_children_leaf xs table p id h.1)

  -- The children of the entries get their parent, whether the node is a leaf or not.
  pub reparent_children_lem :
      (leaf : Bool) (xs : List (RtEntry b D)) (table : NodeTable b D) (p : ℕ)
      → (leaf ≡ true → All (IsData b D) xs)
      → (leaf ≡ false → All (HasChild table) xs)
      → reparent_children b D leaf table xs p ≡ some (moved_in xs p table)
  unfolding reparent_children
  reparent_children_lem true xs table p h k = ap some (
      fun_ext (λ id.
        let z = reparent_children_leaf xs table p id (h refl) in
        elim (Option-cases (table id)) [ inl e ↦ rw e refl | inr (n, e) ↦ rw (e, z) refl ]))
  reparent_children_lem false xs table p h k = reparent_lem xs table p (k refl)
