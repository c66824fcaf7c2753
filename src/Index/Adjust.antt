-- ===== src/Index/Adjust.antt =====
-- adjustTree from a changed node up to the root (src/osgGIS/RTree.cpp.inline).
use osggis.Base.{
  ℕ, suc, ◌≤◌, ◌<◌, ◌≡◌, ◌≢◌, refl, sym, ◌∙◌, true, false, Option, none, some, List, ◌==◌, leb,
  length, ◌>>=◌, inl, inr, All-In, arith, Bool-cases, if◌then◌else◌,
}
use osggis.Index.Boxes.{Boxes, IsBoxes}
use osggis.Index.Node.{RtEntry, RtNode, NodeTable, write}
use osggis.Index.Split.{const_m, Groups, split_entries}
use osggis.Index.Division.{IsDivision, split_entries-IsDivision}
use osggis.Index.Tree.{RTree, split_node, split_if_full}
use osggis.Index.Inv.{IsData, IsTree}
use osggis.Index.Table.{write-Extends, HasChild, reparent_children_lem}
use osggis.Index.Halve.{halves, split_table, FullNode}
use osggis.Index.Relinked.{split_table-IsTree, split_facts}

-- The id of the new node beside the changed one, 0 if there is none.
abbrev pub extra_id : Option ℕ → ℕ
extra_id none = 0
extra_id (some nn) = nn

module _ (b : Boxes) (law : IsBoxes b) (D : Type 0) where
  -- The new node is in the table, at the level of the other.
  abbrev pub IsBeside : NodeTable b D → (ℕ → ℕ) → ℕ → Option ℕ → Type 0
  IsBeside table level l none = Unit {0}
  IsBeside table level l (some nn) =
      (new : RtNode b D) × (table nn ≡ some new)
      × (0 < length new.entries)
      × (level nn ≡ level l)
      × (nn ≢ l)

  -- The tree as adjustTree finds it at the node `l` with the new node, if any, beside it. The root is
  -- at level `high` and `l` at level `low`.
  pub record IsPending (t : RTree b D) (items : List (RtEntry b D)) (l : ℕ) (o : Option ℕ)
      (high low : ℕ) : Type 0 where
    pub level : ℕ → ℕ
    pub node : RtNode b D
    pub tree : IsTree b law D t.node_table level t.root_id t.node_id_gen items l (extra_id o)
    pub there : t.node_table l ≡ some node
    pub some_entry : 0 < length node.entries
    pub small_node : length node.entries < 64
    pub beside : IsBeside t.node_table level l o
    pub highest : level t.root_id ≡ high
    pub lowest : level l ≡ low
    pub not_extra : l ≢ extra_id o

  -- The tree between two insertions; the root is at level `high`.
  pub record IsSettled (t : RTree b D) (items : List (RtEntry b D)) (high : ℕ) : Type 0 where
    pub level : ℕ → ℕ
    pub tree : IsTree b law D t.node_table level t.root_id t.node_id_gen items 0 0
    pub highest : level t.root_id ≡ high

  module _ (t : RTree b D) (level : ℕ → ℕ) (items : List (RtEntry b D)) (l : ℕ)
      (v : IsTree b law D t.node_table level t.root_id t.node_id_gen items l 0) (n : RtNode b D)
      (at : t.node_table l ≡ some n) where
    split_node_lem :
        (g : Groups b D)
        → split_entries b D n.entries ≡ some g
        → IsDivision b D n.entries g
        → split_node b D t l
          ≡ some (
            record t {
              node_table = split_table b D t.node_table l (suc t.node_id_gen) n g;
              node_id_gen = suc t.node_id_gen;
            },
            suc t.node_id_gen,
          )
    unfolding split_node
    split_node_lem g e div =
        let ll = suc t.node_id_gen in
        let first : RtNode b D = record n { entries = g.first_group } in
        let second : RtNode b D = record n { entries = g.second_group } in
        let table1 = write b D t.node_table ll second in
        let children =
          reparent_children_lem b D n.is_leaf g.second_group (halves b D t.node_table l ll n g) ll
            (λ h.
              All-In (IsData b D) g.second_group (λ x i. (v.leaf l n at h x (div.3 x (inr i))).0))
            (λ h. All-In (HasChild b D (halves b D t.node_table l ll n g)) g.second_group (λ x i.
              let (c, m, s, e', _, _, _) = v.inner l n at h x (div.3 x (inr i)) in
              let (m', e1) = write-Extends b D t.node_table ll second c m e' in
              let (m'', e2) = write-Extends b D table1 l first c m' e1 in (c, m'', s, e2))) in
        rw (at, e, children) refl

    split_full :
        (r : RTree b D × ℕ)
        → leb const_m (length n.entries) ≡ true
        → split_node b D t l ≡ some r
        → split_if_full b D t l ≡ some (r.0, some r.1)
    unfolding split_if_full
    split_full r e h = rw (at, ◌>>=◌, e, h) refl

    split_not_full : leb const_m (length n.entries) ≡ false → split_if_full b D t l ≡ some (t, none)
    unfolding split_if_full
    split_not_full e = rw (at, ◌>>=◌, e) refl

    -- A node that is full is split, and any other is left as it is.
    pub split_if_full-IsPending :
        0 < length n.entries
        → length n.entries ≤ 64
        → (t' : RTree b D) × (o : Option ℕ) × (split_if_full b D t l ≡ some (t', o))
          × IsPending t' items l o (level t.root_id) (level l)
    split_if_full-IsPending some_entry full = elim (Bool-cases (leb const_m (length n.entries))) [
      | inl e ↦
          let (g, e', div) = split_entries-IsDivision b D n.entries (ground arith) in
          let c : FullNode b law D = record {
            table = t.node_table;
            level = level;
            root = t.root_id;
            gen = t.node_id_gen;
            items = items;
            l = l;
            v = v;
            n = n;
            at = at;
            g = g;
            div = div;
          } in
          let (p, q, r, s, u, ne) = split_facts b law D c in
          (
            record t {
              node_table = split_table b D t.node_table l (suc t.node_id_gen) n g;
              node_id_gen = suc t.node_id_gen;
            },
            some (suc t.node_id_gen),
            split_full _ e (split_node_lem g e' div),
            record {
              level = λ id. if id == suc t.node_id_gen then level l else level id;
              node = record n { entries = g.first_group };
              tree = split_table-IsTree b law D c;
              there = p;
              some_entry = omega (arith, div.0);
              small_node = omega (arith, div.0);
              beside = (
                record n { entries = g.second_group },
                q,
                omega (arith, div.1),
                u ∙ sym s,
                λ same. ne (sym same),
              );
              highest = r;
              lowest = s;
              not_extra = ne;
            },
          )
      | inr e ↦ (
        t,
        none,
        split_not_full e,
        record {
          level = level;
          node = n;
          tree = v;
          there = at;
          some_entry = some_entry;
          small_node = ground arith;
          beside = tt;
          highest = refl;
          lowest = refl;
          not_extra = let (positive, _, _) = v.bounds l n at in (λ same. absurd (omega arith));
        },
      )
    ]
