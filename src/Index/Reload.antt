-- ===== src/Index/Reload.antt =====
-- The R-tree that its file gives back (RTree::writeTo and readFrom, src/osgGIS/RTree.cpp.inline).
use mathlib.Core.Path.{fun_ext}
use osggis.Base.{
  ℕ, zero, suc, ◌+◌, ◌≤◌, ◌<◌, ◌≡◌, ◌≢◌, refl, sym, ap, ◌∙◌, false, Option, none, some, List, [],
  ◌∷◌, ◌++◌, ◌==◌, ◌>>=◌, All-In, Bytes, bytes_eq_refl, arith, inl, inr, Option-cases, Bool-cases,
  ==_iff,
}
use osggis.Index.Boxes.{Boxes, IsBoxes}
use osggis.Index.Node.{RtEntry, RtNode, NodeTable, write}
use osggis.Index.Tree.{RTree, new_tree}
use osggis.Index.Table.{write_same, write_other}
use osggis.Index.Adjust.{IsSettled}
use osggis.Index.File.{
  Disk, blank, newline, magic, lines_of, later_lines, put_extent, put_header, put_nodes, write_to,
  get_nodes, read_body, read_from,
}
use osggis.Index.Lines.{
  IsOneLine, IsDisk, extract_next, get_extent-blank, get_extent-put_extent, put_extent-IsOneLine,
  stored_extent, stored_node, HasSlot, IsUniform, put_node-IsNodeText, print_before,
}

lines_of-line : (l rest : Bytes) → IsOneLine l → lines_of (l ++ newline ∷ rest) ≡ l ∷ lines_of rest
unfolding lines_of
lines_of-line [] rest h = refl
lines_of-line (c ∷ l) rest h =
    let t : (c == newline) ≡ false = ground (arith, h.0) in rw (lines_of-line l rest h.1, t) refl

module _ {b : Boxes} {D : Type 0} (k : Disk b D) (round : k.Number → k.Number)
    (law : IsDisk k round) where
  abbrev pub stored_at : Option (RtNode b D) → Option (RtNode b D)
  stored_at none = none
  stored_at (some n) = some (stored_node k round law n)

  -- The table with what the file keeps of each extent.
  abbrev pub stored_table : NodeTable b D → NodeTable b D
  stored_table table id = stored_at (table id)

  abbrev pub stored_tree : RTree b D → RTree b D
  stored_tree t = record t { node_table = stored_table t.node_table }

  abbrev put_over : NodeTable b D → ℕ → Option (RtNode b D) → NodeTable b D
  put_over base id none = base
  put_over base id (some n) = write b D base id (stored_node k round law n)

  -- So many keys of a table from one on, put over another table.
  abbrev overlay : NodeTable b D → NodeTable b D → ℕ → ℕ → NodeTable b D
  overlay table base id zero = base
  overlay table base id (suc left) = overlay table (put_over base id (table id)) (suc id) left

  abbrev AreUniform : NodeTable b D → Type 0
  AreUniform table = (id : ℕ) (n : RtNode b D) → table id ≡ some n → IsUniform k round law n

  abbrev IsTableText : NodeTable b D → NodeTable b D → ℕ → ℕ → Type 0
  IsTableText table base id left =
      (w : Bytes) × (put_nodes k table id left ≡ some w)
      × (get_nodes k base (lines_of w) ≡ some (overlay table base id left))

  put_nodes-IsTableText :
      (table : NodeTable b D) (left id : ℕ) (base : NodeTable b D)
      → AreUniform table
      → IsTableText table base id left
  unfolding put_nodes get_nodes lines_of
  put_nodes-IsTableText table zero id base u = ([], refl, refl)
  put_nodes-IsTableText table (suc left) id base u = elim (Option-cases (table id)) [
    | inl e ↦
        let (w, p, g) = put_nodes-IsTableText table left (suc id) base u in
        (w, rw (p, ◌>>=◌, e) refl, rw e g)
    | inr (n, e) ↦
        let n' = stored_node k round law n in
        let (w, p, g) = put_nodes-IsTableText table left (suc id) (write b D base id n') u in
        let (c, l, p', o, g') = put_node-IsNodeText k round law id n (u id n e) in
        (
          (c ∷ l) ++ newline ∷ w,
          rw (p, ◌>>=◌, e, p') refl,
          rw (lines_of-line (c ∷ l) w o, g', ◌>>=◌, e) g,
        )
  ]

  put_over_other :
      (base : NodeTable b D) (id i : ℕ) (o : Option (RtNode b D))
      → i ≢ id
      → put_over base id o i ≡ base i
  put_over_other base id i none ne = refl
  put_over_other base id i (some n) ne = write_other b D base id i (stored_node k round law n) ne

  -- The keys before those that are put over, and those that the table does not have.
  overlay_below :
      (table : NodeTable b D) (left id i : ℕ) (base : NodeTable b D)
      → i < id
      → overlay table base id left i ≡ base i
  overlay_below table zero id i base h = refl
  overlay_below table (suc left) id i base h =
      overlay_below table left (suc id) i (put_over base id (table id)) (omega arith)
      ∙ put_over_other base id i (table id) (omega arith)

  overlay-none :
      (table : NodeTable b D) (left id i : ℕ) (base : NodeTable b D)
      → table i ≡ none
      → overlay table base id left i ≡ base i
  overlay-none table zero id i base h = refl
  overlay-none table (suc left) id i base h =
      overlay-none table left (suc id) i (put_over base id (table id)) h
      ∙ elim (Bool-cases (i == id)) [
        | inl t ↦
            let same = (==_iff i id).0 t in
            let h' : table id ≡ none = ap table (sym same) ∙ h in rw h' refl
        | inr t ↦ put_over_other base id i (table id) (ground arith)
      ]

  overlay-some :
      (table : NodeTable b D) (left id i : ℕ) (base : NodeTable b D) (n : RtNode b D)
      → id ≤ i
      → i < id + left
      → table i ≡ some n
      → overlay table base id left i ≡ some (stored_node k round law n)
  overlay-some table zero id i base n h l e = absurd (omega arith)
  overlay-some table (suc left) id i base n h l e = elim (Bool-cases (i == id)) [
    | inl t ↦
        let same = (==_iff i id).0 t in
        let e' : table id ≡ some n = ap table (sym same) ∙ e in
        let n' = stored_node k round law n in
        rw e' (
          overlay_below table left (suc id) i (write b D base id n') (omega arith)
          ∙ ap (write b D base id n') same
          ∙ write_same b D base id n')
    | inr t ↦
        let ne : i ≢ id = ground arith in
        overlay-some table left (suc id) i (put_over base id (table id)) n (omega arith)
          (omega arith) e
  ]

  -- Over the table of a new tree the nodes of a tree that still has the node 1 are all there is.
  overlay_whole :
      (table : NodeTable b D) (gen : ℕ) (first : RtNode b D)
      → ((id : ℕ) (n : RtNode b D) → table id ≡ some n → id ≤ gen)
      → table 1 ≡ some first
      → overlay table (new_tree b D).node_table 0 (suc gen) ≡ stored_table table
  unfolding new_tree
  overlay_whole table gen first bounds h = fun_ext (λ i. elim (Option-cases (table i)) [
    | inl e ↦
        let ne : i ≢ 1 = λ same. absurd (let e' = sym (ap table same ∙ h) ∙ e in cc) in
        overlay-none table (suc gen) 0 i (new_tree b D).node_table e
        ∙ (write_other b D (λ id. none) 1 i _ ne ∙ rw e refl)
    | inr (n, e) ↦
        let l = bounds i n e in
        overlay-some table (suc gen) 0 i (new_tree b D).node_table n (omega arith) (omega arith) e
        ∙ rw e refl
  ])

  -- The text of a tree with its extent, and the tree and the extent read from it.
  abbrev IsReloaded : RTree b D → b.Box → Type 0
  IsReloaded t e =
      (w : Bytes) × (write_to k t e ≡ some w)
      × (read_from k (new_tree b D) w ≡ some (some (stored_tree t, stored_extent k round law e)))

  put_header-IsOneLine : (t : RTree b D) (e : b.Box) → IsOneLine (put_header k t e)
  unfolding put_header
  put_header-IsOneLine t e =
      let before = print_before k.ints (λ n. n) law.ints_law in
      before t.root_id _ (before t.node_id_gen _ (put_extent-IsOneLine k round law e [] tt))

  -- The header and the lines of the table.
  read_body-put_header :
      (t : RTree b D) (e : b.Box) (ls : List Bytes) (table : NodeTable b D)
      → get_nodes k (new_tree b D).node_table ls ≡ some table
      → read_body k (new_tree b D) (put_header k t e ∷ ls)
        ≡ some (record t { node_table = table }, stored_extent k round law e)
  unfolding read_body put_header
  read_body-put_header t e ls table g =
      rw
        (
          law.ints_law.extract-print t.root_id
              (blank ∷ (k.ints.print t.node_id_gen ++ blank ∷ put_extent k e [])) refl,
          ◌>>=◌,
          extract_next k.ints (λ n. n) law.ints_law t.node_id_gen (blank ∷ put_extent k e []) refl,
          get_extent-blank k round law (put_extent k e []),
          get_extent-put_extent k round law e [] tt,
          g,
        )
        refl

  magic-IsOneLine : IsOneLine magic
  magic-IsOneLine = ground arith

  read_from_body :
      (t : RTree b D) (s : Bytes) (ls : List Bytes) (r : RTree b D × b.Box)
      → lines_of s ≡ magic ∷ ls
      → read_body k t ls ≡ some r
      → read_from k t s ≡ some (some r)
  unfolding read_from
  read_from_body t s ls r e h =
      rw (e, read_from, bytes_eq_refl magic)
        (ap (λ o. o >>= λ r'. some (some r')) (ap (λ z. read_body k t (later_lines z)) e ∙ h))

  reload_uniform :
      (t : RTree b D) (e : b.Box) (first : RtNode b D)
      → AreUniform t.node_table
      → ((id : ℕ) (n : RtNode b D) → t.node_table id ≡ some n → id ≤ t.node_id_gen)
      → t.node_table 1 ≡ some first
      → IsReloaded t e
  unfolding write_to
  reload_uniform t e first u bounds h =
      let base = (new_tree b D).node_table in
      let (rest, p, g) = put_nodes-IsTableText t.node_table (suc t.node_id_gen) 0 base u in
      let head = put_header k t e in
      let two = lines_of-line head rest (put_header-IsOneLine t e) in
      let one = lines_of-line magic (head ++ newline ∷ rest) magic-IsOneLine in
      let whole = overlay_whole t.node_table t.node_id_gen first bounds h in
      let body =
        read_body-put_header t e (lines_of rest) (stored_table t.node_table) (g ∙ ap some whole) in
      (
        magic ++ newline ∷ (head ++ newline ∷ rest),
        rw (p, ◌>>=◌) refl,
        read_from_body (new_tree b D) _ (head ∷ lines_of rest) _ (one ∙ ap (λ ls. magic ∷ ls) two)
            body,
      )

module _ {b : Boxes} {D : Type 0} (boxes : IsBoxes b) (k : Disk b D) (round : k.Number → k.Number)
    (law : IsDisk k round) where
  entries-HasSlot :
      (t : RTree b D) (items : List (RtEntry b D)) (high id : ℕ) (n : RtNode b D)
      → IsSettled b boxes D t items high
      → t.node_table id ≡ some n
      → IsUniform k round law n
  entries-HasSlot t items high id n s h =
      All-In (λ (x : RtEntry b D). HasSlot k round law n.is_leaf x.slot) n.entries
        (λ x i. elim (Bool-cases n.is_leaf) [
          | inl l ↦ let ((d, e), _) = s.tree.leaf id n h l x i in rw (l, e) tt
          | inr l ↦ let (c, _, e, _, _, _, _) = s.tree.inner id n h l x i in rw (l, e) tt
        ])

  -- A tree that has the invariant and still has the node with which it began is written, and
  -- what is written is read back by a new tree as the same tree and extent, each extent as the file
  -- keeps it.
  pub read_from-write_to :
      (t : RTree b D) (items : List (RtEntry b D)) (high : ℕ) (first : RtNode b D) (e : b.Box)
      → IsSettled b boxes D t items high
      → t.node_table 1 ≡ some first
      → (w : Bytes) × (write_to k t e ≡ some w)
        × (read_from k (new_tree b D) w
            ≡ some (some (stored_tree k round law t, stored_extent k round law e)))
  read_from-write_to t items high first e s h =
      reload_uniform k round law t e first (λ id n at. entries-HasSlot t items high id n s at)
        (λ id n at. let (_, l, _) = s.tree.bounds id n at in l) h
