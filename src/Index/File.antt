-- ===== src/Index/File.antt =====
-- The file of the R-tree: RTree::writeTo and readFrom (src/osgGIS/RTree.cpp.inline). The library's
-- `operator <<` and `operator >>` on the values of the file are parameters.
use osggis.Base.{
  ℕ, zero, suc, Bool, true, false, Option, none, some, List, [], ◌∷◌, ◌++◌, ◌==◌, length,
  if◌then◌else◌, ◌>>=◌, Bytes, bytes_eq,
}
use osggis.Index.Boxes.{Boxes}
use osggis.Index.Node.{Slot, child_id, data_slot, RtEntry, RtNode, NodeTable, write}
use osggis.Index.Tree.{RTree}

-- `out << x`, and `in >> x` on the rest of a line: the value and what is left, or a failed read.
pub record Format (A : Type 0) : Type 0 where
  pub print : A → Bytes
  pub extract : Bytes → Option (A × Bytes)

pub record Disk (b : Boxes) (D : Type 0) : Type 1 where
  -- `double`, with setprecision( 13 )
  pub Number : Type 0
  pub x_min : b.Box → Number
  pub y_min : b.Box → Number
  pub x_max : b.Box → Number
  pub y_max : b.Box → Number
  -- GeoExtent( xmin, ymin, xmax, ymax, srs )
  pub new_extent : Number → Number → Number → Number → b.Box
  pub numbers : Format Number
  pub ints : Format ℕ
  pub flags : Format Bool
  pub oids : Format D

abbrev pub blank : ℕ
blank = b' '

abbrev pub newline : ℕ
newline = b'\n'

-- "OSGGIS_RTREE_1.0"
abbrev pub magic : Bytes
magic =
    b'O' ∷ b'S' ∷ b'G' ∷ b'G' ∷ b'I' ∷ b'S' ∷ b'_' ∷ b'R' ∷ b'T' ∷ b'R' ∷ b'E' ∷ b'E' ∷ b'_' ∷ b'1'
    ∷ b'.' ∷ b'0' ∷ []

-- A byte before the first of the lines.
abbrev pub onto_first : ℕ → List Bytes → List Bytes
onto_first c [] = (c ∷ []) ∷ []
onto_first c (l ∷ ls) = (c ∷ l) ∷ ls

-- What getline yields, call by call, up to the end of the file.
unfoldable pub lines_of : Bytes → List Bytes
lines_of [] = []
lines_of (c ∷ s) = let ls = lines_of s in if c == newline then [] ∷ ls else onto_first c ls

-- The next line, which is empty at the end of the file.
abbrev pub first_line : List Bytes → Bytes
first_line [] = []
first_line (l ∷ ls) = l

abbrev pub later_lines : List Bytes → List Bytes
later_lines [] = []
later_lines (l ∷ ls) = ls

module _ {b : Boxes} {D : Type 0} (k : Disk b D) where
  open k use {x_min, y_min, x_max, y_max, new_extent, numbers, ints, flags, oids}

  -- Four numbers with a blank after each but the last, before the rest of the output.
  unfoldable pub put_extent : b.Box → Bytes → Bytes
  put_extent e rest =
      numbers.print (x_min e)
      ++ blank
        ∷ (numbers.print (y_min e)
            ++ blank ∷ (numbers.print (x_max e) ++ blank ∷ (numbers.print (y_max e) ++ rest)))

  -- NULL stands for the use of the wrong member of the union.
  abbrev pub put_slot : Bool → Slot D → Option Bytes
  put_slot true (data_slot d) = some (oids.print d)
  put_slot false (child_id c) = some (ints.print c)
  put_slot leaf s = none

  -- One round of the loop over the entries, before the rest of the output.
  unfoldable pub put_entry : Bool → RtEntry b D → Bytes → Option Bytes
  unfolding put_extent
  put_entry leaf x rest =
      put_slot leaf x.slot >>= λ s. some (put_extent x.extent (blank ∷ (s ++ blank ∷ rest)))

  unfoldable pub put_entries : Bool → List (RtEntry b D) → Option Bytes
  put_entries leaf [] = some []
  put_entries leaf (x ∷ xs) = put_entries leaf xs >>= λ rest. put_entry leaf x rest

  -- The line of a node.
  unfoldable pub put_node : ℕ → RtNode b D → Option Bytes
  unfolding put_entries
  put_node id n = put_entries n.is_leaf n.entries >>= λ rest. some (
      ints.print id
      ++ blank
        ∷ (ints.print n.parent_id
            ++ blank
              ∷ (flags.print n.is_leaf ++ blank ∷ (ints.print (length n.entries) ++ blank ∷ rest))))

  -- The loop over the table, in the order of the keys: so many of them from one on.
  unfoldable pub put_nodes : NodeTable b D → ℕ → ℕ → Option Bytes
  unfolding put_node
  put_nodes table id zero = some []
  put_nodes table id (suc left) = put_nodes table (suc id) left >>= λ rest. elim (table id) [
    | none ↦ some rest
    | some n ↦ put_node id n >>= λ line. some (line ++ newline ∷ rest)
  ]

  -- The second line.
  unfoldable pub put_header : RTree b D → b.Box → Bytes
  unfolding put_extent
  put_header t extent =
      ints.print t.root_id ++ blank ∷ (ints.print t.node_id_gen ++ blank ∷ put_extent extent [])

  -- The keys end at node_id_gen.
  unfoldable pub write_to : RTree b D → b.Box → Option Bytes
  unfolding put_nodes put_header
  write_to t extent = put_nodes t.node_table 0 (suc t.node_id_gen) >>= λ rest.
      some (magic ++ newline ∷ (put_header t extent ++ newline ∷ rest))

  unfoldable pub get_extent : Bytes → Option (b.Box × Bytes)
  get_extent s = numbers.extract s >>= λ x0. numbers.extract x0.1 >>= λ y0.
      numbers.extract y0.1 >>= λ x1.
      numbers.extract x1.1 >>= λ y1. some (new_extent x0.0 y0.0 x1.0 y1.0, y1.1)

  unfoldable pub get_slot : Bool → Bytes → Option (Slot D × Bytes)
  get_slot true s = oids.extract s >>= λ r. some (data_slot r.0, r.1)
  get_slot false s = ints.extract s >>= λ r. some (child_id r.0, r.1)

  unfoldable pub get_entry : Bool → Bytes → Option (RtEntry b D × Bytes)
  unfolding get_extent get_slot
  get_entry leaf s = get_extent s >>= λ e.
      get_slot leaf e.1 >>= λ r. some (record { extent = e.0; slot = r.0 }, r.1)

  -- The loop up to num_entries.
  unfoldable pub get_entries : Bool → ℕ → Bytes → Option (List (RtEntry b D))
  unfolding get_entry
  get_entries leaf zero s = some []
  get_entries leaf (suc left) s =
      get_entry leaf s >>= λ x. get_entries leaf left x.1 >>= λ xs. some (x.0 ∷ xs)

  -- A line of the table. NULL stands for a failed read, which the source does not look at.
  unfoldable pub get_node : Bytes → Option (ℕ × RtNode b D)
  unfolding get_entries
  get_node line = ints.extract line >>= λ id. ints.extract id.1 >>= λ parent.
      flags.extract parent.1 >>= λ leaf. ints.extract leaf.1 >>= λ size.
      get_entries leaf.0 size.0 size.1 >>= λ xs.
      some (id.0, record { parent_id = parent.0; is_leaf = leaf.0; entries = xs })

  -- The loop over the lines, up to an empty one.
  unfoldable pub get_nodes : NodeTable b D → List Bytes → Option (NodeTable b D)
  unfolding get_node write
  get_nodes table [] = some table
  get_nodes table ([] ∷ ls) = some table
  get_nodes table ((c ∷ l) ∷ ls) = get_node (c ∷ l) >>= λ r. get_nodes (write b D table r.0 r.1) ls

  -- readFrom of a tree after its first line, which is the right one.
  unfoldable pub read_body : RTree b D → List Bytes → Option (RTree b D × b.Box)
  unfolding get_extent get_nodes
  read_body t ls = ints.extract (first_line ls) >>= λ root. ints.extract root.1 >>= λ gen.
      get_extent gen.1 >>= λ e. get_nodes t.node_table (later_lines ls) >>= λ table.
      some (record { node_table = table; root_id = root.0; node_id_gen = gen.0 }, e.0)

  -- NULL within is the result `false`.
  unfoldable pub read_from : RTree b D → Bytes → Option (Option (RTree b D × b.Box))
  unfolding lines_of read_body
  read_from t s = elim (bytes_eq (first_line (lines_of s)) magic) [
    | true ↦ read_body t (later_lines (lines_of s)) >>= λ r. some (some r)
    | false ↦ some none
  ]
