-- ===== src/Index/Lines.antt =====
-- The lines of the R-tree's file, written and read back (src/osgGIS/RTree.cpp.inline), and what
-- `operator <<` and `operator >>` promise.
use mathlib.Core.Path.{subst}
use osggis.Base.{
  ℕ, zero, suc, ◌≡◌, ◌≢◌, refl, sym, ap, ◌∙◌, Bool, true, false, some, List, [], ◌∷◌, ◌++◌, map,
  length, ◌>>=◌, All, All-append, Bytes, arith,
}
use osggis.Index.Boxes.{Boxes}
use osggis.Index.Node.{Slot, child_id, data_slot, RtEntry, RtNode}
use osggis.Index.File.{
  Format, Disk, blank, newline, put_extent, put_slot, put_entry, put_entries, put_node, get_extent,
  get_slot, get_entry, get_entries, get_node,
}

-- A blank follows, or nothing.
abbrev pub IsDelimited : Bytes → Type 0
IsDelimited [] = Unit
IsDelimited (c ∷ s) = c ≡ blank

abbrev pub IsOneLine : Bytes → Type 0
IsOneLine s = All (λ c. c ≢ newline) s

-- A printed value that is delimited is read back, as what the print keeps of it; blanks before it are
-- skipped.
pub record IsFormat {A : Type 0} (f : Format A) (stored : A → A) : Type 0 where
  pub extract-print :
      (x : A) (rest : Bytes)
      → IsDelimited rest
      → f.extract (f.print x ++ rest) ≡ some (stored x, rest)
  pub extract_blank : (s : Bytes) → f.extract (blank ∷ s) ≡ f.extract s
  pub one_line : (x : A) → IsOneLine (f.print x)

-- Whole numbers and identifiers are kept, a `double` as far as 13 digits go.
pub record IsDisk {b : Boxes} {D : Type 0} (k : Disk b D) (round : k.Number → k.Number)
    : Type 0 where
  pub numbers_law : IsFormat k.numbers round
  pub ints_law : IsFormat k.ints (λ n. n)
  pub flags_law : IsFormat k.flags (λ n. n)
  pub oids_law : IsFormat k.oids (λ n. n)

blank-newline : blank ≢ newline
blank-newline h = absurd (omega arith)

module _ {A : Type 0} (f : Format A) (stored : A → A) (law : IsFormat f stored) where
  pub extract_next :
      (x : A) (rest : Bytes)
      → IsDelimited rest
      → f.extract (blank ∷ (f.print x ++ rest)) ≡ some (stored x, rest)
  extract_next x rest h = law.extract_blank (f.print x ++ rest) ∙ law.extract-print x rest h

  pub print_before : (x : A) (rest : Bytes) → IsOneLine rest → IsOneLine (f.print x ++ blank ∷ rest)
  print_before x rest h =
      All-append (λ c. c ≢ newline) (f.print x) (blank ∷ rest) (law.one_line x) (blank-newline, h)

module _ {b : Boxes} {D : Type 0} (k : Disk b D) (round : k.Number → k.Number)
    (law : IsDisk k round) where
  open k use {x_min, y_min, x_max, y_max, new_extent, numbers, ints, flags, oids}

  -- What the file keeps of an extent.
  abbrev pub stored_extent : b.Box → b.Box
  stored_extent e =
      new_extent (round (x_min e)) (round (y_min e)) (round (x_max e)) (round (y_max e))

  abbrev pub stored_entry : RtEntry b D → RtEntry b D
  stored_entry x = record x { extent = stored_extent x.extent }

  abbrev pub stored_node : RtNode b D → RtNode b D
  stored_node n = record n { entries = map stored_entry n.entries }

  pub get_extent-put_extent :
      (e : b.Box) (rest : Bytes)
      → IsDelimited rest
      → get_extent k (put_extent k e rest) ≡ some (stored_extent e, rest)
  unfolding get_extent put_extent
  get_extent-put_extent e rest h =
      let next = extract_next numbers round law.numbers_law in
      rw
        (
          law.numbers_law.extract-print (x_min e) _ refl,
          ◌>>=◌,
          next (y_min e) _ refl,
          next (x_max e) _ refl,
          next (y_max e) rest h,
        )
        refl

  pub get_extent-blank : (s : Bytes) → get_extent k (blank ∷ s) ≡ get_extent k s
  unfolding get_extent
  get_extent-blank s = rw (law.numbers_law.extract_blank s) refl

  pub put_extent-IsOneLine :
      (e : b.Box) (rest : Bytes) → IsOneLine rest → IsOneLine (put_extent k e rest)
  unfolding put_extent
  put_extent-IsOneLine e rest h =
      let before = print_before numbers round law.numbers_law in
      before (x_min e) _ (
        before (y_min e) _ (
          before (x_max e) _ (
            All-append (λ c. c ≢ newline) (numbers.print (y_max e)) rest
              (law.numbers_law.one_line (y_max e)) h)))

  -- The member of the union that the kind of the node calls for.
  abbrev pub HasSlot : Bool → Slot D → Type 0
  HasSlot true (data_slot d) = Unit
  HasSlot false (child_id c) = Unit
  HasSlot leaf s = ⊥

  abbrev IsSlotText : Bool → Slot D → Bytes → Type 0
  IsSlotText leaf s rest =
      (w : Bytes) × (put_slot k leaf s ≡ some w)
      × IsOneLine (w ++ blank ∷ rest)
      × (get_slot k leaf (blank ∷ (w ++ blank ∷ rest)) ≡ some (s, blank ∷ rest))

  put_slot-IsSlotText :
      (leaf : Bool) (s : Slot D) (rest : Bytes)
      → HasSlot leaf s
      → IsOneLine rest
      → IsSlotText leaf s rest
  unfolding get_slot
  put_slot-IsSlotText true (data_slot d) rest h o = (
    oids.print d,
    refl,
    print_before oids (λ n. n) law.oids_law d rest o,
    rw (extract_next oids (λ n. n) law.oids_law d (blank ∷ rest) refl) refl,
  )
  put_slot-IsSlotText true (child_id c) rest h o = absurd h
  put_slot-IsSlotText false (child_id c) rest h o = (
    ints.print c,
    refl,
    print_before ints (λ n. n) law.ints_law c rest o,
    rw (extract_next ints (λ n. n) law.ints_law c (blank ∷ rest) refl) refl,
  )
  put_slot-IsSlotText false (data_slot d) rest h o = absurd h

  -- An entry that is written before the rest of a line and read back.
  abbrev IsEntryText : Bool → RtEntry b D → Bytes → Type 0
  IsEntryText leaf x rest =
      (w : Bytes) × (put_entry k leaf x rest ≡ some w)
      × IsOneLine w
      × (get_entry k leaf w ≡ some (stored_entry x, blank ∷ rest))

  put_entry-IsEntryText :
      (leaf : Bool) (x : RtEntry b D) (rest : Bytes)
      → HasSlot leaf x.slot
      → IsOneLine rest
      → IsEntryText leaf x rest
  unfolding put_entry get_entry
  put_entry-IsEntryText leaf x rest h o =
      let (w, e, o', g) = put_slot-IsSlotText leaf x.slot rest h o in
      let more = blank ∷ (w ++ blank ∷ rest) in
      (
        put_extent k x.extent more,
        rw e refl,
        put_extent-IsOneLine x.extent more (blank-newline, o'),
        rw (get_extent-put_extent x.extent more refl, ◌>>=◌, g) refl,
      )

  get_entries-blank :
      (leaf : Bool) (n : ℕ) (s : Bytes) → get_entries k leaf n (blank ∷ s) ≡ get_entries k leaf n s
  unfolding get_entries get_entry
  get_entries-blank leaf zero s = refl
  get_entries-blank leaf (suc n) s = rw (get_extent-blank s) refl

  abbrev IsReadable : Bool → List (RtEntry b D) → Type 0
  IsReadable leaf xs =
      (w : Bytes) × (put_entries k leaf xs ≡ some w)
      × IsOneLine w
      × (get_entries k leaf (length xs) w ≡ some (map stored_entry xs))

  put_entries-IsReadable :
      (leaf : Bool) (xs : List (RtEntry b D))
      → All (λ (x : RtEntry b D). HasSlot leaf x.slot) xs
      → IsReadable leaf xs
  unfolding put_entries get_entries
  put_entries-IsReadable leaf [] h = ([], refl, tt, refl)
  put_entries-IsReadable leaf (x ∷ xs) h =
      let (rest, e, o, g) = put_entries-IsReadable leaf xs h.1 in
      let (w, e', o', g') = put_entry-IsEntryText leaf x rest h.0 o in
      (w, rw (e, ◌>>=◌) e', o', rw (g', ◌>>=◌, get_entries-blank leaf (length xs) rest, g) refl)

  abbrev pub IsUniform : RtNode b D → Type 0
  IsUniform n = All (λ (x : RtEntry b D). HasSlot n.is_leaf x.slot) n.entries

  -- The line of a node: it is not empty and gives the node with its id.
  abbrev pub IsNodeText : ℕ → RtNode b D → Type 0
  IsNodeText id n =
      (c : ℕ) × (w : Bytes) × (put_node k id n ≡ some (c ∷ w))
      × IsOneLine (c ∷ w)
      × (get_node k (c ∷ w) ≡ some (id, stored_node n))

  -- A text with a blank in it has a first byte.
  cons-of : (s t : Bytes) → (c : ℕ) × (w : Bytes) × (s ++ blank ∷ t ≡ c ∷ w)
  cons-of [] t = (blank, t, refl)
  cons-of (c ∷ s) t = (c, s ++ blank ∷ t, refl)

  pub put_node-IsNodeText : (id : ℕ) (n : RtNode b D) → IsUniform n → IsNodeText id n
  unfolding put_node get_node
  put_node-IsNodeText id n h =
      let (rest, e, o, g) = put_entries-IsReadable n.is_leaf n.entries h in
      let i = law.ints_law in
      let before = print_before ints (λ n. n) i in
      let r3 = ints.print (length n.entries) ++ blank ∷ rest in
      let r2 = flags.print n.is_leaf ++ blank ∷ r3 in
      let r1 = ints.print n.parent_id ++ blank ∷ r2 in
      let (c, w, same) = cons-of (ints.print id) r1 in
      let one = before id r1 (
        before n.parent_id r2 (
          print_before flags (λ n. n) law.flags_law n.is_leaf r3
            (before (length n.entries) rest o))) in
      let read : get_node k (ints.print id ++ blank ∷ r1) ≡ some (id, stored_node n) =
        rw
          (
            i.extract-print id (blank ∷ r1) refl,
            ◌>>=◌,
            extract_next ints (λ n. n) i n.parent_id (blank ∷ r2) refl,
            extract_next flags (λ n. n) law.flags_law n.is_leaf (blank ∷ r3) refl,
            extract_next ints (λ n. n) i (length n.entries) (blank ∷ rest) refl,
            get_entries-blank n.is_leaf (length n.entries) rest,
            g,
          )
          refl in
      (
        c,
        w,
        rw (e, ◌>>=◌) (ap some same),
        subst IsOneLine same one,
        ap (get_node k) (sym same) ∙ read,
      )
