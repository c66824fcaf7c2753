-- ===== src/Index/Split.antt =====
-- The quadratic split of a node (pickSeedsQ and splitNodeQ in src/osgGIS/RTree.cpp.inline).
use osggis.Base.{
  ℕ, suc, ◌/◌, Bool, true, false, ◌||◌, Option, none, some, List, [], ◌∷◌, ◌++◌, ◌==◌, leb, length,
  ◌>>=◌, get_elem?,
}
use osggis.Index.Boxes.{Boxes}
use osggis.Index.Node.{Slot, child_id, data_slot, RtEntry, NodeTable, write, compute_extent}

-- CONST_M
abbrev pub const_m : ℕ
const_m = 64

module _ (b : Boxes) (D : Type 0) where
  open b use {Box, Area, include, area, minus, less}

  -- largest_d, out_first_index and out_second_index
  pub record Seeds : Type 0 where
    pub largest_d : Area
    pub first_index : ℕ
    pub second_index : ℕ

  -- The inner loop of pickSeedsQ, from the entry at index j on.
  unfoldable pub pick_second : RtEntry b D → ℕ → ℕ → List (RtEntry b D) → Seeds → Seeds
  pick_second one i j [] s = s
  pick_second one i j (two ∷ rest) s =
      let combined = include one.extent two.extent in
      let d = minus (minus (area combined) (area one.extent)) (area two.extent) in
      elim (less s.largest_d d) [
        | true ↦
            pick_second one i (suc j) rest
              (record { largest_d = d; first_index = i; second_index = j })
        | false ↦ pick_second one i (suc j) rest s
      ]

  unfoldable pub pick_first : ℕ → List (RtEntry b D) → Seeds → Seeds
  unfolding pick_second
  pick_first i [] s = s
  pick_first i (one ∷ rest) s = pick_first (suc i) rest (pick_second one i (suc i) rest s)

  -- The indices start at 0 and 1 in splitNodeQ.
  unfoldable pub pick_seeds : List (RtEntry b D) → Seeds
  unfolding pick_first
  pick_seeds list =
      pick_first 0 list (record { largest_d = b.minus_one; first_index = 0; second_index = 1 })

  pub record Groups : Type 0 where
    pub first_group : List (RtEntry b D)
    pub second_group : List (RtEntry b D)
    pub first_ext : Box
    pub second_ext : Box

  unfoldable pub push_first : RtEntry b D → Groups → Groups
  unfolding compute_extent
  push_first x g =
      let xs = g.first_group ++ (x ∷ []) in
      record g { first_group = xs; first_ext = compute_extent b D xs }

  unfoldable pub push_second : RtEntry b D → Groups → Groups
  unfolding compute_extent
  push_second x g =
      let xs = g.second_group ++ (x ∷ []) in
      record g { second_group = xs; second_ext = compute_extent b D xs }

  -- The body of the loop of splitNodeQ, for an entry that is no seed.
  unfoldable pub assign_entry : RtEntry b D → Groups → Groups
  unfolding push_first push_second
  assign_entry x g = elim (leb (const_m / 2) (length g.first_group)) [
    | true ↦ push_second x g
    | false ↦ elim (leb (const_m / 2) (length g.second_group)) [
      | true ↦ push_first x g
      | false ↦
          let d_first = minus (area (include g.first_ext x.extent)) (area g.first_ext) in
          let d_second = minus (area (include g.second_ext x.extent)) (area g.second_ext) in
          elim (less d_first d_second) [ true ↦ push_first x g | false ↦ push_second x g ]
    ]
  ]

  unfoldable pub assign_entries : ℕ → ℕ → ℕ → List (RtEntry b D) → Groups → Groups
  unfolding assign_entry
  assign_entries first second i [] g = g
  assign_entries first second i (x ∷ xs) g = elim ((i == first) || (i == second)) [
    | true ↦ assign_entries first second (suc i) xs g
    | false ↦ assign_entries first second (suc i) xs (assign_entry x g)
  ]

  abbrev pub start_groups : RtEntry b D → RtEntry b D → Groups
  start_groups x y = record {
    first_group = x ∷ [];
    second_group = y ∷ [];
    first_ext = compute_extent b D (x ∷ []);
    second_ext = compute_extent b D (y ∷ []);
  }

  -- The two groups of the entries of a node. `none` is an index past the end of the list.
  unfoldable pub split_entries : List (RtEntry b D) → Option Groups
  unfolding pick_seeds assign_entries
  split_entries xs =
      let s = pick_seeds xs in
      get_elem? xs s.first_index >>= λ x. get_elem? xs s.second_index >>= λ y.
      some (assign_entries s.first_index s.second_index 0 xs (start_groups x y))

  -- child_node->parent_id = LL->id for each child.
  unfoldable pub set_parent : NodeTable b D → ℕ → ℕ → Option (NodeTable b D)
  unfolding write
  set_parent table c p = table c >>= λ n. some (write b D table c (record n { parent_id = p }))

  abbrev pub set_slot_parent : NodeTable b D → Slot D → ℕ → Option (NodeTable b D)
  set_slot_parent table (child_id c) p = set_parent table c p
  set_slot_parent table (data_slot d) p = none

  unfoldable pub reparent : NodeTable b D → List (RtEntry b D) → ℕ → Option (NodeTable b D)
  unfolding set_parent
  reparent table [] p = some table
  reparent table (x ∷ xs) p = set_slot_parent table x.slot p >>= λ t. reparent t xs p

  unfoldable pub reparent_children :
      Bool → NodeTable b D → List (RtEntry b D) → ℕ → Option (NodeTable b D)
  unfolding reparent
  reparent_children true table xs p = some table
  reparent_children false table xs p = reparent table xs p
