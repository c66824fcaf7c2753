-- ===== src/Index/Division.antt =====
-- The split of a full node is a division of its entries (splitNodeQ in src/osgGIS/RTree.cpp.inline).
use osggis.Base.{
  ℕ, zero, suc, ◌+◌, ◌/◌, ◌<◌, ◌≡◌, ◌≢◌, refl, ap, ◌∙◌, ◌||◌, some, List, [], ◌∷◌, ◌==◌, length,
  get_elem?, get_elem?-eq, get_elem?-In, ◌⊎◌, inl, inr, In, In-All, All, All-append, All-In, sum_of,
  sum_of-append, arith, Bool-cases, if◌then◌else◌,
}
use osggis.Index.Boxes.{Boxes}
use osggis.Index.Node.{RtEntry}
use osggis.Index.Split.{
  const_m, pick_seeds, Groups, push_first, push_second, assign_entry, assign_entries, start_groups,
  split_entries,
}
use osggis.Index.Groups.{
  pick_seeds-AreSeeds, seeds_from, assign_entries-sizes, assign_entries-In, start-IsSeeded,
}

module _ (b : Boxes) (D : Type 0) where
  module _ (f : RtEntry b D → ℕ) where
    abbrev sums : Groups b D → ℕ
    sums g = sum_of f g.first_group + sum_of f g.second_group

    assign_entry-sums :
        (x : RtEntry b D) (g : Groups b D) → sums (assign_entry b D x g) ≡ sums g + f x
    unfolding assign_entry push_first push_second
    assign_entry-sums x g =
        let p = sum_of-append f g.first_group (x ∷ []) in
        let q = sum_of-append f g.second_group (x ∷ []) in ground arith

    -- The weight of the entry at an index, if it is among those from `i` on.
    abbrev weight_at : ℕ → ℕ → List (RtEntry b D) → ℕ
    weight_at k i [] = 0
    weight_at k i (x ∷ xs) = (if i == k then f x else 0) + weight_at k (suc i) xs

    weight_at_past : (k i : ℕ) (xs : List (RtEntry b D)) → k < i → weight_at k i xs ≡ 0
    weight_at_past k i [] h = refl
    weight_at_past k i (x ∷ xs) h = ground (arith, weight_at_past k (suc i) xs (omega arith))

    weight_at_lem :
        (k i j : ℕ) (xs : List (RtEntry b D)) (x : RtEntry b D)
        → i + j ≡ k
        → get_elem? xs j ≡ some x
        → weight_at k i xs ≡ f x
    weight_at_lem k i j [] x e h = absurd (cc)
    weight_at_lem k i zero (y ∷ ys) x e h =
        ground (arith, weight_at_past k (suc i) ys (omega arith))
    weight_at_lem k i (suc j) (y ∷ ys) x e h =
        ground (arith, weight_at_lem k (suc i) j ys x (omega arith) h)

    assign_entries-sums :
        (first second i : ℕ) (xs : List (RtEntry b D)) (g : Groups b D)
        → first ≢ second
        → sums (assign_entries b D first second i xs g)
            + weight_at first i xs
            + weight_at second i xs
          ≡ sums g + sum_of f xs
    unfolding assign_entries
    assign_entries-sums first second i [] g h = omega arith
    assign_entries-sums first second i (x ∷ xs) g h =
        elim (Bool-cases ((i == first) || (i == second))) [
          | inl t ↦
              let ih = assign_entries-sums first second (suc i) xs g h in
              rw (t, assign_entries) (ground arith)
          | inr t ↦
              let ih = assign_entries-sums first second (suc i) xs (assign_entry b D x g) h in
              let one = assign_entry-sums x g in rw (t, assign_entries) (ground arith)
        ]

  assign_entry-All :
      (P : RtEntry b D → Type 0) (x : RtEntry b D) (g : Groups b D)
      → P x
      → All P g.first_group
      → All P g.second_group
      → All P (assign_entry b D x g).first_group × All P (assign_entry b D x g).second_group
  unfolding assign_entry push_first push_second
  assign_entry-All P x g h p q =
      let r = All-append P g.first_group (x ∷ []) p (h, tt) in
      let s = All-append P g.second_group (x ∷ []) q (h, tt) in ground arith

  assign_entries-All :
      (P : RtEntry b D → Type 0) (first second i : ℕ) (xs : List (RtEntry b D)) (g : Groups b D)
      → All P xs
      → All P g.first_group
      → All P g.second_group
      → let g' = assign_entries b D first second i xs g in
        All P g'.first_group × All P g'.second_group
  unfolding assign_entries
  assign_entries-All P first second i [] g h p q = (p, q)
  assign_entries-All P first second i (x ∷ xs) g h p q =
      elim (Bool-cases ((i == first) || (i == second))) [
        | inl t ↦ rw (t, assign_entries) (assign_entries-All P first second (suc i) xs g h.1 p q)
        | inr t ↦
            let (p', q') = assign_entry-All P x g h.0 p q in
            rw (t, assign_entries)
              (assign_entries-All P first second (suc i) xs (assign_entry b D x g) h.1 p' q')
      ]

  -- Two groups of half of a full node that divide the entries: each entry is in one of the groups,
  -- the groups have no others, and each sum over the entries is the sum over the groups.
  abbrev pub IsDivision : List (RtEntry b D) → Groups b D → Type 0
  IsDivision xs g =
      (length g.first_group ≡ const_m / 2)
      × (length g.second_group ≡ const_m / 2)
      × ((x : RtEntry b D) → In x xs → In x g.first_group ⊎ In x g.second_group)
      × ((x : RtEntry b D) → In x g.first_group ⊎ In x g.second_group → In x xs)
      × ((f : RtEntry b D → ℕ) → sum_of f g.first_group + sum_of f g.second_group ≡ sum_of f xs)

  seeds-eq : (i j n : ℕ) → i < j → j < n → seeds_from b D i j 0 n ≡ 2
  seeds-eq i j n h k = ground arith

  assign_entries-IsDivision :
      (i j : ℕ) (xs : List (RtEntry b D)) (x y : RtEntry b D)
      → length xs ≡ const_m
      → i < j
      → j < length xs
      → get_elem? xs i ≡ some x
      → get_elem? xs j ≡ some y
      → IsDivision xs (assign_entries b D i j 0 xs (start_groups b D x y))
  assign_entries-IsDivision i j xs x y h p q ex ey =
      let g = start_groups b D x y in
      let g' = assign_entries b D i j 0 xs g in
      let seeds = seeds-eq i j (length xs) p q in
      let (l, r) =
        assign_entries-sizes b D i j 0 xs g p (omega arith) (omega arith)
          (omega (arith, seeds, h)) in
      let seeded =
        start-IsSeeded b D 0 i j xs x y g (inl refl) (inl refl)
          (λ k e. ap (get_elem? xs) (let e' : k ≡ i = omega arith in e') ∙ ex)
          (λ k e. ap (get_elem? xs) (let e' : k ≡ j = omega arith in e') ∙ ey) in
      let all =
        assign_entries-All (λ z. In z xs) i j 0 xs g (All-In (λ z. In z xs) xs (λ z k. k))
          (get_elem?-In xs i x ex, tt) (get_elem?-In xs j y ey, tt) in
      (
        l,
        r,
        λ z k. assign_entries-In b D i j 0 xs g z seeded k,
        λ z k. elim k [
          | inl k' ↦ In-All (λ z. In z xs) z g'.first_group all.0 k'
          | inr k' ↦ In-All (λ z. In z xs) z g'.second_group all.1 k'
        ],
        λ f. omega (
          arith,
          assign_entries-sums f i j 0 xs g (ground arith),
          weight_at_lem f i 0 i xs x (omega arith) ex,
          weight_at_lem f j 0 j xs y (omega arith) ey,
        ),
      )

  -- The quadratic split of the entries of a full node returns two groups, each of exactly half of a
  -- full node. An entry is in the node exactly when it is in one of the groups, and each sum over the
  -- entries is the sum over the two groups.
  pub split_entries-IsDivision :
      (xs : List (RtEntry b D))
      → length xs ≡ const_m
      → (g : Groups b D) × (split_entries b D xs ≡ some g) × IsDivision xs g
  unfolding split_entries
  split_entries-IsDivision xs h =
      let s = pick_seeds b D xs in
      let (p, q) = pick_seeds-AreSeeds b D xs (omega (arith, h)) in
      let (x, ex) = get_elem?-eq xs s.first_index (omega arith) in
      let (y, ey) = get_elem?-eq xs s.second_index (omega arith) in
      (
        assign_entries b D s.first_index s.second_index 0 xs (start_groups b D x y),
        rw (ex, ey),
        assign_entries-IsDivision s.first_index s.second_index xs x y h p q ex ey,
      )
