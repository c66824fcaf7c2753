-- ===== src/Index/Groups.antt =====
-- The two groups into which a full node is split (splitNodeQ in src/osgGIS/RTree.cpp.inline).
use mathlib.Core.Path.{subst}
use osggis.Base.{
  ℕ, suc, ◌+◌, ◌≤◌, ◌<◌, ◌≡◌, refl, sym, ◌||◌, ◌&&◌, some, List, [], ◌∷◌, ◌==◌, leb, ltb, length,
  get_elem?, some-inj, ◌⊎◌, inl, inr, In, In-left, In-right, length-append, arith, Bool-cases,
  if◌then◌else◌,
}
use osggis.Index.Boxes.{Boxes}
use osggis.Index.Node.{RtEntry}
use osggis.Index.Split.{
  Seeds, pick_second, pick_first, pick_seeds, Groups, push_first, push_second, assign_entry,
  assign_entries,
}

module _ (b : Boxes) (D : Type 0) where
  -- Two different indices of a list of a length, in order.
  abbrev pub AreSeeds : ℕ → Seeds b D → Type 0
  AreSeeds n s = (s.first_index < s.second_index) × (s.second_index < n)

  pick_second-AreSeeds :
      (one : RtEntry b D) (i j : ℕ) (rest : List (RtEntry b D)) (s : Seeds b D) (n : ℕ)
      → i < j
      → j + length rest ≡ n
      → AreSeeds n s
      → AreSeeds n (pick_second b D one i j rest s)
  unfolding pick_second
  pick_second-AreSeeds one i j [] s n h k v = v
  pick_second-AreSeeds one i j (two ∷ rest) s n h k v =
      let d =
        b.minus (b.minus (b.area (b.include one.extent two.extent)) (b.area one.extent))
          (b.area two.extent) in
      elim (Bool-cases (b.less s.largest_d d)) [
        | inl e ↦
            rw (e, pick_second)
              (pick_second-AreSeeds one i (suc j) rest
                (record { largest_d = d; first_index = i; second_index = j }) n (omega arith)
                (omega arith) (h, omega arith))
        | inr e ↦
            rw (e, pick_second)
              (pick_second-AreSeeds one i (suc j) rest s n (omega arith) (omega arith) v)
      ]

  pick_first-AreSeeds :
      (i : ℕ) (xs : List (RtEntry b D)) (s : Seeds b D) (n : ℕ)
      → i + length xs ≡ n
      → AreSeeds n s
      → AreSeeds n (pick_first b D i xs s)
  unfolding pick_first
  pick_first-AreSeeds i [] s n k v = v
  pick_first-AreSeeds i (one ∷ rest) s n k v =
      pick_first-AreSeeds (suc i) rest (pick_second b D one i (suc i) rest s) n (omega arith)
        (pick_second-AreSeeds one i (suc i) rest s n (omega arith) (omega arith) v)

  pub pick_seeds-AreSeeds :
      (xs : List (RtEntry b D)) → 2 ≤ length xs → AreSeeds (length xs) (pick_seeds b D xs)
  unfolding pick_seeds
  pick_seeds-AreSeeds xs h =
      pick_first-AreSeeds 0 xs
        (record { largest_d = b.minus_one; first_index = 0; second_index = 1 }) (length xs)
        (omega arith) (omega arith, omega arith)

  abbrev pub sizes : Groups b D → ℕ
  sizes g = length g.first_group + length g.second_group

  -- An entry joins one of the groups, and neither passes half of a full node.
  assign_entry-sizes :
      (x : RtEntry b D) (g : Groups b D)
      → length g.first_group ≤ 32
      → length g.second_group ≤ 32
      → sizes g < 64
      → (length (assign_entry b D x g).first_group ≤ 32)
        × (length (assign_entry b D x g).second_group ≤ 32)
        × (sizes (assign_entry b D x g) ≡ suc (sizes g))
  unfolding assign_entry push_first push_second
  assign_entry-sizes x g h k l =
      let p = length-append g.first_group (x ∷ []) in
      let q = length-append g.second_group (x ∷ []) in ground arith

  assign_entry-In :
      (x y : RtEntry b D) (g : Groups b D)
      → let g' = assign_entry b D x g in
        (In y g.first_group → In y g'.first_group)
        × (In y g.second_group → In y g'.second_group)
        × (In x g'.first_group ⊎ In x g'.second_group)
  unfolding assign_entry push_first push_second
  assign_entry-In x y g =
      let p = In-left y g.first_group (x ∷ []) in
      let q = In-left y g.second_group (x ∷ []) in
      let r = In-right x g.first_group (x ∷ []) (inl refl) in
      let s = In-right x g.second_group (x ∷ []) (inl refl) in ground arith

  -- How many of the indices from `i` on, `n` of them, are seeds.
  abbrev pub seed_at : ℕ → ℕ → ℕ → ℕ
  seed_at i n k = if leb i k && ltb k (i + n) then 1 else 0

  abbrev pub seeds_from : ℕ → ℕ → ℕ → ℕ → ℕ
  seeds_from first second i n = seed_at i n first + seed_at i n second

  pub assign_entries-sizes :
      (first second i : ℕ) (xs : List (RtEntry b D)) (g : Groups b D)
      → first < second
      → length g.first_group ≤ 32
      → length g.second_group ≤ 32
      → sizes g + length xs ≡ 64 + seeds_from first second i (length xs)
      → let g' = assign_entries b D first second i xs g in
        (length g'.first_group ≡ 32) × (length g'.second_group ≡ 32)
  unfolding assign_entries
  assign_entries-sizes first second i [] g h k l e = ground arith
  assign_entries-sizes first second i (x ∷ xs) g h k l e =
      elim (Bool-cases ((i == first) || (i == second))) [
        | inl t ↦
            rw (t, assign_entries)
              (assign_entries-sizes first second (suc i) xs g h k l (ground arith))
        | inr t ↦
            let room : sizes g < 64 = ground arith in
            let (k', l', e') = assign_entry-sizes x g k l room in
            rw (t, assign_entries)
              (assign_entries-sizes first second (suc i) xs (assign_entry b D x g) h k' l'
                (ground arith))
      ]

  -- The entries at the seeds are in their groups already.
  abbrev pub IsSeeded : ℕ → ℕ → ℕ → List (RtEntry b D) → Groups b D → Type 0
  IsSeeded first second i [] g = Unit {0}
  IsSeeded first second i (x ∷ xs) g =
      ((i ≡ first) → In x g.first_group)
      × ((i ≡ second) → In x g.second_group)
      × IsSeeded first second (suc i) xs g

  assign_entry-IsSeeded :
      (first second i : ℕ) (x : RtEntry b D) (xs : List (RtEntry b D)) (g : Groups b D)
      → IsSeeded first second i xs g
      → IsSeeded first second i xs (assign_entry b D x g)
  assign_entry-IsSeeded first second i x [] g h = tt
  assign_entry-IsSeeded first second i x (y ∷ ys) g h =
      let (p, q, r) = assign_entry-In x y g in
      (λ e. p (h.0 e), λ e. q (h.1 e), assign_entry-IsSeeded first second (suc i) x ys g h.2)

  abbrev pub InGroups : RtEntry b D → Groups b D → Type 0
  InGroups x g = In x g.first_group ⊎ In x g.second_group

  assign_entries-kept :
      (first second i : ℕ) (xs : List (RtEntry b D)) (g : Groups b D) (y : RtEntry b D)
      → InGroups y g
      → InGroups y (assign_entries b D first second i xs g)
  unfolding assign_entries
  assign_entries-kept first second i [] g y h = h
  assign_entries-kept first second i (x ∷ xs) g y h =
      let (p, q, r) = assign_entry-In x y g in
      elim (Bool-cases ((i == first) || (i == second))) [
        | inl t ↦ rw (t, assign_entries) (assign_entries-kept first second (suc i) xs g y h)
        | inr t ↦
            rw (t, assign_entries)
              (assign_entries-kept first second (suc i) xs (assign_entry b D x g) y
                (elim h [ inl k ↦ inl (p k) | inr k ↦ inr (q k) ]))
      ]

  pub assign_entries-In :
      (first second i : ℕ) (xs : List (RtEntry b D)) (g : Groups b D) (y : RtEntry b D)
      → IsSeeded first second i xs g
      → In y xs
      → InGroups y (assign_entries b D first second i xs g)
  unfolding assign_entries
  assign_entries-In first second i [] g y h k = elim k [ ]
  assign_entries-In first second i (x ∷ xs) g y h k =
      elim (Bool-cases ((i == first) || (i == second))) [
        | inl t ↦
            let here : InGroups x g = ground (arith, h.0, h.1) in
            rw (t, assign_entries)
              (elim k [
                | inl e ↦
                    assign_entries-kept first second (suc i) xs g y
                      (subst (λ z. InGroups z g) (sym e) here)
                | inr k' ↦ assign_entries-In first second (suc i) xs g y h.2 k'
              ])
        | inr t ↦
            let (p, q, r) = assign_entry-In x x g in
            let s = assign_entry-IsSeeded first second (suc i) x xs g h.2 in
            rw (t, assign_entries)
              (elim k [
                | inl e ↦
                    assign_entries-kept first second (suc i) xs (assign_entry b D x g) y
                      (subst (λ z. InGroups z (assign_entry b D x g)) (sym e) r)
                | inr k' ↦ assign_entries-In first second (suc i) xs (assign_entry b D x g) y s k'
              ])
      ]

  pub start-IsSeeded :
      (i f s : ℕ) (xs : List (RtEntry b D)) (x y : RtEntry b D) (g : Groups b D)
      → In x g.first_group
      → In y g.second_group
      → ((k : ℕ) → i + k ≡ f → get_elem? xs k ≡ some x)
      → ((k : ℕ) → i + k ≡ s → get_elem? xs k ≡ some y)
      → IsSeeded f s i xs g
  start-IsSeeded i f s [] x y g h k p q = tt
  start-IsSeeded i f s (z ∷ zs) x y g h k p q = (
    λ e. subst (λ w. In w g.first_group) (sym (some-inj z x (p 0 (omega arith)))) h,
    λ e. subst (λ w. In w g.second_group) (sym (some-inj z y (q 0 (omega arith)))) k,
    start-IsSeeded (suc i) f s zs x y g h k (λ k e. p (suc k) (omega arith))
        (λ k e. q (suc k) (omega arith)),
  )
