-- ===== src/Index/Entries.antt =====
-- The loop of `find` over the entries of a node (src/osgGIS/RTree.cpp.inline).
use mathlib.Core.Path.{subst}
use osggis.Base.{
  ℕ, ◌≡◌, refl, sym, Bool, true, false, Option, some, List, [], ◌∷◌, ◌++◌, ◌⊎◌, inl, inr, In,
  In-left, In-right, In-append, All, arith, Bool-cases, Option-cases, some-inj,
}
use osggis.Index.Boxes.{Boxes}
use osggis.Index.Node.{RtEntry, hit, find_entries}

module _ (b : Boxes) (D : Type 0) (q : b.Box) where
  module _ (search : ℕ → Option (List D)) (leaf : Bool) where
    -- What the loop has done at its first entry.
    find_entries_step :
        (x : RtEntry b D) (xs : List (RtEntry b D)) (r : List D)
        → find_entries b D search leaf q (x ∷ xs) ≡ some r
        → ((b.intersects x.extent q ≡ true)
            × (s : List D) × (r' : List D) × (hit b D search leaf x.slot ≡ some s)
            × (find_entries b D search leaf q xs ≡ some r')
            × (r ≡ s ++ r'))
          ⊎ ((b.intersects x.extent q ≡ false) × (find_entries b D search leaf q xs ≡ some r))
    unfolding find_entries
    find_entries_step x xs r h = elim (Bool-cases (b.intersects x.extent q)) [
      | inl t ↦ elim (Option-cases (hit b D search leaf x.slot)) [
        | inl e ↦ absurd (ground arith)
        | inr (s, e) ↦ elim (Option-cases (find_entries b D search leaf q xs)) [
          | inl e' ↦ absurd (ground arith)
          | inr (r', e') ↦ inl (t, s, r', e, e', ground arith)
        ]
      ]
      | inr t ↦ inr (t, ground arith)
    ]

    -- An entry that meets the query adds its results.
    pub find_entries-In :
        (xs : List (RtEntry b D)) (y : RtEntry b D) (s r : List D) (d : D)
        → In y xs
        → b.intersects y.extent q ≡ true
        → hit b D search leaf y.slot ≡ some s
        → In d s
        → find_entries b D search leaf q xs ≡ some r
        → In d r
    find_entries-In [] y s r d k m h i e = elim k [ ]
    find_entries-In (x ∷ xs) y s r d k m h i e = elim (find_entries_step x xs r e) [
      | inl (t, s', r', e', e'', p) ↦ subst (In d) (sym p) (elim k [
        | inl yx ↦ let same : s ≡ s' = ground arith in In-left d s' r' (subst (In d) same i)
        | inr k' ↦ In-right d s' r' (find_entries-In xs y s r' d k' m h i e'')
      ])
      | inr (t, e') ↦ elim k [
        | inl yx ↦ absurd (ground arith)
        | inr k' ↦ find_entries-In xs y s r d k' m h i e'
      ]
    ]

    -- Each result comes from an entry that meets the query.
    pub find_entries-from :
        (xs : List (RtEntry b D)) (r : List D) (d : D)
        → find_entries b D search leaf q xs ≡ some r
        → In d r
        → (y : RtEntry b D) × (s : List D) × In y xs
          × (b.intersects y.extent q ≡ true)
          × (hit b D search leaf y.slot ≡ some s)
          × In d s
    unfolding find_entries
    find_entries-from [] r d e k = elim (subst (In d) (sym (some-inj [] r e)) k) [ ]
    find_entries-from (x ∷ xs) r d e k = elim (find_entries_step x xs r e) [
      | inl (t, s', r', e', e'', p) ↦ elim (In-append d s' r' (subst (In d) p k)) [
        | inl i ↦ (x, s', inl refl, t, e', i)
        | inr i ↦ let (y, s, j, m, h, l) = find_entries-from xs r' d e'' i in (y, s, inr j, m, h, l)
      ]
      | inr (t, e') ↦
          let (y, s, j, m, h, l) = find_entries-from xs r d e' k in (y, s, inr j, m, h, l)
    ]

  pub find_entries_total :
      (search : ℕ → Option (List D)) (leaf : Bool) (xs : List (RtEntry b D))
      → All (λ x. (s : List D) × (hit b D search leaf x.slot ≡ some s)) xs
      → (r : List D) × (find_entries b D search leaf q xs ≡ some r)
  unfolding find_entries
  find_entries_total search leaf [] h = ([], refl)
  find_entries_total search leaf (x ∷ xs) h =
      let (s, es) = h.0 in
      let (r, er) = find_entries_total search leaf xs h.1 in
      elim (Bool-cases (b.intersects x.extent q)) [
        | inl e ↦ (s ++ r, rw (e, find_entries, es, er))
        | inr e ↦ (r, rw (e, find_entries) er)
      ]
