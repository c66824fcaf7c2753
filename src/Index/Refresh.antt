-- ===== src/Index/Refresh.antt =====
-- The entry that adjustTree gets anew in the parent of a changed node
-- (src/osgGIS/RTree.cpp.inline).
use mathlib.Core.Path.{subst}
use osggis.Base.{
  ℕ, ◌≡◌, ◌≢◌, refl, sym, ap, ◌∙◌, true, false, List, [], ◌∷◌, length, inl, inr, In, All, arith,
  Bool-cases,
}
use osggis.Index.Boxes.{Boxes}
use osggis.Index.Node.{child_id, RtEntry}
use osggis.Index.Tree.{is_child, refresh}
use osggis.Index.Inv.{count_child}
use osggis.Index.Table.{slot_is_child}

module _ (b : Boxes) (D : Type 0) (n : ℕ) (ext : b.Box) where
  abbrev pub fresh : List (RtEntry b D) → List (RtEntry b D)
  fresh xs = refresh b D n ext xs

  fresh-true :
      (x : RtEntry b D) (xs : List (RtEntry b D))
      → is_child b D n x.slot ≡ true
      → fresh (x ∷ xs) ≡ (record x { extent = ext }) ∷ xs
  unfolding refresh
  fresh-true x xs t = rw (refresh, t) refl

  fresh-false :
      (x : RtEntry b D) (xs : List (RtEntry b D))
      → is_child b D n x.slot ≡ false
      → fresh (x ∷ xs) ≡ x ∷ fresh xs
  unfolding refresh
  fresh-false x xs t = rw (refresh, t) refl

  pub refresh-All :
      (P : b.Box → Type 0) (xs : List (RtEntry b D))
      → P ext
      → All (λ x. P x.extent) xs
      → All (λ x. P x.extent) (fresh xs)
  unfolding refresh
  refresh-All P [] h k = tt
  refresh-All P (x ∷ xs) h k = elim (Bool-cases (is_child b D n x.slot)) [
    | inl t ↦ rw (t, refresh) (h, k.1)
    | inr t ↦ rw (t, refresh) (k.0, refresh-All P xs h k.1)
  ]

  pub length-refresh : (xs : List (RtEntry b D)) → length (fresh xs) ≡ length xs
  unfolding refresh
  length-refresh [] = refl
  length-refresh (x ∷ xs) = ground (arith, length-refresh xs)

  pub count_child-refresh :
      (c : ℕ) (xs : List (RtEntry b D)) → count_child b D c (fresh xs) ≡ count_child b D c xs
  unfolding refresh
  count_child-refresh c [] = refl
  count_child-refresh c (x ∷ xs) = elim (Bool-cases (is_child b D n x.slot)) [
    | inl t ↦ rw (t, refresh) refl
    | inr t ↦ rw (t, refresh) (omega (arith, count_child-refresh c xs))
  ]

  -- The entries stand for the same nodes as before.
  pub refresh-In :
      (x : RtEntry b D) (xs : List (RtEntry b D))
      → In x (fresh xs)
      → (y : RtEntry b D) × In y xs × (x.slot ≡ y.slot)
  unfolding refresh
  refresh-In x [] i = elim i [ ]
  refresh-In x (y ∷ ys) i = elim (Bool-cases (is_child b D n y.slot)) [
    | inl t ↦
        let j : In x (record y { extent = ext } ∷ ys) = subst (In x) (fresh-true y ys t) i in
        elim j [
          | inl e ↦ (y, inl refl, ap (λ (z : RtEntry b D). z.slot) e)
          | inr k ↦ (x, inr k, refl)
        ]
    | inr t ↦
        let j : In x (y ∷ fresh ys) = subst (In x) (fresh-false y ys t) i in
        elim j [
          | inl e ↦ (x, inl e, refl)
          | inr k ↦ let (z, k', e) = refresh-In x ys k in (z, inr k', e)
        ]
  ]

  pub refresh_other :
      (x : RtEntry b D) (c : ℕ) (xs : List (RtEntry b D))
      → In x xs
      → x.slot ≡ child_id c
      → c ≢ n
      → In x (fresh xs)
  refresh_other x c [] i s h = elim i [ ]
  refresh_other x c (y ∷ ys) i s h = elim (Bool-cases (is_child b D n y.slot)) [
    | inl t ↦
        let is_n = slot_is_child b D n y.slot t in
        subst (In x) (sym (fresh-true y ys t)) (elim i [
          | inl e ↦ let e' = ap (λ (z : RtEntry b D). z.slot) e in absurd (h (cc))
          | inr k ↦ inr k
        ])
    | inr t ↦
        subst (In x) (sym (fresh-false y ys t))
          (elim i [ inl e ↦ inl e | inr k ↦ inr (refresh_other x c ys k s h) ])
  ]

  pub refresh_hit :
      (x : RtEntry b D) (xs : List (RtEntry b D))
      → In x xs
      → x.slot ≡ child_id n
      → (y : RtEntry b D) × In y (fresh xs) × (y.slot ≡ child_id n) × (y.extent ≡ ext)
  refresh_hit x [] i s = elim i [ ]
  refresh_hit x (y ∷ ys) i s = elim (Bool-cases (is_child b D n y.slot)) [
    | inl t ↦ (
      record y { extent = ext },
      subst (In (record y { extent = ext })) (sym (fresh-true y ys t)) (inl refl),
      slot_is_child b D n y.slot t,
      refl,
    )
    | inr t ↦ elim i [
      | inl e ↦
          let e' : y.slot ≡ child_id n = ap (λ (z : RtEntry b D). z.slot) (sym e) ∙ s in
          let t' : is_child b D n y.slot ≡ true = rw e' (ground arith) in absurd (cc)
      | inr k ↦
          let (z, j, s', e') = refresh_hit x ys k s in
          (z, subst (In z) (sym (fresh-false y ys t)) (inr j), s', e')
    ]
  ]
