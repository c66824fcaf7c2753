-- ===== src/Filters/Assign.antt =====
-- The groups of a collection (src/osgGIS/CollectionFilterState.cpp) hold what was assigned to them.
use mathlib.Core.Path.{subst}
use osggis.Base.{
  is_nonempty, ◌≡◌, refl, sym, true, false, List, [], ◌∷◌, ◌++◌, append-nil, append_assoc, arith,
  All, Bool-cases, inl, inr, Bytes, bytes_lt, bytes_eq, bytes_eq_iff, bytes_lt_irrefl,
  bytes_lt_trans, bytes_lt_total, if◌then◌else◌, ◌∙◌,
}
use osggis.Filters.Groups.{push_back, group_from}

module _ {A : Type 0} where
  abbrev Above : Bytes → List (Bytes × List A) → Type 0
  Above k gs = All (λ (g : Bytes × List A). bytes_lt k g.0 ≡ true) gs

  -- The names of the groups ascend strictly, as the keys of a map, and no group is empty.
  abbrev pub IsGrouping : List (Bytes × List A) → Type 0
  IsGrouping [] = Unit {0}
  IsGrouping (g ∷ gs) = (is_nonempty g.1 ≡ true) × Above g.0 gs × IsGrouping gs

  -- What the groups of a name hold.
  abbrev pub members : Bytes → List (Bytes × List A) → List A
  members n [] = []
  members n ((k, xs) ∷ gs) = (if bytes_eq k n then xs else []) ++ members n gs

  -- What is assigned to a name, in order.
  abbrev pub pick : Bytes → List (Bytes × A) → List A
  pick n [] = []
  pick n ((k, a) ∷ rest) = (if bytes_eq k n then a ∷ [] else []) ++ pick n rest

  members-Above : (k : Bytes) (gs : List (Bytes × List A)) → Above k gs → members k gs ≡ []
  members-Above k [] h = refl
  members-Above k ((j, xs) ∷ gs) h = elim (Bool-cases (bytes_eq j k)) [
    | inl e ↦
        let e' = (bytes_eq_iff j k).0 e in
        let bad : bytes_lt k k ≡ true = subst (λ x. bytes_lt k x ≡ true) e' h.0 in
        absurd (ground (arith, bytes_lt_irrefl k))
    | inr e ↦ rw (e, members-Above k gs h.1) refl
  ]

  Above-push_back :
      (j k : Bytes) (a : A) (gs : List (Bytes × List A))
      → bytes_lt j k ≡ true
      → Above j gs
      → Above j (push_back bytes_lt k a gs)
  unfolding push_back
  Above-push_back j k a [] h above = (h, tt)
  Above-push_back j k a ((i, xs) ∷ gs) h above = elim (Bool-cases (bytes_lt k i)) [
    | inl e ↦ rw (e, push_back) (h, above)
    | inr e ↦ elim (Bool-cases (bytes_lt i k)) [
      | inl e' ↦ rw (e, e', push_back) (above.0, Above-push_back j k a gs h above.1)
      | inr e' ↦ rw (e, e', push_back) above
    ]
  ]

  Above-weaken :
      (j k : Bytes) (gs : List (Bytes × List A)) → bytes_lt j k ≡ true → Above k gs → Above j gs
  Above-weaken j k [] h above = tt
  Above-weaken j k ((i, xs) ∷ gs) h above =
      (bytes_lt_trans j k i h above.0, Above-weaken j k gs h above.1)

  append_nonempty : (xs : List A) (a : A) → is_nonempty (xs ++ (a ∷ [])) ≡ true
  append_nonempty [] a = refl
  append_nonempty (x ∷ xs) a = refl

  push_back-IsGrouping :
      (k : Bytes) (a : A) (gs : List (Bytes × List A))
      → IsGrouping gs
      → IsGrouping (push_back bytes_lt k a gs)
  unfolding push_back
  push_back-IsGrouping k a [] g = (refl, tt, tt)
  push_back-IsGrouping k a ((i, xs) ∷ gs) g = elim (Bool-cases (bytes_lt k i)) [
    | inl e ↦ rw (e, push_back) (refl, (e, Above-weaken k i gs e g.1), g)
    | inr e ↦ elim (Bool-cases (bytes_lt i k)) [
      | inl e' ↦
          rw (e, e', push_back)
            (g.0, Above-push_back i k a gs e' g.1, push_back-IsGrouping k a gs g.2)
      | inr e' ↦ rw (e, e', push_back) (append_nonempty xs a, g.1, g.2)
    ]
  ]

  members-push_back :
      (n k : Bytes) (a : A) (gs : List (Bytes × List A))
      → IsGrouping gs
      → members n (push_back bytes_lt k a gs)
        ≡ members n gs ++ (if bytes_eq k n then a ∷ [] else [])
  unfolding push_back
  members-push_back n k a [] g = append-nil _
  members-push_back n k a ((i, xs) ∷ gs) g = elim (Bool-cases (bytes_lt k i)) [
    | inl e ↦
        rw (e, push_back)
          (elim (Bool-cases (bytes_eq k n)) [
            | inl s ↦
                let above =
                  subst (λ x. Above x ((i, xs) ∷ gs)) ((bytes_eq_iff k n).0 s)
                    (e, Above-weaken k i gs e g.1) in
                rw (members-Above n ((i, xs) ∷ gs) above, s) refl
            | inr s ↦ rw s (sym (append-nil _))
          ])
    | inr e ↦ elim (Bool-cases (bytes_lt i k)) [
      | inl e' ↦
          rw (e, e', push_back)
            (rw (members-push_back n k a gs g.2) (
              sym (
                append_assoc (if bytes_eq i n then xs else []) (members n gs)
                  (if bytes_eq k n then a ∷ [] else []))))
      | inr e' ↦
          let same = bytes_lt_total k i e e' in
          rw (e, e', push_back)
            (elim (Bool-cases (bytes_eq k n)) [
              | inl s ↦
                  let s' = subst (λ x. bytes_eq x n ≡ true) same s in
                  let above = subst (λ x. Above x gs) ((bytes_eq_iff i n).0 s') g.1 in
                  rw (s, s', members-Above n gs above) (simp append-nil)
              | inr s ↦
                  let s' = subst (λ x. bytes_eq x n ≡ false) same s in
                  rw (s, s') (sym (append-nil _))
            ])
    ]
  ]

module _ {A E W : Type 0} (assign : A → E → W → Bytes × E × W) where
  -- The names that the loop assigns, in order, with the environment and the world handed on.
  pub assigned : List A → E → W → List (Bytes × A)
  assigned [] env w = []
  assigned (a ∷ rest) env w = let n = assign a env w in (n.0, a) ∷ assigned rest n.1 n.2

  group_from-members :
      (input : List A) (gs : List (Bytes × List A)) (env : E) (w : W)
      → IsGrouping gs
      → let out = (group_from bytes_lt assign input gs env w).0 in
        IsGrouping out
        × ((n : Bytes) → members n out ≡ members n gs ++ pick n (assigned input env w))
  unfolding group_from assigned
  group_from-members [] gs env w g = (g, λ n. sym (append-nil _))
  group_from-members (a ∷ rest) gs env w g =
      let n = assign a env w in
      let (g', m) =
        group_from-members rest (push_back bytes_lt n.0 a gs) n.1 n.2
          (push_back-IsGrouping n.0 a gs g) in
      (
        g',
        λ k.
            m k
            ∙ (rw (members-push_back k n.0 a gs g) (
                append_assoc (members k gs) (if bytes_eq n.0 k then a ∷ [] else [])
                  (pick k (assigned rest n.1 n.2)))),
      )

  -- The groups that a checkpoint forms have distinct names in ascending order, none is empty, and
  -- the group of each name holds exactly what was assigned to that name, in the order of collection.
  pub group_from-groups :
      (input : List A) (env : E) (w : W) (n : Bytes)
      → let out = (group_from bytes_lt assign input [] env w).0 in
        IsGrouping out × (members n out ≡ pick n (assigned input env w))
  group_from-groups input env w n = let (g, m) = group_from-members input [] env w tt in (g, m n)
