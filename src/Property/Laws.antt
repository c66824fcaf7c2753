-- ===== src/Property/Laws.antt =====
-- Properties (src/osgGIS/Property.cpp) seen as a map by name.
use mathlib.Core.Path.{subst}
use osggis.Base.{
  ◌≡◌, refl, false, if◌then◌else◌, none, some, [], ◌∷◌, ◌++◌, Bytes, bytes_eq, bytes_eq_iff,
  Option-cases, arith, All, All-append, Bool-cases, inl, inr,
}
use osggis.Property.Defs.{
  Property, Properties, normalize, find, exists, get, erase_first, remove, set,
}

module _ {ℓ} {V : Type ℓ} where
  -- No property has the name.
  abbrev pub Absent : Bytes → Properties V → Type 0
  Absent n ps = All (λ p. bytes_eq p.name n ≡ false) ps

  -- The names are distinct and normal.
  abbrev pub IsMap : Properties V → Type 0
  IsMap [] = Unit {0}
  IsMap (p ∷ ps) = (normalize p.name ≡ p.name) × Absent p.name ps × IsMap ps

  find-Absent : (n : Bytes) (ps : Properties V) → Absent n ps → find n ps ≡ none
  unfolding find
  find-Absent n [] h = refl
  find-Absent n (p ∷ ps) h = rw h.0 (find-Absent n ps h.1)

  find-append :
      (n : Bytes) (ps : Properties V) (q : Property V)
      → find n (ps ++ (q ∷ []))
        ≡ (elim (find n ps) [ none ↦ if bytes_eq q.name n then some q else none | some p ↦ some p ])
  unfolding find
  find-append n [] q = ground arith
  find-append n (p ∷ ps) q = elim (Bool-cases (bytes_eq p.name n)) [
    | inl h ↦ rw h refl
    | inr h ↦ rw h (find-append n ps q)
  ]

  find-erase_first_ne :
      (n k : Bytes) (ps : Properties V)
      → bytes_eq k n ≡ false
      → find n (erase_first k ps) ≡ find n ps
  unfolding find erase_first
  find-erase_first_ne n k [] h = refl
  find-erase_first_ne n k (p ∷ ps) h = ground (
    arith,
    bytes_eq_iff p.name k,
    bytes_eq_iff p.name n,
    bytes_eq_iff k n,
    find-erase_first_ne n k ps h,
  )

  Absent-erase_first : (n k : Bytes) (ps : Properties V) → Absent n ps → Absent n (erase_first k ps)
  unfolding erase_first
  Absent-erase_first n k [] h = tt
  Absent-erase_first n k (p ∷ ps) h = elim (Bool-cases (bytes_eq p.name k)) [
    | inl e ↦ rw e h.1
    | inr e ↦ rw e (h.0, Absent-erase_first n k ps h.1)
  ]

  erase_first-Absent : (k : Bytes) (ps : Properties V) → IsMap ps → Absent k (erase_first k ps)
  unfolding erase_first
  erase_first-Absent k [] m = tt
  erase_first-Absent k (p ∷ ps) m = elim (Bool-cases (bytes_eq p.name k)) [
    | inl e ↦ rw (e, ← (bytes_eq_iff p.name k).0 e) m.1
    | inr e ↦ rw e (e, erase_first-Absent k ps m.2)
  ]

  IsMap-erase_first : (k : Bytes) (ps : Properties V) → IsMap ps → IsMap (erase_first k ps)
  unfolding erase_first
  IsMap-erase_first k [] m = tt
  IsMap-erase_first k (p ∷ ps) m = elim (Bool-cases (bytes_eq p.name k)) [
    | inl e ↦ rw e m.2
    | inr e ↦ rw e (m.0, Absent-erase_first p.name k ps m.1, IsMap-erase_first k ps m.2)
  ]

  IsMap-append :
      (ps : Properties V) (q : Property V)
      → IsMap ps
      → Absent q.name ps
      → normalize q.name ≡ q.name
      → IsMap (ps ++ (q ∷ []))
  IsMap-append [] q m a n = (n, tt, tt)
  IsMap-append (p ∷ ps) q m a n =
      let flipped : bytes_eq q.name p.name ≡ false =
        ground (arith, bytes_eq_iff q.name p.name, bytes_eq_iff p.name q.name, a.0) in
      (
        m.0,
        All-append (λ r. bytes_eq r.name p.name ≡ false) ps (q ∷ []) m.1 (flipped, tt),
        IsMap-append ps q m.2 a.1 n,
      )

  -- `set` keeps the names distinct and normal, if the property that is set has a normal name, as
  -- those of the constructors have.
  pub set-IsMap :
      (ps : Properties V) (prop : Property V)
      → IsMap ps
      → normalize prop.name ≡ prop.name
      → IsMap (set ps prop)
  unfolding set
  set-IsMap ps prop m n = rw n (
      IsMap-append (erase_first prop.name ps) prop (IsMap-erase_first prop.name ps m)
        (erase_first-Absent prop.name ps m) n)

  -- If the names are distinct and normal, and so is the name of a property, then after `set` of the
  -- property its name, in any spelling, yields it, and every other name what it did before.
  pub get-set :
      (ps : Properties V) (prop : Property V) (key : Bytes)
      → IsMap ps
      → normalize prop.name ≡ prop.name
      → get (set ps prop) key
        ≡ (if bytes_eq prop.name (normalize key) then some prop else get ps key)
  unfolding get set
  get-set ps prop key m n =
      rw (n, find-append (normalize key) (erase_first prop.name ps) prop)
        (elim (Bool-cases (bytes_eq prop.name (normalize key))) [
          | inl e ↦
              let gone : find (normalize key) (erase_first prop.name ps) ≡ none =
                subst (λ k. find k (erase_first prop.name ps) ≡ none)
                  ((bytes_eq_iff prop.name (normalize key)).0 e)
                  (find-Absent prop.name (erase_first prop.name ps)
                    (erase_first-Absent prop.name ps m)) in
              rw (gone, e) refl
          | inr e ↦
              rw (find-erase_first_ne (normalize key) prop.name ps e)
                (elim (Option-cases (find (normalize key) ps)) [
                  | inl o ↦ rw (o, e) refl
                  | inr (p, o) ↦ rw (o, e) refl
                ])
        ])

  -- If the names are distinct and normal, then after `remove` no property of the name exists, in
  -- any spelling, and every other name yields what it did before.
  pub exists-remove :
      (ps : Properties V) (key other : Bytes)
      → IsMap ps
      → bytes_eq (normalize key) (normalize other) ≡ false
      → (exists (remove ps key) key ≡ false) × (get (remove ps key) other ≡ get ps other)
  unfolding exists remove get
  exists-remove ps key other m e =
      let n = normalize key in
      (
        rw (find-Absent n (erase_first n ps) (erase_first-Absent n ps m), exists) refl,
        find-erase_first_ne (normalize other) n ps e,
      )
