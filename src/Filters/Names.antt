-- ===== src/Filters/Names.antt =====
-- The filters of a graph by name (src/osgGIS/FilterGraph.cpp, insertFilter and getFilter).
use mathlib.Core.Path.{subst}
use osggis.Base.{
  ◌≡◌, refl, ap, sym, ◌∙◌, Option, some, none, [], ◌∷◌, ◌++◌, take, drop, take-append-drop, Bytes,
  bytes_eq, bytes_eq_iff, Bool-cases, inl, inr, if◌then◌else◌, arith,
}
use osggis.Filters.Chain.{Context}
use osggis.Filters.Graph.{Prototype, FilterList, Index, insert_filter, get_filter, clamp_index}

abbrev or_else {ℓ} : {A : Type ℓ} → Option A → Option A → Option A
or_else none b = b
or_else (some a) b = some a

module _ (c : Context) where
  get_filter-append :
      (n : Bytes) (xs ys : FilterList c)
      → get_filter c n (xs ++ ys) ≡ or_else (get_filter c n xs) (get_filter c n ys)
  unfolding get_filter
  get_filter-append n [] ys = refl
  get_filter-append n (x ∷ xs) ys = elim (Bool-cases (bytes_eq x.name n)) [
    | inl e ↦ rw (e, get_filter) refl
    | inr e ↦ rw (e, get_filter) (get_filter-append n xs ys)
  ]

  get_filter-insert_at :
      (n : Bytes) (xs ys : FilterList c) (f : Prototype c)
      → get_filter c f.name (xs ++ ys) ≡ none
      → get_filter c n (xs ++ f ∷ ys)
        ≡ (if bytes_eq f.name n then some f else get_filter c n (xs ++ ys))
  unfolding get_filter
  get_filter-insert_at n xs ys f h =
      let p = get_filter-append n xs (f ∷ ys) in
      let q = get_filter-append n xs ys in
      let r = get_filter-append f.name xs ys in
      elim (Bool-cases (bytes_eq f.name n)) [
        | inl e ↦
            let same = (bytes_eq_iff f.name n).0 e in
            let gone : or_else (get_filter c n xs) (get_filter c n ys) ≡ none =
              sym q ∙ subst (λ k. get_filter c k (xs ++ ys) ≡ none) same h in
            ground (arith, p, gone)
        | inr e ↦ ground (arith, p, q)
      ]

  -- Wherever a filter with a new name is inserted, its name finds it, and every other name finds the
  -- filter that it found before.
  pub get_filter-insert_filter :
      (filters : FilterList c) (f : Prototype c) (index : Index) (n : Bytes)
      → get_filter c f.name filters ≡ none
      → get_filter c n (insert_filter c filters f index)
        ≡ (if bytes_eq f.name n then some f else get_filter c n filters)
  unfolding insert_filter
  get_filter-insert_filter filters f index n h =
      let i = clamp_index c filters index in
      let whole = take-append-drop i filters in
      get_filter-insert_at n (take i filters) (drop i filters) f
        (ap (get_filter c f.name) whole ∙ h)
      ∙ ap (λ fs. if bytes_eq f.name n then some f else get_filter c n fs) whole
