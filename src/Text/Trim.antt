-- ===== src/Text/Trim.antt =====
-- StringUtils::trim (src/osgGIS/Utils.cpp).
use osggis.Base.{
  ℕ, suc, ◌≡◌, refl, sym, ap, ◌∙◌, true, false, Option, none, some, [], ◌∷◌, ◌++◌, append_assoc,
  take, drop, take-append-drop, All, if◌then◌else◌, Bool-cases, Option-cases, some-inj, Bytes, inl,
  inr,
}
use osggis.Text.Defs.{is_space, find_last_not_space, find_first_not_space, trim}

abbrev pub AllSpace : Bytes → Type 0
AllSpace s = All (λ c. is_space c ≡ true) s

-- The first byte is no white space, if there is one.
abbrev pub StartsBare : Bytes → Type 0
StartsBare [] = Unit
StartsBare (c ∷ s) = is_space c ≡ false

-- Nor is the last one.
abbrev pub EndsBare : Bytes → Type 0
EndsBare [] = Unit
EndsBare (c ∷ []) = is_space c ≡ false
EndsBare (c ∷ d ∷ s) = EndsBare (d ∷ s)

find_last-none : (s : Bytes) → find_last_not_space s ≡ none → AllSpace s
unfolding find_last_not_space
find_last-none [] h = tt
find_last-none (c ∷ s) h = elim (Option-cases (find_last_not_space s)) [
  | inr (k, e) ↦ absurd (let z : some (suc k) ≡ none = rw e at h in cc)
  | inl e ↦
      let h' : ◌≡◌ {A = Option ℕ} (if is_space c then none else some 0) none = rw e at h in
      elim (Bool-cases (is_space c)) [
        | inl t ↦ (t, find_last-none s e)
        | inr t ↦ absurd (let z : ◌≡◌ {A = Option ℕ} (some 0) none = rw t at h' in cc)
      ]
]

-- What is kept up to the last byte that is no white space.
abbrev IsEnd : Bytes → ℕ → Type 0
IsEnd s k = EndsBare (take (suc k) s) × AllSpace (drop (suc k) s)

longer :
    (c : ℕ) (s : Bytes) (j : ℕ) → find_last_not_space s ≡ some j → IsEnd s j → IsEnd (c ∷ s) (suc j)
unfolding find_last_not_space
longer c [] j e h = absurd (cc)
longer c (d ∷ s) j e h = h

find_last-IsEnd : (s : Bytes) (k : ℕ) → find_last_not_space s ≡ some k → IsEnd s k
unfolding find_last_not_space
find_last-IsEnd [] k h = absurd (cc)
find_last-IsEnd (c ∷ s) k h = elim (Option-cases (find_last_not_space s)) [
  | inr (j, e) ↦
      let h' : some (suc j) ≡ some k = rw e at h in
      let same = some-inj (suc j) k h' in rw (sym same) (longer c s j e (find_last-IsEnd s j e))
  | inl e ↦
      let h' : ◌≡◌ {A = Option ℕ} (if is_space c then none else some 0) (some k) = rw e at h in
      elim (Bool-cases (is_space c)) [
        | inl t ↦ absurd (let z : none ≡ some k = rw t at h' in cc)
        | inr t ↦
            let z : ◌≡◌ {A = Option ℕ} (some 0) (some k) = rw t at h' in
            rw (sym (some-inj 0 k z)) (t, find_last-none s e)
      ]
]

-- Where the last byte is no white space, a first one is found.
abbrev IsStart : Bytes → ℕ → Type 0
IsStart s k = AllSpace (take k s) × StartsBare (drop k s) × EndsBare (drop k s)

first_behind :
    (c : ℕ) (s : Bytes)
    → EndsBare s
    → is_space c ≡ true
    → (k : ℕ) × (find_first_not_space s ≡ some k) × IsStart s k
    → (k : ℕ) × (find_first_not_space (c ∷ s) ≡ some k) × IsStart (c ∷ s) k
unfolding find_first_not_space
first_behind c s h t (k, e, (a, b, z)) = (suc k, rw (t, e), ((t, a), b, z))

find_first-IsStart :
    (c : ℕ) (s : Bytes)
    → EndsBare (c ∷ s)
    → (k : ℕ) × (find_first_not_space (c ∷ s) ≡ some k) × IsStart (c ∷ s) k
unfolding find_first_not_space
find_first-IsStart c [] h = (0, rw h, (tt, h, h))
find_first-IsStart c (d ∷ s) h =
    let rest = find_first-IsStart d s h in
    elim (Bool-cases (is_space c)) [
      | inl t ↦ first_behind c (d ∷ s) h t rest
      | inr t ↦ (0, rw t, (tt, t, h))
    ]

-- The second string is the first one without white space at its ends.
abbrev pub IsTrimmed : Bytes → Bytes → Type 0
IsTrimmed s t =
    (lead : Bytes) × (trail : Bytes) × (s ≡ lead ++ (t ++ trail))
    × AllSpace lead
    × AllSpace trail
    × StartsBare t
    × EndsBare t

no_last : find_last_not_space [] ≡ none
unfolding find_last_not_space
no_last = refl

-- A string in three parts.
parts :
    (k : ℕ) (kept trail s : Bytes) → kept ++ trail ≡ s → s ≡ take k kept ++ (drop k kept ++ trail)
parts k kept trail s e =
    sym e
    ∙ (ap (λ x. x ++ trail) (sym (take-append-drop k kept))
        ∙ append_assoc (take k kept) (drop k kept) trail)

trim-none : (s : Bytes) → find_last_not_space s ≡ none → trim s ≡ []
unfolding trim
trim-none s e = rw (e, trim)

trim-some :
    (s : Bytes) (pos k : ℕ)
    → find_last_not_space s ≡ some pos
    → find_first_not_space (take (suc pos) s) ≡ some k
    → trim s ≡ drop k (take (suc pos) s)
unfolding trim
trim-some s pos k e h = rw (e, trim, h)

-- trim drops only white space before and behind what it returns, which neither begins nor ends with
-- white space.
pub trim-IsTrimmed : (s : Bytes) → IsTrimmed s (trim s)
trim-IsTrimmed [] = rw (trim-none [] no_last) ([], [], refl, tt, tt, tt, tt)
trim-IsTrimmed (c ∷ s) = elim (Option-cases (find_last_not_space (c ∷ s))) [
  | inl e ↦ rw (trim-none (c ∷ s) e) ([], c ∷ s, refl, tt, find_last-none (c ∷ s) e, tt, tt)
  | inr (pos, e) ↦
      let (ends, trail) = find_last-IsEnd (c ∷ s) pos e in
      let (k, h, (lead, starts, ends')) = find_first-IsStart c (take pos s) ends in
      rw (trim-some (c ∷ s) pos k e h) (
        take k (c ∷ take pos s),
        drop pos s,
        parts k (c ∷ take pos s) (drop pos s) (c ∷ s) (ap (λ x. c ∷ x) (take-append-drop pos s)),
        lead,
        trail,
        starts,
        ends',
      )
]
