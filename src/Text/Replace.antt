-- ===== src/Text/Replace.antt =====
-- StringUtils::replaceIn (src/osgGIS/Utils.cpp).
use osggis.Base.{
  ℕ, zero, suc, ◌≤◌, ◌≡◌, refl, sym, ap, ◌∙◌, true, false, Option, none, some, List, [], ◌∷◌, ◌++◌,
  take, drop, length, length-append, All, Bool-cases, ◌==◌, ==_iff, ◌&&◌, Option-cases, some-inj,
  Bytes, inl, inr, arith,
}
use osggis.Text.Defs.{is_prefix, find_sub, replace_from, replace_in}

-- A first piece and further ones, each behind a separator.
pub joined : Bytes → Bytes → List Bytes → Bytes
joined sep p [] = p
joined sep p (q ∷ qs) = p ++ (sep ++ joined sep q qs)

abbrev pub Lacks : Bytes → Bytes → Type 0
Lacks sub s = find_sub sub s ≡ none

-- Pieces without the substring that make up one string with it and the other string in its place.
abbrev pub IsReplaced : Bytes → Bytes → Bytes → Bytes → Type 0
IsReplaced sub other s t =
    (p : Bytes) × (ps : List Bytes) × (s ≡ joined sub p ps)
    × (t ≡ joined other p ps)
    × All (Lacks sub) (p ∷ ps)

is_prefix_cons :
    (a b : ℕ) (sub s : Bytes)
    → is_prefix (a ∷ sub) (b ∷ s) ≡ true
    → (a ≡ b) × (is_prefix sub s ≡ true)
unfolding is_prefix
is_prefix_cons a b sub s h = elim (Bool-cases (a == b)) [
  | inl t ↦ ((==_iff a b).0 t, (let z : (true && is_prefix sub s) ≡ true = rw t at h in z))
  | inr t ↦ absurd (let z : false ≡ true = rw t at h in cc)
]

cons-prefix :
    (a b : ℕ) (sub s : Bytes) → a ≡ b → is_prefix sub s ≡ true → is_prefix (a ∷ sub) (b ∷ s) ≡ true
unfolding is_prefix
cons-prefix a b sub s e h = rw ((==_iff a b).1 e, h)

ap-cons : (a b : ℕ) (s t : Bytes) → a ≡ b → s ≡ t → ◌≡◌ {A = Bytes} (b ∷ s) (a ∷ t)
ap-cons a b s t e h = rw (e, h)

-- The prefix and what stands behind it.
prefix-drop : (sub s : Bytes) → is_prefix sub s ≡ true → s ≡ sub ++ drop (length sub) s
unfolding is_prefix
prefix-drop [] s h = refl
prefix-drop (a ∷ sub) [] h = absurd (cc)
prefix-drop (a ∷ sub) (b ∷ s) h =
    let (e, r) = is_prefix_cons a b sub s h in
    ap-cons a b s (sub ++ drop (length sub) s) e (prefix-drop sub s r)

prefix-take : (sub s : Bytes) (k : ℕ) → is_prefix sub (take k s) ≡ true → is_prefix sub s ≡ true
unfolding is_prefix
prefix-take [] s k h = refl
prefix-take (a ∷ sub) s zero h = absurd (cc)
prefix-take (a ∷ sub) [] (suc k) h = absurd (cc)
prefix-take (a ∷ sub) (b ∷ s) (suc k) h =
    let (e, r) = is_prefix_cons a b sub (take k s) h in
    cons-prefix a b sub s e (prefix-take sub s k r)

prefix_of_take :
    (sub s : Bytes) (k : ℕ) → is_prefix sub s ≡ false → is_prefix sub (take k s) ≡ false
prefix_of_take sub s k h = elim (Bool-cases (is_prefix sub (take k s))) [
  | inl t ↦ absurd (let z : true ≡ false = sym (prefix-take sub s k t) ∙ h in cc)
  | inr t ↦ t
]

-- What find returns: nothing, or a first place.
Lacks-cons :
    (sub s : Bytes) (c : ℕ) → is_prefix sub (c ∷ s) ≡ false → Lacks sub s → Lacks sub (c ∷ s)
unfolding find_sub
Lacks-cons sub s c h l = rw (h, l)

-- The substring stands at the place found, and not before it.
abbrev IsFound : Bytes → Bytes → ℕ → Type 0
IsFound sub s k = (s ≡ take k s ++ (sub ++ drop (length sub) (drop k s))) × Lacks sub (take k s)

find-IsFound :
    (a : ℕ) (sub s : Bytes) (k : ℕ) → find_sub (a ∷ sub) s ≡ some k → IsFound (a ∷ sub) s k
unfolding find_sub
find-IsFound a sub [] k h = absurd (cc)
find-IsFound a sub (c ∷ s) k h = elim (Bool-cases (is_prefix (a ∷ sub) (c ∷ s))) [
  | inl t ↦
      let z : ◌≡◌ {A = Option ℕ} (some 0) (some k) = rw t at h in
      rw (sym (some-inj 0 k z)) (prefix-drop (a ∷ sub) (c ∷ s) t, refl)
  | inr t ↦ elim (Option-cases (find_sub (a ∷ sub) s)) [
    | inl e ↦ absurd (let z : none ≡ some k = rw (t, e) at h in cc)
    | inr (j, e) ↦
        let z : some (suc j) ≡ some k = rw (t, e) at h in
        let (parts, none_before) = find-IsFound a sub s j e in
        rw (sym (some-inj (suc j) k z)) (
          ap (λ x. c ∷ x) parts,
          Lacks-cons (a ∷ sub) (take j s) c (prefix_of_take (a ∷ sub) (c ∷ s) (suc j) t)
              none_before,
        )
  ]
]

replace-none :
    (fuel : ℕ) (sub other s : Bytes)
    → find_sub sub s ≡ none
    → replace_from (suc fuel) sub other s ≡ s
unfolding replace_from
replace-none fuel sub other s h = rw (h, replace_from)

replace-some :
    (fuel : ℕ) (sub other s : Bytes) (b : ℕ)
    → find_sub sub s ≡ some b
    → replace_from (suc fuel) sub other s
      ≡ take b s ++ (other ++ replace_from fuel sub other (drop (length sub) (drop b s)))
unfolding replace_from
replace-some fuel sub other s b h = rw (h, replace_from)

-- A piece before further ones.
joined-cons :
    (a : ℕ) (sub other s t p s' : Bytes)
    → s ≡ p ++ ((a ∷ sub) ++ s')
    → Lacks (a ∷ sub) p
    → IsReplaced (a ∷ sub) other s' t
    → IsReplaced (a ∷ sub) other s (p ++ (other ++ t))
unfolding joined
joined-cons a sub other s t p s' e l (q, qs, before, after, none_in) =
    (p, q ∷ qs, rw (e, before), rw after, (l, none_in))

alone : (sub other s : Bytes) → Lacks sub s → IsReplaced sub other s s
unfolding joined
alone sub other s e = (s, [], refl, refl, (e, tt))

shorter : (a : ℕ) (sub s p s' : Bytes) → s ≡ p ++ ((a ∷ sub) ++ s') → suc (length s') ≤ length s
shorter a sub s p s' e =
    omega (arith, ap length e, length-append p ((a ∷ sub) ++ s'), length-append sub s')

replace_from-IsReplaced :
    (fuel a : ℕ) (sub other s : Bytes)
    → suc (length s) ≤ fuel
    → IsReplaced (a ∷ sub) other s (replace_from fuel (a ∷ sub) other s)
replace_from-IsReplaced zero a sub other s h = absurd (omega (arith, h))
replace_from-IsReplaced (suc fuel) a sub other s h = elim (Option-cases (find_sub (a ∷ sub) s)) [
  | inl e ↦ rw (replace-none fuel (a ∷ sub) other s e) (alone (a ∷ sub) other s e)
  | inr (b, e) ↦
      let (parts, l) = find-IsFound a sub s b e in
      let rest = drop (length (a ∷ sub)) (drop b s) in
      rw (replace-some fuel (a ∷ sub) other s b e) (
        joined-cons a sub other s (replace_from fuel (a ∷ sub) other rest) (take b s) rest parts l (
          replace_from-IsReplaced fuel a sub other rest
            (omega (arith, h, shorter a sub s (take b s) rest parts))))
]

-- replaceIn of a substring that is not empty ends: the string consists of pieces without the substring
-- that the substring separates, and the result has the other string between the same pieces.
pub replace_in-IsReplaced :
    (a : ℕ) (sub other s : Bytes) → IsReplaced (a ∷ sub) other s (replace_in s (a ∷ sub) other)
unfolding replace_in
replace_in-IsReplaced a sub other s =
    replace_from-IsReplaced (suc (length s)) a sub other s (omega arith)
