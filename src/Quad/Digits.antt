-- ===== src/Quad/Digits.antt =====
-- Keys and cells (src/osgGISProjects/QuadKey.cpp): what the digits of a key say of its cell, and how
-- keys of neighbouring levels are related.
use osggis.Base.{
  ℕ, zero, suc, ◌+◌, ◌*◌, ◌-◌, ◌/◌, ◌%◌, ◌^◌, ◌<◌, ◌≡◌, refl, ap, ◌∙◌, sym, [], ◌∷◌, ◌++◌, length,
  take, arith, Bytes, true, ltb,
}
use native.Mathlib.Nat.{
  div-add-mod, mod_def, mod-one, mod-eq_of_lt, pow-suc, mod-lt, div-div-eq-div-mul,
}
use osggis.Geo.Point.{Plane}
use osggis.Quad.Key.{
  bit, digit, zero_char, cell_digits, cell_key, QuadMap, QuadKey, get_lod, create_sub_key,
  create_parent_key, new_key,
}

-- The cell that a string of digits names: its column and its row.
abbrev pub decode : Bytes → ℕ × ℕ
decode [] = (0, 0)
decode (q ∷ qs) =
    let (x, y) = decode qs in
    let w = 2 ^ length qs in (((q - zero_char) % 2) * w + x, ((q - zero_char) / 2) * w + y)

length-cell_digits : (x y lod : ℕ) → length (cell_digits x y lod) ≡ lod
unfolding cell_digits
length-cell_digits x y zero = refl
length-cell_digits x y (suc lod) = ap suc (length-cell_digits x y lod)

spread : (w b h r : ℕ) → w * (2 * h + b) + r ≡ w * 2 * h + (b * w + r)
spread w b h r = grind arith

remainder : (p q n m : ℕ) → p + q ≡ n → m ≡ n - p → q ≡ m
remainder p q n m h i = omega arith

-- The bit above the low bits.
low_bits : (n w : ℕ) → (n / w % 2) * w + n % w ≡ n % (w * 2)
low_bits n w =
    let d = div-add-mod n w in
    let e = div-add-mod (n / w) 2 in
    let f = mod_def n (w * 2) in
    let g = div-div-eq-div-mul n w 2 in
    let s = spread w (n / w % 2) (n / w / 2) (n % w) in
    let t = sym s ∙ ap (λ v. w * v + n % w) e ∙ d in
    let u = f ∙ ap (λ v. n - w * 2 * v) (sym g) in
    remainder (w * 2 * (n / w / 2)) (n / w % 2 * w + n % w) n (n % (w * 2)) t u

next_bit : (n i : ℕ) → bit n i * 2 ^ i + n % 2 ^ i ≡ n % 2 ^ suc i
next_bit n i = low_bits n (2 ^ i) ∙ ap (λ v. n % v) (sym (pow-suc 2 i))

pair_eq : {a b a' b' : ℕ} → a ≡ a' → b ≡ b' → ◌≡◌ {A = ℕ × ℕ} (a, b) (a', b')
pair_eq p q = λ i. (p i, q i)

two_pos : 0 < 2
two_pos = omega arith

digit_lem :
    (bx by : ℕ)
    → bx < 2
    → by < 2
    → ((digit bx by - zero_char) % 2 ≡ bx) × ((digit bx by - zero_char) / 2 ≡ by)
digit_lem bx by h i = ground arith

-- The digits of the key of a cell give back the low bits of its column and of its row.
pub decode-cell_digits : (x y lod : ℕ) → decode (cell_digits x y lod) ≡ (x % 2 ^ lod, y % 2 ^ lod)
unfolding cell_digits
decode-cell_digits x y zero = pair_eq (sym (mod-one x)) (sym (mod-one y))
decode-cell_digits x y (suc lod) =
    let (h, i) =
      digit_lem (bit x lod) (bit y lod) (mod-lt (x / 2 ^ lod) two_pos)
        (mod-lt (y / 2 ^ lod) two_pos) in
    let k = decode-cell_digits x y lod in
    let l = length-cell_digits x y lod in
    rw (cell_digits, h, i, l, k) (pair_eq (next_bit x lod) (next_bit y lod))

take_init : (qs : Bytes) (q : ℕ) → take (length qs) (qs ++ q ∷ []) ≡ qs
take_init [] q = refl
take_init (x ∷ qs) q = ap (λ r. x ∷ r) (take_init qs q)

length_snoc : (qs : Bytes) (q : ℕ) → length (qs ++ q ∷ []) ≡ suc (length qs)
length_snoc [] q = refl
length_snoc (x ∷ qs) q = ap suc (length_snoc qs q)

module _ (c : Plane) where
  create_parent_suc :
      (qs : Bytes) (n : ℕ) (m : QuadMap c)
      → length qs ≡ suc n
      → create_parent_key c (new_key c qs m) ≡ new_key c (take n qs) m
  unfolding create_parent_key
  create_parent_suc qs n m h =
      let p : ltb 0 (suc n) ≡ true = ground arith in
      let l : suc n - 1 ≡ n = omega arith in rw (create_parent_key, h, p, l) refl

  -- A sub key lies one level below its key, and its parent is the key again, but for a stored
  -- extent.
  pub create_parent_key-create_sub_key :
      (k : QuadKey c) (quadrant : ℕ)
      → (create_parent_key c (create_sub_key c quadrant k) ≡ new_key c k.qstr k.quad_map)
        × (get_lod c (create_sub_key c quadrant k) ≡ suc (get_lod c k))
  unfolding create_parent_key create_sub_key get_lod
  create_parent_key-create_sub_key k q =
      let l = length_snoc k.qstr (zero_char + q) in
      (
        create_parent_suc (k.qstr ++ (zero_char + q) ∷ []) (length k.qstr) k.quad_map l
            ∙ ap (λ qs. new_key c qs k.quad_map) (take_init k.qstr (zero_char + q)),
        l,
      )

  -- Within the grid of a level, cells with the same key are the same.
  pub cell_key-inj :
      (x y x' y' lod : ℕ) (m : QuadMap c)
      → x < 2 ^ lod
      → y < 2 ^ lod
      → x' < 2 ^ lod
      → y' < 2 ^ lod
      → (cell_key c x y lod m).qstr ≡ (cell_key c x' y' lod m).qstr
      → (x ≡ x') × (y ≡ y')
  unfolding cell_key
  cell_key-inj x y x' y' lod m h i h' i' e =
      let p = sym (decode-cell_digits x y lod) ∙ ap decode e ∙ decode-cell_digits x' y' lod in
      (
        sym (mod-eq_of_lt h) ∙ ap (λ v. v.0) p ∙ mod-eq_of_lt h',
        sym (mod-eq_of_lt i) ∙ ap (λ v. v.1) p ∙ mod-eq_of_lt i',
      )
