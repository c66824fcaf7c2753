-- ===== src/Attribute/Table.antt =====
-- The table of attributes (AttributedBase of src/osgGIS/Attribute.cpp).
use osggis.Base.{
  ◌≡◌, refl, sym, ap, ◌∙◌, Bool, true, false, Option, some, [], ◌∷◌, if◌then◌else◌, Bool-cases, inl,
  inr, Bytes, bytes_eq, bytes_eq_iff, bytes_lt, bytes_lt_irrefl, bytes_lt_total,
}
use osggis.Text.Defs.{to_lower}
use osggis.Attribute.Defs.{
  Numbers, Attribute, Value, AttributeTable, new_attribute, find_attr, put_attr, get_attribute,
  set_value, or_invalid,
}

module _ (c : Numbers) where
  open c use {lower}

  -- A name that stands before those of a table.
  abbrev Before : Bytes → AttributeTable c → Type 0
  Before k [] = Unit {0}
  Before k ((j, b) ∷ t) = bytes_lt k j ≡ true

  -- The names of a table ascend strictly.
  abbrev pub IsTable : AttributeTable c → Type 0
  IsTable [] = Unit {0}
  IsTable ((k, a) ∷ t) = Before k t × IsTable t

  Before-put_attr :
      (i k : Bytes) (a : Attribute c) (t : AttributeTable c)
      → bytes_lt i k ≡ true
      → Before i t
      → Before i (put_attr c k a t)
  unfolding put_attr
  Before-put_attr i k a [] h b = h
  Before-put_attr i k a ((j, x) ∷ t) h b = elim (Bool-cases (bytes_lt k j)) [
    | inl e ↦ rw (e, put_attr) h
    | inr e ↦ elim (Bool-cases (bytes_lt j k)) [
      | inl e' ↦ rw (e, e', put_attr) b
      | inr e' ↦ rw (e, e', put_attr) b
    ]
  ]

  put_attr-IsTable :
      (k : Bytes) (a : Attribute c) (t : AttributeTable c) → IsTable t → IsTable (put_attr c k a t)
  unfolding put_attr
  put_attr-IsTable k a [] h = (tt, tt)
  put_attr-IsTable k a ((j, x) ∷ t) h = elim (Bool-cases (bytes_lt k j)) [
    | inl e ↦ rw (e, put_attr) (e, h)
    | inr e ↦ elim (Bool-cases (bytes_lt j k)) [
      | inl e' ↦ rw (e, e', put_attr) (Before-put_attr j k a t e' h.0, put_attr-IsTable k a t h.1)
      | inr e' ↦ rw (e, e', put_attr) h
    ]
  ]

  -- Two names are not both equal to a third, if one stands before the other.
  swapped :
      (j k n : Bytes) (x a f : Option (Attribute c))
      → bytes_lt j k ≡ true
      → (if bytes_eq j n then x else (if bytes_eq k n then a else f))
        ≡ (if bytes_eq k n then a else (if bytes_eq j n then x else f))
  swapped j k n x a f h = elim (Bool-cases (bytes_eq j n)) [
    | inr e ↦ rw e refl
    | inl e ↦ elim (Bool-cases (bytes_eq k n)) [
      | inr e' ↦ rw (e, e') refl
      | inl e' ↦
          let same : j ≡ k = (bytes_eq_iff j n).0 e ∙ sym ((bytes_eq_iff k n).0 e') in
          absurd
            (let z : true ≡ false = sym h ∙ (ap (λ y. bytes_lt y k) same ∙ bytes_lt_irrefl k) in cc)
    ]
  ]

  covered :
      (b : Bool) (x y z : Option (Attribute c))
      → (if b then x else z) ≡ (if b then x else (if b then y else z))
  covered true x y z = refl
  covered false x y z = refl

  or_invalid-if :
      (b : Bool) (a : Attribute c) (o : Option (Attribute c))
      → or_invalid c (if b then some a else o) ≡ (if b then a else or_invalid c o)
  or_invalid-if true a o = refl
  or_invalid-if false a o = refl

  find_attr-cons :
      (n k : Bytes) (a : Attribute c) (t : AttributeTable c)
      → find_attr c n ((k, a) ∷ t) ≡ (if bytes_eq k n then some a else find_attr c n t)
  unfolding find_attr
  find_attr-cons n k a t = refl

  find_attr-put_attr :
      (n k : Bytes) (a : Attribute c) (t : AttributeTable c)
      → find_attr c n (put_attr c k a t) ≡ (if bytes_eq k n then some a else find_attr c n t)
  unfolding put_attr find_attr
  find_attr-put_attr n k a [] = find_attr-cons n k a []
  find_attr-put_attr n k a ((j, x) ∷ t) = elim (Bool-cases (bytes_lt k j)) [
    | inl e ↦ rw (e, put_attr) (find_attr-cons n k a ((j, x) ∷ t))
    | inr e ↦ elim (Bool-cases (bytes_lt j k)) [
      | inl e' ↦
          rw (e, e', put_attr, find_attr-put_attr n k a t)
            (swapped j k n (some x) (some a) (find_attr c n t) e')
      | inr e' ↦
          let same = bytes_lt_total j k e' e in
          rw (e, e', put_attr, same) (covered (bytes_eq k n) (some a) (some x) (find_attr c n t))
    ]
  ]

  -- After setAttribute with a name and a value of any type, getAttribute of the name, in any spelling,
  -- yields the attribute made from the value, and every other name what it did before. The names of the
  -- table still ascend.
  pub get_attribute-set_value :
      (key : Bytes) (v : Value c) (t : AttributeTable c)
      → IsTable t
      → IsTable (set_value c key v t)
        × ((name : Bytes)
            → get_attribute c name (set_value c key v t) ≡ (
                if bytes_eq (to_lower lower key) (to_lower lower name)
                then new_attribute c (to_lower lower key) v
                else get_attribute c name t))
  unfolding set_value get_attribute
  get_attribute-set_value key v t h =
      let lkey = to_lower lower key in
      (
        put_attr-IsTable lkey (new_attribute c lkey v) t h,
        λ name.
            ap (or_invalid c)
              (find_attr-put_attr (to_lower lower name) lkey (new_attribute c lkey v) t)
            ∙ or_invalid-if (bytes_eq lkey (to_lower lower name)) (new_attribute c lkey v)
                (find_attr c (to_lower lower name) t),
      )
