-- ===== src/Attribute/Tests.antt =====
-- The theorem on tables (src/osgGIS/Attribute.cpp) on numbers that are natural, and runs.
use osggis.Base.{
  ℕ, ◌≡◌, ◌+◌, refl, true, false, none, some, [], ◌∷◌, ◌==◌, leb, ◌&&◌, if◌then◌else◌, Bytes,
  bytes_eq,
}
use osggis.Text.Defs.{to_lower}
use osggis.Attribute.Defs.{
  Numbers, of_string, of_int, of_bool, AttributeTable, new_attribute, get_attribute, set_value,
  as_bool, as_int,
}
use osggis.Attribute.Table.{IsTable, get_attribute-set_value}

abbrev ascii_lower : ℕ → ℕ
ascii_lower b = if leb 65 b && leb b 90 then b + 32 else b

abbrev naturals : Numbers
naturals = record {
  I = ℕ;
  D = ℕ;
  int_of_bool = λ b. if b then 1 else 0;
  is_zero_int = λ n. n == 0;
  is_zero_double = λ n. n == 0;
  int_of_double = λ n. n;
  double_of_int = λ n. n;
  print_int = λ n. (n + 48) ∷ [];
  print_double = λ n. (n + 48) ∷ [];
  scan_int = λ s. none;
  scan_double = λ s. none;
  lower = ascii_lower;
}

-- One attribute, "b".
abbrev one_attr : AttributeTable naturals
one_attr = (98 ∷ [], new_attribute naturals (98 ∷ []) (of_int 7)) ∷ []

-- "A" is set.
get_attribute-set_value_example :
    IsTable naturals (set_value naturals (65 ∷ []) (of_bool true) one_attr)
    × ((name : Bytes)
        → get_attribute naturals name (set_value naturals (65 ∷ []) (of_bool true) one_attr) ≡ (
            if bytes_eq (to_lower ascii_lower (65 ∷ [])) (to_lower ascii_lower name)
            then new_attribute naturals (to_lower ascii_lower (65 ∷ [])) (of_bool true)
            else get_attribute naturals name one_attr))
get_attribute-set_value_example =
    get_attribute-set_value naturals (65 ∷ []) (of_bool true) one_attr (tt, tt)

-- "yes" is true, and "YES" is not.
yes_run :
    as_bool naturals (new_attribute naturals [] (of_string (121 ∷ 101 ∷ 115 ∷ []))) ≡ some true
unfolding as_bool new_attribute bytes_eq
yes_run = refl

upper_yes_run :
    as_bool naturals (new_attribute naturals [] (of_string (89 ∷ 69 ∷ 83 ∷ []))) ≡ some false
unfolding as_bool new_attribute bytes_eq
upper_yes_run = refl

int_run : as_int naturals (get_attribute naturals (66 ∷ []) one_attr) ≡ some 7
unfolding as_int get_attribute new_attribute bytes_eq
int_run = refl
