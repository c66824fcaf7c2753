-- ===== src/Attribute/Defs.antt =====
-- Attribute, AttributeSchema and AttributedBase (src/osgGIS/Attribute.cpp). A field that has no value
-- yet is `none`, and so is a result that is computed from it.
use osggis.Base.{
  ℕ, Bool, true, false, ◌||◌, not, ◌==◌, Option, none, some, List, [], ◌∷◌, map, length,
  if◌then◌else◌, ◌>>=◌, Bytes, bytes_eq, bytes_lt,
}
use osggis.Text.Defs.{to_lower}

-- `int` and `double` with their conversions, operator<< and sscanf, and `tolower`.
pub record Numbers : Type 1 where
  pub I : Type 0
  pub D : Type 0
  pub int_of_bool : Bool → I
  pub is_zero_int : I → Bool
  pub is_zero_double : D → Bool
  pub int_of_double : D → I
  pub double_of_int : I → D
  pub print_int : I → Bytes
  pub print_double : D → Bytes
  pub scan_int : Bytes → Option I
  pub scan_double : Bytes → Option D
  pub lower : ℕ → ℕ

-- Attribute::Type
pub data AttributeType : Type 0 where
  type_unspecified : AttributeType
  type_string : AttributeType
  type_int : AttributeType
  type_double : AttributeType
  type_bool : AttributeType

-- The text of what asBool takes for true.
abbrev pub is_yes : Bytes → Bool
is_yes s =
    bytes_eq s (116 ∷ 114 ∷ 117 ∷ 101 ∷ [])
    || bytes_eq s (121 ∷ 101 ∷ 115 ∷ [])
    || bytes_eq s (111 ∷ 110 ∷ [])
    || bytes_eq s (116 ∷ [])
    || bytes_eq s (121 ∷ [])

module _ (c : Numbers) where
  open c use {
    I, D, int_of_bool, is_zero_int, is_zero_double, int_of_double, double_of_int, print_int,
    print_double, scan_int, scan_double, lower,
  }

  pub record Attribute : Type 0 where
    pub valid : Bool
    pub key : Bytes
    pub kind : Option AttributeType
    pub string_value : Bytes
    pub int_value : Option I
    pub double_value : Option D

  -- What the constructors and the overloads of setAttribute take.
  pub data Value : Type 0 where
    of_string : Bytes → Value
    of_int : I → Value
    of_double : D → Value
    of_bool : Bool → Value

  unfoldable pub invalid_attribute : Attribute
  invalid_attribute = record {
    valid = false;
    key = [];
    kind = none;
    string_value = [];
    int_value = none;
    double_value = none;
  }

  unfoldable pub new_attribute : Bytes → Value → Attribute
  unfolding invalid_attribute to_lower
  new_attribute key (of_string v) = record invalid_attribute {
    valid = true;
    key = to_lower lower key;
    kind = some type_string;
    string_value = v;
  }
  new_attribute key (of_int v) = record invalid_attribute {
    valid = true;
    key = to_lower lower key;
    kind = some type_int;
    int_value = some v;
  }
  new_attribute key (of_double v) = record invalid_attribute {
    valid = true;
    key = to_lower lower key;
    kind = some type_double;
    double_value = some v;
  }
  new_attribute key (of_bool v) = record invalid_attribute {
    valid = true;
    key = to_lower lower key;
    kind = some type_bool;
    int_value = some (int_of_bool v);
  }

  -- What is written for a value that is no string.
  abbrev pub generated : AttributeType → Attribute → Option Bytes
  generated type_int a = a.int_value >>= λ v. some (print_int v)
  generated type_double a = a.double_value >>= λ v. some (print_double v)
  generated _ a = some []

  -- asString: the string, and the attribute that keeps it.
  unfoldable pub as_string : Attribute → Option (Bytes × Attribute)
  as_string a = a.kind >>= λ type. elim type [
    | type_string ↦ some (a.string_value, a)
    | type ↦
        if length a.string_value == 0
        then (generated type a >>= λ s. some (s, record a { string_value = s }))
        else some (a.string_value, a)
  ]

  unfoldable pub as_int : Attribute → Option I
  as_int a = a.kind >>= λ type. elim type [
    | type_int ↦ a.int_value
    | type_double ↦ a.double_value >>= λ v. some (int_of_double v)
    | type_bool ↦ a.int_value
    | _ ↦ scan_int a.string_value
  ]

  unfoldable pub as_double : Attribute → Option D
  as_double a = a.kind >>= λ type. elim type [
    | type_double ↦ a.double_value
    | type_int ↦ a.int_value >>= λ v. some (double_of_int v)
    | type_bool ↦ a.int_value >>= λ v. some (double_of_int v)
    | _ ↦ scan_double a.string_value
  ]

  -- The lower-case copy of the string is not used.
  unfoldable pub as_bool : Attribute → Option Bool
  as_bool a = a.kind >>= λ type. elim type [
    | type_bool ↦ a.int_value >>= λ v. some (not (is_zero_int v))
    | type_int ↦ a.int_value >>= λ v. some (not (is_zero_int v))
    | type_double ↦ a.double_value >>= λ v. some (not (is_zero_double v))
    | _ ↦ some (is_yes a.string_value)
  ]

  -- A map by names, in their order.
  abbrev pub AttributeTable : Type 0
  AttributeTable = List (Bytes × Attribute)

  -- user_attrs.find( lkey )
  unfoldable pub find_attr : Bytes → AttributeTable → Option Attribute
  find_attr lkey [] = none
  find_attr lkey ((k, a) ∷ t) = if bytes_eq k lkey then some a else find_attr lkey t

  -- user_attrs[lkey] = a
  unfoldable pub put_attr : Bytes → Attribute → AttributeTable → AttributeTable
  put_attr lkey a [] = (lkey, a) ∷ []
  put_attr lkey a ((k, b) ∷ t) =
      let rest = put_attr lkey a t in
      if bytes_lt lkey k
      then (lkey, a) ∷ (k, b) ∷ t
      else (if bytes_lt k lkey then (k, b) ∷ rest else (k, a) ∷ t)

  abbrev pub or_invalid : Option Attribute → Attribute
  or_invalid none = invalid_attribute
  or_invalid (some a) = a

  unfoldable pub get_attribute : Bytes → AttributeTable → Attribute
  unfolding find_attr to_lower
  get_attribute key t = or_invalid (find_attr (to_lower lower key) t)

  unfoldable pub get_attributes : AttributeTable → List Attribute
  get_attributes t = map (λ x. x.1) t

  -- The names and types that getAttributeSchemas lists.
  unfoldable pub get_attribute_schemas : AttributeTable → List (Bytes × Option AttributeType)
  unfolding to_lower
  get_attribute_schemas t = map (λ x. (to_lower lower x.0, x.1.kind)) t

  -- setAttribute with a name and a value.
  unfoldable pub set_value : Bytes → Value → AttributeTable → AttributeTable
  unfolding put_attr new_attribute
  set_value key v t = let lkey = to_lower lower key in put_attr lkey (new_attribute lkey v) t

  -- setAttribute with an attribute.
  unfoldable pub set_attribute : Attribute → AttributeTable → AttributeTable
  unfolding put_attr to_lower
  set_attribute a t = put_attr (to_lower lower a.key) a t
