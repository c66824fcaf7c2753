-- ===== src/Property/Defs.antt =====
-- Property and Properties (src/osgGIS/Property, src/osgGIS/Property.cpp). Names are strings of bytes.
-- A value is of any type `V`: the string that the constructors print it to, or the referenced object.
use osggis.Base.{
  ℕ, Bool, true, false, ◌==◌, if◌then◌else◌, Option, none, some, List, [], ◌∷◌, ◌++◌, map, Bytes,
  bytes_eq,
}

-- std::replace( '-', '_' )
abbrev pub normalize_char : ℕ → ℕ
normalize_char ch = if ch == b'-' then b'_' else ch

unfoldable pub normalize : Bytes → Bytes
normalize input = map normalize_char input

-- A valid property. `Property::invalid` is `none` where one may be returned.
pub record Property {ℓ} (V : Type ℓ) : Type ℓ where
  pub name : Bytes
  pub value : V

abbrev pub Properties {ℓ} : Type ℓ → Type ℓ
Properties V = List (Property V)

module _ {ℓ} {V : Type ℓ} where
  -- The constructors that take a name normalise it.
  unfoldable pub new_property : Bytes → V → Property V
  unfolding normalize
  new_property name value = record { name = normalize name; value = value }

  -- The search loop, for a name that is normal.
  unfoldable pub find : Bytes → Properties V → Option (Property V)
  find nkey [] = none
  find nkey (p ∷ ps) = if bytes_eq p.name nkey then some p else find nkey ps

  unfoldable pub exists : Properties V → Bytes → Bool
  unfolding find normalize
  exists ps key = elim (find (normalize key) ps) [ none ↦ false | some p ↦ true ]

  -- `getValue`, and the typed `get…Value`, which read the string of the property that they find.
  unfoldable pub get_value {κ} : {B : Type κ} → Properties V → Bytes → (V → B) → B → B
  unfolding find normalize
  get_value ps key read def = elim (find (normalize key) ps) [ none ↦ def | some p ↦ read p.value ]

  unfoldable pub get : Properties V → Bytes → Option (Property V)
  unfolding find normalize
  get ps key = find (normalize key) ps

  -- The first property of the name is erased.
  unfoldable pub erase_first : Bytes → Properties V → Properties V
  erase_first nkey [] = []
  erase_first nkey (p ∷ ps) = if bytes_eq p.name nkey then ps else p ∷ erase_first nkey ps

  unfoldable pub remove : Properties V → Bytes → Properties V
  unfolding erase_first normalize
  remove ps key = erase_first (normalize key) ps

  unfoldable pub set : Properties V → Property V → Properties V
  unfolding remove
  set ps prop = remove ps prop.name ++ (prop ∷ [])
