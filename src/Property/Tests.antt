-- ===== src/Property/Tests.antt =====
-- The theorems on properties (src/osgGIS/Property.cpp) at a concrete list.
use osggis.Base.{◌≡◌, refl, ℕ, false, some, [], ◌∷◌, Bytes, bytes_eq, if◌then◌else◌}
use osggis.Property.Defs.{Property, normalize, get, set}
use osggis.Property.Laws.{IsMap, get-set}

abbrev dash_name : Bytes
dash_name = b'a' ∷ b'-' ∷ b'b' ∷ []

abbrev us_name : Bytes
us_name = b'a' ∷ b'_' ∷ b'b' ∷ []

abbrev color_name : Bytes
color_name = b'c' ∷ []

abbrev width : Property ℕ
width = record { name = us_name; value = 2 }

abbrev color : Property ℕ
color = record { name = color_name; value = 5 }

two-IsMap : IsMap (width ∷ color ∷ [])
unfolding normalize bytes_eq
two-IsMap = (refl, (refl, tt), (refl, tt, tt))

width_normal : normalize width.name ≡ width.name
unfolding normalize
width_normal = refl

get-set_example : get (set (width ∷ color ∷ []) (record width { value = 3 })) dash_name ≡ (
    if bytes_eq width.name (normalize dash_name)
    then some (record width { value = 3 })
    else get (width ∷ color ∷ []) dash_name)
get-set_example =
    get-set (width ∷ color ∷ []) (record width { value = 3 }) dash_name two-IsMap width_normal

names_differ : bytes_eq (normalize dash_name) (normalize color_name) ≡ false
unfolding normalize bytes_eq
names_differ = refl
