-- ===== src/Filters/Env.antt =====
-- FilterEnv (src/osgGIS/FilterEnv, src/osgGIS/FilterEnv.cpp): the reference systems and properties
-- that the filter pipeline reads and writes. The other fields (session, extents, terrain, script
-- engine, optimizer hints, resource cache, report) are only handed on from copy to copy, and are one
-- value of a type `Rest`.
use osggis.Base.{Option, Bytes}
use osggis.Property.Defs.{Property, Properties, set, get}

pub record FilterEnv (Srs Rest V : Type 0) : Type 0 where
  pub in_srs : Option Srs
  pub out_srs : Option Srs
  pub properties : Properties V
  pub rest : Rest

module _ {Srs Rest V : Type 0} where
  -- `clone` copies every field.
  unfoldable pub advance : FilterEnv Srs Rest V → FilterEnv Srs Rest V
  advance e = record e { in_srs = e.out_srs; out_srs = e.out_srs }

  unfoldable pub set_output_srs : Option Srs → FilterEnv Srs Rest V → FilterEnv Srs Rest V
  set_output_srs srs e = record e { out_srs = srs }

  unfoldable pub set_property : Property V → FilterEnv Srs Rest V → FilterEnv Srs Rest V
  unfolding set
  set_property prop e = record e { properties = set e.properties prop }

  unfoldable pub get_property : FilterEnv Srs Rest V → Bytes → Option (Property V)
  unfolding get
  get_property e name = get e.properties name
