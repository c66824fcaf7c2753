-- ===== src/Geo/Extent.antt =====
-- GeoExtent (src/osgGIS/GeoExtent, src/osgGIS/GeoExtent.cpp). `none` is a call through a NULL
-- spatial reference.
use osggis.Base.{
  Bool, true, false, ◌&&◌, ◌||◌, not, Option, none, some, List, [], ◌∷◌, if◌then◌else◌, ◌>>=◌,
}
use osggis.Geo.Point.{Plane, GeoPoint, Point, invalid_point, new_point, is_valid_point, point_eq}

pub record GeoExtent (W Srs : Type 0) : Type 0 where
  pub ne : GeoPoint W Srs
  pub sw : GeoPoint W Srs
  pub se : GeoPoint W Srs
  pub nw : GeoPoint W Srs
  pub is_valid : Bool
  pub is_infinite : Bool

module _ (c : Plane) where
  open c use {
    W, Srs, zero, minus_one, half, two, epsilon, add, sub, mul, div, fabs, lt, le, transform,
  }

  abbrev pub Extent : Type 0
  Extent = GeoExtent W Srs

  -- GeoExtent( is_valid, is_infinite )
  abbrev pub flagged : Bool → Bool → Extent
  flagged valid infinite = record {
    ne = invalid_point c;
    sw = invalid_point c;
    se = invalid_point c;
    nw = invalid_point c;
    is_valid = valid;
    is_infinite = infinite;
  }

  abbrev pub invalid : Extent
  invalid = flagged false false

  abbrev pub empty : Extent
  empty = flagged false false

  abbrev pub infinite : Extent
  infinite = flagged true true

  -- GeoExtent()
  abbrev pub new_extent : Extent
  new_extent = flagged true false

  abbrev pub cornered : Extent → Extent
  cornered e = record e {
    se = new_point c e.ne.x e.sw.y e.sw.srs;
    nw = new_point c e.sw.x e.ne.y e.sw.srs;
  }

  abbrev pub set_corners : Extent → Extent
  set_corners e = if e.is_valid && not e.is_infinite then cornered e else e

  unfoldable pub recalc : Extent → Extent
  recalc e =
      if lt e.ne.x e.sw.x || lt e.ne.y e.sw.y
      then record (set_corners e) { is_valid = false }
      else set_corners e

  -- The copy constructor. What `recalc` has made is copied as it is (copy-recalc), and of any other
  -- extent nothing changes but `se` and `nw`, which no other operation reads, and the validity of
  -- corners in the wrong order. Calls by value are therefore seen without their copies.
  unfoldable pub copy : Extent → Extent
  unfolding recalc
  copy e = recalc e

  -- srs->transform( p )
  abbrev pub reproject : Option Srs → Point c → Option (Point c)
  reproject none p = none
  reproject (some s) p = some (transform s p)

  -- GeoExtent( sw, ne ), for the spatial reference of `sw`.
  abbrev pub join_corners : Option Srs → Point c → Point c → Extent
  join_corners none a b = invalid
  join_corners (some s) a b =
      let t = transform s b in
      if is_valid_point c t
      then recalc (record new_extent { sw = a; ne = t })
      else record invalid { sw = a; ne = t }

  unfoldable pub of_points : Point c → Point c → Extent
  unfolding recalc
  of_points a b =
      if is_valid_point c a && is_valid_point c b then join_corners a.srs a b else invalid

  -- GeoExtent( xmin, ymin, xmax, ymax, srs )
  unfoldable pub of_bounds : W → W → W → W → Option Srs → Extent
  unfolding recalc
  of_bounds xmin ymin xmax ymax srs =
      let a = new_point c xmin ymin srs in
      let b = new_point c xmax ymax srs in
      recalc
        (record invalid { sw = a; ne = b; is_valid = is_valid_point c a && is_valid_point c b })

  -- SpatialReference::transform( extent )
  unfoldable pub transform_extent : Srs → Extent → Extent
  unfolding of_points
  transform_extent s e = of_points (transform s e.sw) (transform s e.ne)

  unfoldable pub is_point : Extent → Bool
  unfolding point_eq
  is_point e =
      e.is_valid
      && not e.is_infinite
      && is_valid_point c e.sw
      && is_valid_point c e.ne
      && point_eq c e.sw e.ne

  abbrev pub get_x_min : Extent → W
  get_x_min e = if e.is_valid then e.sw.x else minus_one

  abbrev pub get_x_max : Extent → W
  get_x_max e = if e.is_valid then e.ne.x else minus_one

  abbrev pub get_y_min : Extent → W
  get_y_min e = if e.is_valid then e.sw.y else minus_one

  abbrev pub get_y_max : Extent → W
  get_y_max e = if e.is_valid then e.ne.y else minus_one

  abbrev pub get_width : Extent → W
  get_width e = sub (get_x_max e) (get_x_min e)

  abbrev pub get_height : Extent → W
  get_height e = sub (get_y_max e) (get_y_min e)

  abbrev pub get_srs : Extent → Option Srs
  get_srs e = if is_valid_point c e.sw then e.sw.srs else none

  unfoldable pub get_centroid : Extent → Point c
  get_centroid e =
      if e.is_valid && not e.is_infinite
      then new_point c (div (add e.sw.x e.ne.x) two) (div (add e.sw.y e.ne.y) two) (get_srs e)
      else invalid_point c

  abbrev pub is_empty : Extent → Bool
  is_empty e =
      not e.is_valid
      || not e.is_infinite && (not (is_valid_point c e.sw) || not (is_valid_point c e.ne))

  unfoldable pub get_area : Extent → W
  get_area e =
      if e.is_valid
      then (if e.is_infinite
          then minus_one
          else (if is_empty e then zero else mul (sub e.ne.x e.sw.x) (sub e.ne.y e.sw.y)))
      else minus_one

  unfoldable pub is_finite : Extent → Bool
  unfolding get_area
  is_finite e = lt zero (get_area e)

  abbrev pub apart : Extent → Extent → Bool
  apart e rhs =
      le (get_x_max e) (get_x_min rhs)
      || le (get_x_max rhs) (get_x_min e)
      || le (get_y_max e) (get_y_min rhs)
      || le (get_y_max rhs) (get_y_min e)

  -- The intersection with an extent of the same spatial reference.
  unfoldable pub intersection : Extent → Extent → Extent
  unfolding of_bounds
  intersection e rhs =
      if apart e rhs
      then empty
      else of_bounds (if lt (get_x_min rhs) (get_x_min e) then get_x_min e else get_x_min rhs)
          (if lt (get_y_min rhs) (get_y_min e) then get_y_min e else get_y_min rhs)
          (if lt (get_x_max e) (get_x_max rhs) then get_x_max e else get_x_max rhs)
          (if lt (get_y_max e) (get_y_max rhs) then get_y_max e else get_y_max rhs) (get_srs e)

  abbrev pub meet_in : Option Srs → Extent → Extent → Option Extent
  meet_in none e rhs = none
  meet_in (some s) e rhs = some (intersection e (transform_extent s rhs))

  unfoldable pub get_intersection : Extent → Extent → Option Extent
  get_intersection e rhs = meet_in (get_srs e) e rhs

  -- a <= b up to the tolerance, as `intersects` and as `contains` write it.
  abbrev pub near : W → W → W → W → Bool
  near a b d f = le a b || lt (fabs (sub d f)) epsilon

  -- intersects( point )
  unfoldable pub touches : Extent → Point c → Bool
  touches e p =
      is_valid_point c p
      && near e.sw.x p.x p.x e.sw.x
      && near p.x e.ne.x p.x e.ne.x
      && near e.sw.y p.y p.y e.sw.y
      && near p.y e.ne.y p.y e.ne.y

  unfoldable pub intersects_point : Extent → Point c → Option Bool
  unfolding touches
  intersects_point e input =
      if e.is_valid && is_valid_point c input && not (is_empty e)
      then (if e.is_infinite
          then some true
          else reproject e.sw.srs input >>= λ p. some (touches e p))
      else some false

  unfoldable pub overlaps : Extent → Point c → Point c → Bool
  overlaps e a b = not (lt e.ne.x a.x || lt b.x e.sw.x || lt e.ne.y a.y || lt b.y e.sw.y)

  -- intersects( extent )
  unfoldable pub intersects : Extent → Extent → Option Bool
  unfolding overlaps
  intersects e input =
      if not e.is_valid || not input.is_valid || is_empty e || is_empty input
      then some false
      else (if e.is_infinite || input.is_infinite
          then some true
          else reproject (get_srs e) input.sw >>= λ a.
              reproject (get_srs e) input.ne >>= λ b. some (overlaps e a b))

  unfoldable pub holds : Extent → Point c → Bool
  holds e p =
      is_valid_point c p
      && near e.sw.x p.x e.sw.x p.x
      && near p.x e.ne.x p.x e.ne.x
      && near e.sw.y p.y e.sw.y p.y
      && near p.y e.ne.y p.y e.ne.y

  -- contains( point )
  unfoldable pub contains : Extent → Point c → Option Bool
  unfolding holds
  contains e input =
      if e.is_infinite && is_valid_point c input
      then some true
      else (if not e.is_valid || not (is_valid_point c input)
          then some false
          else reproject (get_srs e) input >>= λ p. some (holds e p))

  -- contains( extent ): the second corner is looked at if the first is inside.
  unfoldable pub contains_extent : Extent → Extent → Option Bool
  unfolding contains
  contains_extent e input =
      if input.is_valid
      then (contains e input.sw >>= λ b. (if b then contains e input.ne else some false))
      else some false

  unfoldable pub contains_all : Extent → List (Point c) → Option Bool
  unfolding contains
  contains_all e [] = some true
  contains_all e (p ∷ ps) =
      let rest = contains_all e ps in contains e p >>= λ b. (if b then rest else some false)

  unfoldable pub expand : W → W → Extent → Extent
  expand x y e = record e {
    sw = record e.sw { x = sub e.sw.x (mul half x); y = sub e.sw.y (mul half y) };
    ne = record e.ne { x = add e.ne.x (mul half x); y = add e.ne.y (mul half y) };
  }

  abbrev pub lesser : W → W → W
  lesser a b = if lt a b then a else b

  abbrev pub greater : W → W → W
  greater a b = if lt b a then a else b

  abbrev pub moved : Extent → Point c → Extent
  moved e p = record e {
    sw = record e.sw { x = lesser p.x e.sw.x; y = lesser p.y e.sw.y };
    ne = record e.ne { x = greater p.x e.ne.x; y = greater p.y e.ne.y };
  }

  -- The corners moved to take in a point of the extent's spatial reference, if it could be transformed.
  unfoldable pub stretch : Extent → Point c → Extent
  stretch e p = if is_valid_point c p then moved e p else e

  -- expandToInclude( point )
  unfoldable pub expand_to_include : Extent → Point c → Option Extent
  unfolding recalc stretch
  expand_to_include e input =
      if not e.is_valid || not (is_valid_point c input)
      then some e
      else (if e.is_infinite
          then some (recalc e)
          else (if is_empty e
              then some (recalc (record e { ne = input; sw = input }))
              else reproject (get_srs e) input >>= λ p. some (recalc (stretch e p))))

  -- expandToInclude( extent )
  unfoldable pub expand_to_include_extent : Extent → Extent → Option Extent
  unfolding expand_to_include
  expand_to_include_extent e input =
      if input.is_valid && not (is_empty input) && not e.is_infinite
      then (if input.is_infinite
          then some (record e { is_infinite = true })
          else expand_to_include e input.sw >>= λ e'. expand_to_include e' input.ne)
      else some e

  -- expandToInclude( points )
  unfoldable pub expand_to_include_all : Extent → List (Point c) → Option Extent
  unfolding expand_to_include
  expand_to_include_all e [] = some e
  expand_to_include_all e (p ∷ ps) = expand_to_include e p >>= λ e'. expand_to_include_all e' ps

  -- intersectsExtent( points )
  unfoldable pub intersects_extent : Extent → List (Point c) → Option Bool
  unfolding expand_to_include_all intersects
  intersects_extent e input = expand_to_include_all new_extent input >>= λ i. intersects e i
