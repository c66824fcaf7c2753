-- ===== src/Combine/Defs.antt =====
-- CombineLinesFilter::process (src/osgGIS/CombineLinesFilter.cpp). A pointer to a segment is the
-- segment with its id; the flags `active`, which change, stand beside them by id. num_active_segs is
-- left out, since only the log reads it.
use osggis.Base.{
  ℕ, zero, suc, ◌+◌, ◌*◌, ◌==◌, Bool, true, false, not, ◌&&◌, Option, none, some, List, [], ◌∷◌,
  ◌++◌, length, if◌then◌else◌, ◌>>=◌, map,
}
use mathlib.Core.List.{reverse}
use osggis.Geo.Point.{Plane, Point, point_eq}
use osggis.Shapes.Shape.{Part, GeoShape, type_line, new_shape, add_part}
use osggis.Shapes.Polygon.{Vectors, last_of, init_of}

-- active = false
abbrev pub kill : ℕ → (ℕ → Bool) → ℕ → Bool
kill id active k = if k == id then false else active k

module _ (c : Plane) where
  pub record Segment : Type 0 where
    pub id : ℕ
    pub points : Part c

  -- By the keys.
  abbrev pub EndpointMap : Type 0
  EndpointMap = List (Point c × Segment)

  -- The list of segments, cut at the iterator, with the flags, the map and the next id.
  pub record Combining : Type 0 where
    pub before : List Segment
    pub from : List Segment
    pub active : ℕ → Bool
    pub ep_map : EndpointMap
    pub seg_id : ℕ

  -- Keys that std::map takes for one, by `less`, osg::Vec3d::operator <.
  module _ (less : Point c → Point c → Bool) where
    abbrev pub same_key : Point c → Point c → Bool
    same_key p q = not (less p q) && not (less q p)

    unfoldable pub find_end : Point c → EndpointMap → Option Segment
    find_end p [] = none
    find_end p ((k, s) ∷ m) = if same_key k p then some s else find_end p m

    -- ep_map[p] = s
    unfoldable pub put_end : Point c → Segment → EndpointMap → EndpointMap
    put_end p s [] = (p, s) ∷ []
    put_end p s ((k, t) ∷ m) = if same_key k p then (k, s) ∷ m else (k, t) ∷ put_end p s m

    -- ep_map.erase( ep ), for the entry found.
    unfoldable pub erase_end : Point c → EndpointMap → EndpointMap
    erase_end p [] = []
    erase_end p ((k, t) ∷ m) = if same_key k p then m else (k, t) ∷ erase_end p m

  -- The part that joins a segment at its first point to a part with that end.
  abbrev pub join_front : Point c → Part c → Part c → Option (Part c)
  join_front p ps [] = none
  join_front p ps (q ∷ qs) =
      some (if point_eq c p q then reverse ps ++ (q ∷ qs) else (q ∷ qs) ++ ps)

  -- Likewise at its last point.
  abbrev pub join_back : Point c → Part c → Part c → Option (Part c)
  join_back p ps [] = none
  join_back p ps (q ∷ qs) = some (
      if point_eq c (last_of c p ps) q
      then init_of c p ps ++ (q ∷ qs)
      else (q ∷ qs) ++ reverse (init_of c p ps))

  module _ (less : Point c → Point c → Bool) (v : Vectors c) where
    -- The segment at an end, if it is active and another one.
    unfoldable pub found : Combining → Segment → Point c → Option Segment
    unfolding find_end
    found st seg p = find_end less p st.ep_map >>= λ e.
        if st.active e.id && not (seg.id == e.id) then some e else none

    unfoldable pub found_back : Combining → Segment → Point c → Part c → Option Segment
    unfolding found
    found_back st seg p [] = none
    found_back st seg p (q ∷ qs) = found st seg (last_of c p (q ∷ qs))

    -- segments.erase( i ) and `i--`, which faults at the beginning of the list.
    abbrev pub has_before : List Segment → Option (List Segment)
    has_before [] = none
    has_before (s ∷ ss) = some (s ∷ ss)

    -- The index of a new segment, by its first and last point.
    abbrev pub put_ends : Segment → Part c → EndpointMap → Option EndpointMap
    put_ends s [] m = none
    put_ends s (p ∷ ps) m = some (put_end less (last_of c p ps) s (put_end less p s m))

    -- From the new part on, where `seg` has been joined to the segment `e`, found at `key`.
    unfoldable pub combined :
        Combining → Segment → Segment → Point c → List Segment → Part c → Option Combining
    unfolding put_end erase_end
    combined st seg e key rest new_part =
        let new_seg : Segment = record { id = st.seg_id; points = new_part } in
        has_before st.before >>= λ before.
        put_ends new_seg new_part (erase_end less key st.ep_map) >>= λ ep_map. some (record {
          before = before;
          from = rest ++ (new_seg ∷ []);
          active = kill e.id (kill seg.id st.active);
          ep_map = ep_map;
          seg_id = suc st.seg_id;
        })

    -- No end is found: the segment stays.
    unfoldable pub logged : Combining → Segment → Point c → Part c → List Segment → Combining
    unfolding put_end
    logged st seg p ps rest =
        let m = put_end less p seg st.ep_map in
        let b = last_of c p ps in
        record st {
          before = st.before ++ (seg ∷ []);
          from = rest;
          ep_map = if v.differ p b then put_end less b seg m else m;
        }

    abbrev pub dropped : Combining → List Segment → Option Combining
    dropped st rest = has_before st.before >>= λ before. some (record st { from = rest })

    abbrev pub visit_ends : Combining → Segment → List Segment → Part c → Option Combining
    visit_ends st seg rest [] = none
    visit_ends st seg rest (p ∷ ps) = elim (found st seg p) [
      | some e ↦ join_front p ps e.points >>= combined st seg e p rest
      | none ↦ elim (found_back st seg p ps) [
        | some e ↦ join_back p ps e.points >>= combined st seg e (last_of c p ps) rest
        | none ↦ some (logged st seg p ps rest)
      ]
    ]

    -- The body of the loop.
    unfoldable pub visit_segment : Combining → Segment → List Segment → Option Combining
    unfolding found_back combined logged
    visit_segment st seg rest =
        if st.active seg.id then visit_ends st seg rest seg.points else dropped st rest

    -- With fuel.
    unfoldable pub combine_from : ℕ → Combining → Option Combining
    unfolding visit_segment
    combine_from zero st = none
    combine_from (suc fuel) st = elim st.from [
      | [] ↦ some st
      | seg ∷ rest ↦ visit_segment st seg rest >>= combine_from fuel
    ]

  -- The segments of the parts that have points, from an id on.
  unfoldable pub new_segments : ℕ → List (Part c) → List Segment
  new_segments id [] = []
  new_segments id ([] ∷ parts) = new_segments id parts
  new_segments id ((p ∷ ps) ∷ parts) =
      record { id = id; points = p ∷ ps } ∷ new_segments (suc id) parts

  -- The parts of the segments that are active.
  unfoldable pub active_parts : (ℕ → Bool) → List Segment → List (Part c)
  active_parts active [] = []
  active_parts active (s ∷ ss) =
      let rest = active_parts active ss in if active s.id then s.points ∷ rest else rest

  -- The parts of all features in, those of the features out, which have one shape each.
  unfoldable pub combine_parts :
      (Point c → Point c → Bool) → Vectors c → List (Part c) → Option (List (Part c))
  unfolding new_segments combine_from active_parts
  combine_parts less v parts =
      let segments = new_segments 0 parts in
      let start : Combining = record {
        before = [];
        from = segments;
        active = λ id. true;
        ep_map = [];
        seg_id = length segments;
      } in
      combine_from less v (2 * length segments + 1) start >>= λ st.
      some (active_parts st.active st.before)

  abbrev pub parts_of : List (GeoShape c) → List (Part c)
  parts_of [] = []
  parts_of (s ∷ ss) = s.parts ++ parts_of ss

  abbrev pub line_of : Option c.Srs → Part c → GeoShape c
  line_of srs part = add_part c part (new_shape c type_line srs)

  -- On the shapes of all features of the input; each shape of the result is that of a new feature.
  unfoldable pub combine_lines :
      (Point c → Point c → Bool)
      → Vectors c
      → Option c.Srs
      → List (GeoShape c)
      → Option (List (GeoShape c))
  unfolding combine_parts
  combine_lines less v srs shapes =
      combine_parts less v (parts_of shapes) >>= λ parts. some (map (line_of srs) parts)
