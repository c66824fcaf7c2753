-- ===== src/Cursor/Defs.antt =====
-- FeatureCursor (src/osgGIS/FeatureCursor, src/osgGIS/FeatureCursor.cpp). The feature store and the
-- geometric test of `match_exactly` are parameters. `iter` is seen as the identifiers from it on.
use osggis.Base.{
  ℕ, zero, suc, is_nonempty, Bool, true, false, ◌||◌, not, Option, none, some, List, [], ◌∷◌, ◌++◌,
  length, ltb, leb, if◌then◌else◌,
}

-- FeatureStore::getFeature, which may yield NULL, and `getShapes().intersects( search_extent )`.
pub record Source (Oid Feature : Type 0) : Type 0 where
  pub get_feature : Oid → Option Feature
  pub intersects : Feature → Bool

pub record FeatureCursor (Oid Feature : Type 0) : Type 0 where
  pub at_bof : Bool
  pub oids : List Oid
  pub unread : List Oid
  pub store : Option (Source Oid Feature)
  pub last_result : Option Feature
  pub match_exactly : Bool
  pub prefetched_results : List Feature
  pub prefetch_size : ℕ

abbrev pub default_prefetch_size : ℕ
default_prefetch_size = 64

-- The front of a queue and the queue without it; NULL if it is empty.
abbrev pub pop : {A : Type 0} → List A → Option A × List A
pop [] = (none, [])
pop (f ∷ fs) = (some f, fs)

module _ {Oid Feature : Type 0} where
  -- Whether the body of the loop pushes the feature of an identifier.
  unfoldable pub fetched : Source Oid Feature → Bool → Oid → Option Feature
  fetched s match_exactly oid = elim (s.get_feature oid) [
    | none ↦ none
    | some f ↦ if not match_exactly || s.intersects f then some f else none
  ]

  -- while( prefetched_results.size() < prefetch_size && iter < oids.size() )
  unfoldable pub fetch_loop :
      Source Oid Feature → Bool → ℕ → List Oid → List Feature → List Oid × List Feature
  unfolding fetched
  fetch_loop s match_exactly size [] results = ([], results)
  fetch_loop s match_exactly size (oid ∷ rest) results = elim (ltb (length results) size) [
    | false ↦ (oid ∷ rest, results)
    | true ↦ elim (fetched s match_exactly oid) [
      | none ↦ fetch_loop s match_exactly size rest results
      | some f ↦ fetch_loop s match_exactly size rest (results ++ (f ∷ []))
    ]
  ]

  -- The body of `prefetch`, for the value of `store`.
  unfoldable pub prefetch_from :
      Option (Source Oid Feature) → FeatureCursor Oid Feature → FeatureCursor Oid Feature
  unfolding fetch_loop
  prefetch_from none c = c
  prefetch_from (some s) c =
      if leb (length c.prefetched_results) 1
      then (let t = fetch_loop s c.match_exactly c.prefetch_size c.unread c.prefetched_results in
          record c { unread = t.0; prefetched_results = t.1 })
      else c

  unfoldable pub prefetch : FeatureCursor Oid Feature → FeatureCursor Oid Feature
  unfolding prefetch_from
  prefetch c = prefetch_from c.store c

  unfoldable pub reset : FeatureCursor Oid Feature → FeatureCursor Oid Feature
  unfolding prefetch
  reset c =
      if c.at_bof
      then c
      else record (prefetch
          (record c { unread = c.oids; prefetched_results = []; last_result = none })) {
            at_bof = true;
          }

  unfoldable pub new_cursor :
      List Oid → Option (Source Oid Feature) → Bool → FeatureCursor Oid Feature
  unfolding reset
  new_cursor oids store match_exactly = reset (record {
    at_bof = false;
    oids = oids;
    unread = oids;
    store = store;
    last_result = none;
    match_exactly = match_exactly;
    prefetched_results = [];
    prefetch_size = default_prefetch_size;
  })

  -- A value below 1 counts as 1.
  unfoldable pub set_prefetch_size : ℕ → FeatureCursor Oid Feature → FeatureCursor Oid Feature
  set_prefetch_size value c = record c { prefetch_size = if ltb value 1 then 1 else value }

  unfoldable pub has_next : FeatureCursor Oid Feature → Bool
  has_next c = elim c.store [ none ↦ false | some s ↦ is_nonempty c.prefetched_results ]

  unfoldable pub next : FeatureCursor Oid Feature → Option Feature × FeatureCursor Oid Feature
  unfolding prefetch
  next c =
      let (result, results) = pop c.prefetched_results in
      (
        result,
        prefetch (record c { at_bof = false; last_result = result; prefetched_results = results }),
      )

  -- The loop of a client: while( cursor.hasNext() ) … cursor.next(), with fuel. The features that it
  -- gets, and whether the loop has ended by its test.
  unfoldable pub drain : ℕ → FeatureCursor Oid Feature → Option (List (Option Feature))
  unfolding has_next next
  drain zero c = none
  drain (suc fuel) c = elim (has_next c) [
    | false ↦ some []
    | true ↦ elim (drain fuel (next c).1) [ none ↦ none | some rest ↦ some ((next c).0 ∷ rest) ]
  ]
