-- ===== src/Cursor/Tests.antt =====
-- The theorems on feature cursors (src/osgGIS/FeatureCursor.cpp) at a concrete store.
use osggis.Base.{
  ◌≡◌, ℕ, ◌+◌, false, true, some, none, [], ◌∷◌, map, length, suc, ◌==◌, if◌then◌else◌,
}
use osggis.Cursor.Defs.{Source, FeatureCursor, new_cursor, set_prefetch_size, drain}
use osggis.Cursor.Order.{accepted, drain-new_cursor}

-- Identifier 2 has no feature, and the shapes of 103 do not meet the extent.
abbrev store : Source ℕ ℕ
store = record {
  get_feature = λ oid. if oid == 2 then none else some (100 + oid);
  intersects = λ f. if f == 103 then false else true;
}

drain-new_cursor_example :
    drain
      (suc (length (accepted store true (1 ∷ 2 ∷ 3 ∷ 4 ∷ []))))
      (set_prefetch_size 1 (new_cursor (1 ∷ 2 ∷ 3 ∷ 4 ∷ []) (some store) true))
    ≡ some (map some (accepted store true (1 ∷ 2 ∷ 3 ∷ 4 ∷ [])))
drain-new_cursor_example = drain-new_cursor (1 ∷ 2 ∷ 3 ∷ 4 ∷ []) store true 1

abbrev moved : FeatureCursor ℕ ℕ
moved = record {
  at_bof = false;
  oids = 1 ∷ 2 ∷ 3 ∷ 4 ∷ [];
  unread = 4 ∷ [];
  store = some store;
  last_result = some 101;
  match_exactly = true;
  prefetched_results = [];
  prefetch_size = 1;
}
