-- ===== src/Grid/Queue.antt =====
-- The tasks that are queued for a grid (src/osgGISProjects/GriddedMapLayerCompiler.cpp).
use osggis.Base.{
  ℕ, zero, suc, ◌+◌, ◌*◌, ◌≡◌, ◌↔◌, refl, sym, ap, ◌∙◌, Bool, true, false, ◌==◌, Option, List, [],
  ◌∷◌, length, get_elem?, In, arith, Bool-cases, inl, inr,
}
use osggis.Grid.Defs.{
  GridCellKey, MapLayerLevelOfDetail, collect_geometry_keys, lod_from, get_lod_for_key, queue_keys,
  queue_tasks,
}
use osggis.Grid.Keys.{IsCell, collect_geometry_keys-IsCell}

module _ (L : Type 0) where
  lod_from-get_elem? :
      (level : ℕ) (key : GridCellKey) (levels : List (MapLayerLevelOfDetail L)) (left : ℕ)
      → key.level ≡ level + left
      → lod_from level key levels ≡ get_elem? levels left
  lod_from-get_elem? level key [] left h = refl
  lod_from-get_elem? level key (def ∷ levels) zero h =
      let t : (key.level == level) ≡ true = ground arith in rw t refl
  lod_from-get_elem? level key (def ∷ levels) (suc left) h =
      let t : (key.level == level) ≡ false = ground arith in
      rw t (lod_from-get_elem? (suc level) key levels left (omega arith))

  -- The definition that is found for a key stands at its level in the list, whatever its depth is.
  get_lod_for_key-get_elem? :
      (key : GridCellKey) (levels : List (MapLayerLevelOfDetail L))
      → get_lod_for_key key levels ≡ get_elem? levels key.level
  unfolding get_lod_for_key
  get_lod_for_key-get_elem? key levels = lod_from-get_elem? 0 key levels key.level (omega arith)

  abbrev Queued : Type 0
  Queued = GridCellKey × Option (MapLayerLevelOfDetail L)

  module _ (select : GridCellKey → Bool) (levels : List (MapLayerLevelOfDetail L)) where
    abbrev IsSelected : List GridCellKey → Queued → Type 0
    IsSelected keys q = (select q.0 ≡ true) × In q.0 keys × (q.1 ≡ get_elem? levels q.0.level)

    queue_keys-IsSelected :
        (keys : List GridCellKey) (q : Queued)
        → In q (queue_keys select levels keys)
        → IsSelected keys q
    unfolding queue_keys
    queue_keys-IsSelected [] q h = absurd h
    queue_keys-IsSelected (key ∷ keys) q h = elim (Bool-cases (select key)) [
      | inl t ↦ elim (rw (t, queue_keys) at h) [
        | inl e ↦
            let k = ap (λ (z : Queued). z.0) e in
            let d = ap (λ (z : Queued). z.1) e in
            (
              ap select k ∙ t,
              inl k,
              d
                  ∙ get_lod_for_key-get_elem? key levels
                  ∙ ap (λ (z : GridCellKey). get_elem? levels z.level) (sym k),
            )
        | inr i ↦ let (s, j, e) = queue_keys-IsSelected keys q i in (s, inr j, e)
      ]
      | inr t ↦
          let (s, j, e) = queue_keys-IsSelected keys q (rw (t, queue_keys) at h) in (s, inr j, e)
    ]

    IsSelected-queue_keys :
        (keys : List GridCellKey) (q : Queued)
        → IsSelected keys q
        → In q (queue_keys select levels keys)
    unfolding queue_keys
    IsSelected-queue_keys [] q (s, i, e) = absurd i
    IsSelected-queue_keys (key ∷ keys) q (s, i, e) = elim i [
      | inl same ↦
          let t : select key ≡ true = ap select (sym same) ∙ s in
          let d =
            e
            ∙ ap (λ (z : GridCellKey). get_elem? levels z.level) same
            ∙ sym (get_lod_for_key-get_elem? key levels) in
          rw (t, queue_keys) (inl (rw (same, d) refl))
      | inr j ↦ elim (Bool-cases (select key)) [
        | inl t ↦ rw (t, queue_keys) (inr (IsSelected-queue_keys keys q (s, j, e)))
        | inr t ↦ rw (t, queue_keys) (IsSelected-queue_keys keys q (s, j, e))
      ]
    ]

  -- In either order queueTasks queues a task for exactly the selected cells of the grid at the depths of
  -- the levels, with the definition that stands at that number in the list of levels, or with NULL if none
  -- stands there. It returns the number of all cells at all levels.
  pub queue_tasks-IsCell :
      (num_cols num_rows : ℕ) (select : GridCellKey → Bool)
      (levels : List (MapLayerLevelOfDetail L)) (depth_first : Bool)
      → ((key : GridCellKey) (def : Option (MapLayerLevelOfDetail L))
          → In (key, def) (queue_tasks num_cols num_rows select levels depth_first).0 ↔ (
              (select key ≡ true)
              × IsCell num_cols num_rows L levels key
              × (def ≡ get_elem? levels key.level)))
        × ((queue_tasks num_cols num_rows select levels depth_first).1
            ≡ num_cols * (num_rows * length levels))
  unfolding queue_tasks
  queue_tasks-IsCell num_cols num_rows select levels depth_first =
      let keys = collect_geometry_keys num_cols num_rows levels depth_first in
      let (cells, count) = collect_geometry_keys-IsCell num_cols num_rows L levels depth_first in
      (
        λ key def. (
          λ i.
              let (s, j, e) = queue_keys-IsSelected select levels keys (key, def) i in
              (s, (cells key).0 j, e),
          λ h.
              let (s, cell, e) = h in
              IsSelected-queue_keys select levels keys (key, def) (s, (cells key).1 cell, e),
        ),
        count,
      )
