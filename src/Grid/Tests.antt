-- ===== src/Grid/Tests.antt =====
-- The theorems on grids (src/osgGISProjects/GriddedMapLayerCompiler.cpp) on small grids.
use osggis.Base.{
  ℕ, ◌≡◌, ◌↔◌, ◌*◌, refl, true, Option, none, some, List, [], ◌∷◌, length, In, Bool, ltb, get_elem?,
  arith,
}
use osggis.Grid.Defs.{GridCellKey, MapLayerLevelOfDetail, queue_tasks}
use osggis.Grid.Keys.{IsCell}
use osggis.Grid.Queue.{queue_tasks-IsCell}
use osggis.Grid.Walk.{walk, walk-row_cells}

abbrev level : ℕ → ℕ → MapLayerLevelOfDetail ℕ
level depth layer = record { depth = depth; rest = layer }

abbrev levels : List (MapLayerLevelOfDetail ℕ)
levels = level 0 10 ∷ level 1 20 ∷ []

abbrev left_half : GridCellKey → Bool
left_half key = ltb key.col 1

queue_tasks-IsCell_example :
    ((key : GridCellKey) (def : Option (MapLayerLevelOfDetail ℕ))
      → In (key, def) (queue_tasks 2 3 left_half levels true).0
        ↔ ((left_half key ≡ true) × IsCell 2 3 ℕ levels key × (def ≡ get_elem? levels key.level)))
    × ((queue_tasks 2 3 left_half levels true).1 ≡ 2 * (3 * length levels))
queue_tasks-IsCell_example = queue_tasks-IsCell ℕ 2 3 left_half levels true

-- Levels whose depths are not their places: no task is made for the second one.
depth_run :
    (queue_tasks 1 1 (λ key. true) (level 0 10 ∷ level 5 20 ∷ []) true).0
    ≡ (record { col = 0; row = 0; level = 0 }, some (level 0 10))
      ∷ (record { col = 0; row = 0; level = 5 }, none)
      ∷ []
unfolding queue_tasks
depth_run = refl

-- Two of the twelve cells.
walk-row_cells_example :
    walk 2 3 2 5 (record { lod_i = 0; col_i = 0; row_i = 0 })
    ≡ some (record { col = 0; row = 0; level = 0 } ∷ record { col = 1; row = 0; level = 0 } ∷ [])
walk-row_cells_example = walk-row_cells 2 3 2 5 (omega arith) (omega arith) (omega arith)
