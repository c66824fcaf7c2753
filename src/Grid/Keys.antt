-- ===== src/Grid/Keys.antt =====
-- The keys that are collected for a grid and the tasks that are queued for them
-- (src/osgGISProjects/GriddedMapLayerCompiler.cpp).
use mathlib.Core.Path.{subst}
use native.Mathlib.Nat.{mul-zero, mul-suc, mul-add}
use osggis.Base.{
  ℕ, zero, suc, ◌+◌, ◌*◌, ◌≤◌, ◌<◌, ◌≡◌, ◌↔◌, refl, sym, ap, ◌∙◌, Bool, true, false, ◌==◌, ==_iff,
  List, [], ◌∷◌, map, length, length-append, In, In-left, In-right, In-append, arith, Bool-cases,
  inl, inr,
}
use osggis.Grid.Defs.{
  GridCellKey, MapLayerLevelOfDetail, push_each, key_at, level_keys, collect_geometry_keys,
}

-- A key that some round pushes.
abbrev IsPushed : (ℕ → List GridCellKey) → ℕ → ℕ → GridCellKey → Type 0
IsPushed body i left key = (j : ℕ) × (i ≤ j) × (j < i + left) × In key (body j)

push_each-IsPushed :
    (body : ℕ → List GridCellKey) (left i : ℕ) (key : GridCellKey)
    → In key (push_each body i left)
    → IsPushed body i left key
push_each-IsPushed body zero i key h = absurd h
push_each-IsPushed body (suc left) i key h =
    elim (In-append key (body i) (push_each body (suc i) left) h) [
      | inl k ↦ (i, omega arith, omega arith, k)
      | inr k ↦
          let (j, lo, hi, l) = push_each-IsPushed body left (suc i) key k in
          (j, omega arith, omega arith, l)
    ]

push_each-In :
    (body : ℕ → List GridCellKey) (left i j : ℕ) (key : GridCellKey)
    → i ≤ j
    → j < i + left
    → In key (body j)
    → In key (push_each body i left)
push_each-In body zero i j key lo hi h = absurd (omega arith)
push_each-In body (suc left) i j key lo hi h = elim (Bool-cases (i == j)) [
  | inl t ↦
      let same = (==_iff i j).0 t in
      In-left key (body i) (push_each body (suc i) left) (subst (λ z. In key (body z)) (sym same) h)
  | inr t ↦
      let next : suc i ≤ j = ground arith in
      In-right key (body i) (push_each body (suc i) left)
        (push_each-In body left (suc i) j key next (omega arith) h)
]

length-push_each :
    (body : ℕ → List GridCellKey) (m left i : ℕ)
    → ((j : ℕ) → length (body j) ≡ m)
    → length (push_each body i left) ≡ left * m
length-push_each body m zero i h = omega arith
length-push_each body m (suc left) i h =
    let rest = length-push_each body m left (suc i) h in
    omega (arith, length-append (body i) (push_each body (suc i) left), h i)

module _ (num_cols num_rows : ℕ) where
  -- The two inner loops for one body.
  abbrev columns : (ℕ → ℕ → List GridCellKey) → List GridCellKey
  columns body = push_each (λ col. push_each (body col) 0 num_rows) 0 num_cols

  columns-In :
      (body : ℕ → ℕ → List GridCellKey) (key : GridCellKey)
      → In key (columns body)
      → (col : ℕ) × (row : ℕ) × (col < num_cols) × (row < num_rows) × In key (body col row)
  columns-In body key h =
      let (col, _, hi, k) =
        push_each-IsPushed (λ col. push_each (body col) 0 num_rows) num_cols 0 key h in
      let (row, _, hi', l) = push_each-IsPushed (body col) num_rows 0 key k in
      (col, row, omega arith, omega arith, l)

  In-columns :
      (body : ℕ → ℕ → List GridCellKey) (key : GridCellKey) (col row : ℕ)
      → col < num_cols
      → row < num_rows
      → In key (body col row)
      → In key (columns body)
  In-columns body key col row h k i =
      push_each-In (λ col. push_each (body col) 0 num_rows) num_cols 0 col key (omega arith)
        (omega arith) (push_each-In (body col) num_rows 0 row key (omega arith) (omega arith) i)

  length-columns :
      (body : ℕ → ℕ → List GridCellKey) (m : ℕ)
      → ((col row : ℕ) → length (body col row) ≡ m)
      → length (columns body) ≡ num_cols * (num_rows * m)
  length-columns body m h =
      length-push_each (λ col. push_each (body col) 0 num_rows) (num_rows * m) num_cols 0
        (λ col. length-push_each (body col) m num_rows 0 (h col))

module _ (L : Type 0) where
  abbrev Levels : Type 0
  Levels = List (MapLayerLevelOfDetail L)

  abbrev key_of : ℕ → ℕ → MapLayerLevelOfDetail L → GridCellKey
  key_of col row def = key_at col row def

  abbrev IsAt : ℕ → ℕ → Levels → GridCellKey → Type 0
  IsAt col row levels key =
      (def : MapLayerLevelOfDetail L) × In def levels × (key ≡ key_of col row def)

  map-In :
      (col row : ℕ) (levels : Levels) (key : GridCellKey)
      → In key (map (key_of col row) levels)
      → IsAt col row levels key
  map-In col row [] key h = absurd h
  map-In col row (def ∷ levels) key (inl e) = (def, inl refl, e)
  map-In col row (def ∷ levels) key (inr h) =
      let (d, i, e) = map-In col row levels key h in (d, inr i, e)

  In-map :
      (col row : ℕ) (levels : Levels) (def : MapLayerLevelOfDetail L)
      → In def levels
      → In (key_of col row def) (map (key_of col row) levels)
  In-map col row [] def h = absurd h
  In-map col row (d ∷ levels) def (inl e) = inl (ap (key_of col row) e)
  In-map col row (d ∷ levels) def (inr h) = inr (In-map col row levels def h)

  length-map_keys :
      (col row : ℕ) (levels : Levels) → length (map (key_of col row) levels) ≡ length levels
  length-map_keys col row [] = refl
  length-map_keys col row (d ∷ levels) = ap suc (length-map_keys col row levels)

module _ (num_cols num_rows : ℕ) (L : Type 0) where
  -- The cells of the grid at the depths of the levels.
  abbrev pub IsCell : List (MapLayerLevelOfDetail L) → GridCellKey → Type 0
  IsCell levels key =
      (key.col < num_cols)
      × (key.row < num_rows)
      × (def : MapLayerLevelOfDetail L) × In def levels
      × (def.depth ≡ key.level)

  level_keys-IsCell :
      (levels : List (MapLayerLevelOfDetail L)) (key : GridCellKey)
      → In key (level_keys num_cols num_rows levels)
      → IsCell levels key
  level_keys-IsCell [] key h = absurd h
  level_keys-IsCell (def ∷ levels) key h =
      let body = λ (col row : ℕ). key_at col row def ∷ [] in
      elim (In-append key (columns num_cols num_rows body) (level_keys num_cols num_rows levels)
        h) [
          | inl k ↦
              let (col, row, x, y, i) = columns-In num_cols num_rows body key k in
              elim i [
                | inl e ↦ (rw e x, rw e y, def, inl refl, ap (λ (z : GridCellKey). z.level) (sym e))
                | inr e ↦ absurd e
              ]
          | inr k ↦ let (x, y, d, i, e) = level_keys-IsCell levels key k in (x, y, d, inr i, e)
        ]

  same_key :
      (key : GridCellKey) (def : MapLayerLevelOfDetail L)
      → def.depth ≡ key.level
      → key ≡ key_at key.col key.row def
  same_key key def h = ap (λ l. record key { level = l }) (sym h)

  In-level_keys :
      (levels : List (MapLayerLevelOfDetail L)) (key : GridCellKey)
      → IsCell levels key
      → In key (level_keys num_cols num_rows levels)
  In-level_keys [] key (x, y, d, i, e) = absurd i
  In-level_keys (def ∷ levels) key (x, y, d, i, e) =
      let body = λ (col row : ℕ). key_at col row def ∷ [] in
      let rest = level_keys num_cols num_rows levels in
      elim i [
        | inl same ↦
            let at = ap (λ (z : MapLayerLevelOfDetail L). z.depth) (sym same) in
            In-left key (columns num_cols num_rows body) rest (
              In-columns num_cols num_rows body key key.col key.row x y
                (inl (same_key key def (at ∙ e))))
        | inr j ↦
            In-right key (columns num_cols num_rows body) rest
              (In-level_keys levels key (x, y, d, j, e))
      ]

  length-level_keys :
      (levels : List (MapLayerLevelOfDetail L))
      → length (level_keys num_cols num_rows levels) ≡ num_cols * (num_rows * length levels)
  length-level_keys [] = rw (mul-zero num_rows, mul-zero num_cols) refl
  length-level_keys (def ∷ levels) =
      let body = λ (col row : ℕ). key_at col row def ∷ [] in
      let rest = level_keys num_cols num_rows levels in
      let n = length-columns num_cols num_rows body 1 (λ col row. refl) in
      let all = length-append (columns num_cols num_rows body) rest in
      let more = length-level_keys levels in
      let per : num_cols * (num_rows * suc (length levels))
          ≡ num_cols * (num_rows * length levels) + num_cols * num_rows =
        rw (mul-suc num_rows (length levels))
          (mul-add num_cols (num_rows * length levels) num_rows) in
      let one : num_rows * 1 ≡ num_rows = omega arith in
      let n' : length (columns num_cols num_rows body) ≡ num_cols * num_rows =
        n ∙ ap (λ z. num_cols * z) one in
      all ∙ omega (arith, n', more, per)

  -- The keys of either order are those of the cells, and as many as there are cells and levels.
  pub collect_geometry_keys-IsCell :
      (levels : List (MapLayerLevelOfDetail L)) (depth_first : Bool)
      → ((key : GridCellKey)
          → In key (collect_geometry_keys num_cols num_rows levels depth_first) ↔ IsCell levels key)
        × (length (collect_geometry_keys num_cols num_rows levels depth_first)
            ≡ num_cols * (num_rows * length levels))
  unfolding collect_geometry_keys
  collect_geometry_keys-IsCell levels false =
      (λ key. (level_keys-IsCell levels key, In-level_keys levels key), length-level_keys levels)
  collect_geometry_keys-IsCell levels true =
      let body = λ (col row : ℕ). map (key_at col row) levels in
      (
        λ key. (
          λ h.
              let (col, row, x, y, i) = columns-In num_cols num_rows body key h in
              let (d, j, e) = map-In L col row levels key i in
              (rw e x, rw e y, d, j, ap (λ (z : GridCellKey). z.level) (sym e)),
          λ c.
              let (x, y, d, j, e) = c in
              In-columns num_cols num_rows body key key.col key.row x y (
                subst (λ z. In z (body key.col key.row)) (sym (same_key key d e))
                  (In-map L key.col key.row levels d j)),
        ),
        length-columns num_cols num_rows body (length levels)
            (λ col row. length-map_keys L col row levels),
      )
