-- ===== src/Filters/Groups.antt =====
-- The groups of `CollectionFilterState::signalCheckpoint`, a `std::map` from names to lists, and the
-- loop of `meterData` that hands them on in batches (src/osgGIS/CollectionFilterState.cpp).
use osggis.Base.{
  is_nonempty, ℕ, zero, suc, Bool, true, false, ◌&&◌, List, [], ◌∷◌, ◌++◌, length, take, drop, min,
  ◌==◌,
}

module _ {Name A : Type 0} (name_lt : Name → Name → Bool) where
  -- groups[ name ].push_back( a )
  unfoldable pub push_back : Name → A → List (Name × List A) → List (Name × List A)
  push_back name a [] = (name, a ∷ []) ∷ []
  push_back name a ((n, members) ∷ groups) = elim (name_lt name n) [
    | true ↦ (name, a ∷ []) ∷ (n, members) ∷ groups
    | false ↦ elim (name_lt n name) [
      | true ↦ (n, members) ∷ push_back name a groups
      | false ↦ (n, members ++ (a ∷ [])) ∷ groups
    ]
  ]

module _ {Name A E W : Type 0} (name_lt : Name → Name → Bool) where
  -- The loop that assigns each element to its group. `assign` may change the environment and the
  -- world.
  unfoldable pub group_from :
      (A → E → W → Name × E × W)
      → List A
      → List (Name × List A)
      → E
      → W
      → List (Name × List A) × E × W
  unfolding push_back
  group_from assign [] groups env w = (groups, env, w)
  group_from assign (a ∷ rest) groups env w =
      let n = assign a env w in group_from assign rest (push_back name_lt n.0 a groups) n.1 n.2

-- The loops of `meterData` and `meterGroups`, over the result `R` of a traversal and the state `S`
-- of the chain that is fed.
module _ {R S A : Type 0} (ok : R → Bool) (feed : List A → S → R × S) (metering : ℕ) where
  -- The rounds with fuel, from the elements that are left.
  unfoldable pub meter_batches : ℕ → List A → R → S → R × S
  meter_batches zero source r s = (r, s)
  meter_batches (suc fuel) source r s = elim (is_nonempty source && ok r) [
    | true ↦
        let batch_size = min (length source) metering in
        let t = feed (take batch_size source) s in
        meter_batches fuel (drop batch_size source) t.0 t.1
    | false ↦ (r, s)
  ]

  unfoldable pub meter_data : R → List A → S → R × S
  unfolding meter_batches
  meter_data r source s = elim (metering == 0) [
    | true ↦ feed source s
    | false ↦ meter_batches (length source) source r s
  ]
