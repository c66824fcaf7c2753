-- ===== src/Filters/Graph.antt =====
-- FilterGraph (src/osgGIS/FilterGraph, src/osgGIS/FilterGraph.cpp). A filter cursor is the list of the
-- features that it yields (Cursor says which those are), and `wind`, which reorders the vertices of a
-- feature, is a parameter.
use osggis.Base.{
  is_nonempty, ℕ, Bool, true, false, Option, none, some, List, [], ◌∷◌, ◌>>=◌, ◌&&◌, if◌then◌else◌,
  ltb, length, Bytes, bytes_eq, take, drop, ◌++◌,
}
use osggis.Filters.Env.{set_output_srs}
use osggis.Filters.Chain.{
  Context, Env, Filter, feature_filter, node_filter, FilterStateResult, FilterState, Chain,
  new_state, new_result, is_ok, is_no_data, features, status_nodata,
}
use osggis.Filters.Checkpoint.{feed, signal_checkpoint}

-- The filters by name, in order.
pub record Prototype (c : Context) : Type 0 where
  pub name : Bytes
  pub filter : Filter c

abbrev pub FilterList : Context → Type 0
FilterList c = List (Prototype c)

-- An `int` argument, of which only the sign matters below 0.
pub data Index : Type 0 where
  at : ℕ → Index
  negative : Index

pub data FilterGraphResult (c : Context) : Type 0 where
  ok : Option (Env c) → FilterGraphResult c
  error : FilterGraphResult c

module _ (c : Context) where
  open c use {Feature, AttributedNode, World}

  unfoldable pub append_filter : FilterList c → Prototype c → FilterList c
  append_filter filters f = filters ++ (f ∷ [])

  abbrev pub clamp_index : FilterList c → Index → ℕ
  clamp_index filters (at i) = if ltb (length filters) i then length filters else i
  clamp_index filters negative = 0

  unfoldable pub insert_filter : FilterList c → Prototype c → Index → FilterList c
  insert_filter filters f index =
      let i = clamp_index filters index in take i filters ++ (f ∷ drop i filters)

  unfoldable pub get_filter : Bytes → FilterList c → Option (Prototype c)
  get_filter name [] = none
  get_filter name (f ∷ fs) = if bytes_eq f.name name then some f else get_filter name fs

  -- `newState` of each filter, appended to the chain in order.
  unfoldable pub new_chain : (fs : List (Filter c)) → Chain c fs
  new_chain [] = tt
  new_chain (f ∷ fs) = (new_state c, new_chain fs)

  abbrev pub is_node_filter : Filter c → Bool
  is_node_filter f = elim f [ node_filter p q r ↦ true | _ ↦ false ]

  abbrev pub is_feature_filter : Filter c → Bool
  is_feature_filter f = elim f [ feature_filter p ↦ true | _ ↦ false ]

  -- `output_state`: the last state of a NodeFilter.
  unfoldable pub output_state : (fs : List (Filter c)) → Chain c fs → Option (FilterState c)
  output_state [] states = none
  output_state (f ∷ fs) (s, rest) = elim (output_state fs rest) [
    | some o ↦ some o
    | none ↦ elim (is_node_filter f) [ true ↦ some s | false ↦ none ]
  ]

  -- while( state_result.isOK() && cursor.hasNext() )
  unfoldable pub run_cursor :
      (fs : List (Filter c))
      → (Feature → Feature)
      → Env c
      → List Feature
      → FilterStateResult c
      → Chain c fs × World
      → FilterStateResult c × (Chain c fs × World)
  unfolding feed
  run_cursor fs prepare env [] r next = (r, next)
  run_cursor fs prepare env (f ∷ cursor) r next = elim (is_ok c r) [
    | false ↦ (r, next)
    | true ↦
        let t = feed c fs features env (prepare f ∷ []) next in
        run_cursor fs prepare env cursor t.0 t.1
  ]

  -- The loop and the checkpoint after it.
  unfoldable pub run_states :
      (fs : List (Filter c))
      → (Feature → Feature)
      → Env c
      → List Feature
      → Chain c fs × World
      → Option (FilterStateResult c × (Chain c fs × World))
  unfolding run_cursor signal_checkpoint
  run_states fs prepare env cursor next =
      let t = run_cursor fs prepare env cursor (new_result c) next in
      elim (is_ok c t.0) [ true ↦ signal_checkpoint c fs t.1.0 t.1.1 | false ↦ some t ]

  -- The traversal of `computeNodes`, which has no branch for a chain that begins with a NodeFilter.
  unfoldable pub traverse_states :
      (fs : List (Filter c))
      → (Feature → Feature)
      → Env c
      → List Feature
      → Chain c fs × World
      → Option (FilterStateResult c × (Chain c fs × World))
  unfolding run_states
  traverse_states [] wind env cursor next =
      some (record { status = status_nodata; filter = none }, next)
  traverse_states (node_filter p q r ∷ fs) wind env cursor next = some (new_result c, next)
  traverse_states (f ∷ fs) wind env cursor next = run_states (f ∷ fs) wind env cursor next

  -- The end of `computeNodes`. The children of the group `output` are `none` if it stays NULL; `none`
  -- as a whole is the use of a NULL output state.
  unfoldable pub nodes_result :
      (fs : List (Filter c))
      → FilterStateResult c × (Chain c fs × World)
      → Option (FilterGraphResult c × Option (List AttributedNode) × World)
  unfolding output_state
  nodes_result fs t = elim (is_ok c t.0) [
    | true ↦ output_state fs t.1.0 >>= λ s. some (
      ok s.current_env,
      (elim (is_no_data c t.0) [ true ↦ none | false ↦ some s.out_nodes ]),
      t.1.1,
    )
    | false ↦ some (error, none, t.1.1)
  ]

  unfoldable pub compute_nodes :
      List (Filter c)
      → (Feature → Feature)
      → List Feature
      → Env c
      → World
      → Option (FilterGraphResult c × Option (List AttributedNode) × World)
  unfolding traverse_states set_output_srs nodes_result new_chain
  compute_nodes fs wind cursor env w =
      traverse_states fs wind (set_output_srs env.in_srs env) cursor (new_chain fs, w)
      >>= nodes_result fs

  abbrev pub all_feature_filters : List (Filter c) → Bool
  all_feature_filters [] = true
  all_feature_filters (f ∷ fs) = elim (is_feature_filter f) [
    | true ↦ all_feature_filters fs
    | false ↦ false
  ]

  unfoldable pub last_state : (fs : List (Filter c)) → Chain c fs → Option (FilterState c)
  last_state [] states = none
  last_state (f ∷ fs) (s, rest) = elim (last_state fs rest) [ some o ↦ some o | none ↦ some s ]

  unfoldable pub store_result :
      (fs : List (Filter c))
      → FilterStateResult c × (Chain c fs × World)
      → Option (FilterGraphResult c × World)
  unfolding last_state
  store_result fs t = elim (is_ok c t.0) [
    | true ↦ last_state fs t.1.0 >>= λ s. some (ok s.current_env, t.1.1)
    | false ↦ some (error, t.1.1)
  ]

  -- `writer` is the `process` method of the WriteFeaturesFilter that is appended to the chain.
  unfoldable pub compute_feature_store :
      (List Feature → Env c → World → List Feature × Env c × World)
      → List (Filter c)
      → List Feature
      → Env c
      → World
      → Option (FilterGraphResult c × World)
  unfolding run_states set_output_srs store_result new_chain
  compute_feature_store writer fs cursor env w = elim (all_feature_filters fs && is_nonempty fs) [
    | false ↦ some (error, w)
    | true ↦
        let chain = fs ++ (feature_filter writer ∷ []) in
        run_states chain (λ f. f) (set_output_srs env.in_srs env) cursor (new_chain chain, w)
        >>= store_result chain
  ]
