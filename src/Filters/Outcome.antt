-- ===== src/Filters/Outcome.antt =====
-- What FilterGraph::computeNodes and computeFeatureStore return (src/osgGIS/FilterGraph.cpp).
use osggis.Base.{
  is_nonempty, ◌≡◌, refl, Bool, true, false, ◌&&◌, ◌||◌, Option, none, some, List, [], ◌∷◌, ◌++◌,
  arith, Bool-cases, Option-cases, inl, inr,
}
use osggis.Filters.Env.{set_output_srs}
use osggis.Filters.Chain.{
  Context, Env, Filter, feature_filter, fragment_filter, node_filter, collection_filter,
  FilterStateResult, FilterState, Chain, features, is_ok, status_none, new_result, new_state,
}
use osggis.Filters.Checkpoint.{feed}
use osggis.Filters.Graph.{
  ok, error, new_chain, is_node_filter, output_state, run_cursor, run_states, traverse_states,
  nodes_result, store_result, compute_nodes, compute_feature_store, all_feature_filters, last_state,
}
use osggis.Filters.Quiet.{Quiet}
use osggis.Filters.Drain.{feed-Quiet, signal_checkpoint-Drained, Drained}

module _ (c : Context) where
  open c use {Feature, AttributedNode, World}

  new_chain-Quiet : (fs : List (Filter c)) → Quiet c fs (new_chain c fs)
  unfolding new_chain
  new_chain-Quiet [] = tt
  new_chain-Quiet (feature_filter p ∷ fs) = (refl, new_chain-Quiet fs)
  new_chain-Quiet (fragment_filter p q ∷ fs) = (refl, new_chain-Quiet fs)
  new_chain-Quiet (node_filter p q r ∷ fs) = (refl, new_chain-Quiet fs)
  new_chain-Quiet (collection_filter m ∷ fs) = (refl, new_chain-Quiet fs)

  run_cursor-Quiet :
      (fs : List (Filter c)) (prepare : Feature → Feature) (env : Env c) (cursor : List Feature)
      (r : FilterStateResult c) (next : Chain c fs × World)
      → is_ok c r ≡ true
      → Quiet c fs next.0
      → let t = run_cursor c fs prepare env cursor r next in (is_ok c t.0 ≡ true) × Quiet c fs t.1.0
  unfolding run_cursor
  run_cursor-Quiet fs prepare env [] r next o q = (o, q)
  run_cursor-Quiet fs prepare env (f ∷ cursor) r next o q =
      let t = feed c fs features env (prepare f ∷ []) next in
      let (o', q') = feed-Quiet c fs features env (prepare f ∷ []) next q in
      rw (o, run_cursor) (run_cursor-Quiet fs prepare env cursor t.0 t.1 o' q')

  run_states-Drained :
      (fs : List (Filter c)) (prepare : Feature → Feature) (env : Env c) (cursor : List Feature)
      (next : Chain c fs × World)
      → Quiet c fs next.0
      → (r : FilterStateResult c) × (states : Chain c fs) × (w : World) × (run_states c fs prepare
            env cursor next
          ≡ some (r, (states, w)))
        × (r.status ≡ status_none)
        × Drained c fs states
  unfolding run_states
  run_states-Drained fs prepare env cursor next q =
      let t = run_cursor c fs prepare env cursor (new_result c) next in
      let (o, q') = run_cursor-Quiet fs prepare env cursor (new_result c) next refl q in
      rw (o, run_states) (signal_checkpoint-Drained c fs t.1.0 t.1.1 q')

  abbrev pub has_node_filter : List (Filter c) → Bool
  has_node_filter [] = false
  has_node_filter (f ∷ fs) = is_node_filter c f || has_node_filter fs

  output_state-some :
      (fs : List (Filter c)) (states : Chain c fs)
      → has_node_filter fs ≡ true
      → (s : FilterState c) × (output_state c fs states ≡ some s)
  unfolding output_state
  output_state-some [] states h = ground arith
  output_state-some (f ∷ fs) (s, rest) h = elim (Option-cases (output_state c fs rest)) [
    | inl o ↦ elim (Bool-cases (is_node_filter c f)) [
      | inl n ↦ (s, rw (o, n, output_state) refl)
      | inr n ↦ let (s', e) = output_state-some fs rest (ground arith) in absurd (ground arith)
    ]
    | inr (s', o) ↦ (s', rw (o, output_state) refl)
  ]

  output_state-none :
      (fs : List (Filter c)) (states : Chain c fs)
      → has_node_filter fs ≡ false
      → output_state c fs states ≡ none
  unfolding output_state
  output_state-none [] states h = refl
  output_state-none (f ∷ fs) (s, rest) h = ground (arith, output_state-none fs rest)

  output_state-new_chain :
      (fs : List (Filter c))
      → has_node_filter fs ≡ true
      → output_state c fs (new_chain c fs) ≡ some (new_state c)
  unfolding output_state new_chain
  output_state-new_chain [] h = ground arith
  output_state-new_chain (f ∷ fs) h = elim (Bool-cases (has_node_filter fs)) [
    | inl n ↦ rw (output_state-new_chain fs n, output_state) refl
    | inr n ↦
        let o = output_state-none fs (new_chain c fs) n in
        let here : is_node_filter c f ≡ true = ground arith in rw (o, here, output_state) refl
  ]

  nodes_result-ok :
      (fs : List (Filter c)) (r : FilterStateResult c) (next : Chain c fs × World)
      (s : FilterState c)
      → r.status ≡ status_none
      → output_state c fs next.0 ≡ some s
      → nodes_result c fs (r, next) ≡ some (ok s.current_env, some s.out_nodes, next.1)
  unfolding nodes_result
  nodes_result-ok fs r next s n o = rw (n, o) refl

  nodes_result-fault :
      (fs : List (Filter c)) (r : FilterStateResult c) (next : Chain c fs × World)
      → r.status ≡ status_none
      → output_state c fs next.0 ≡ none
      → nodes_result c fs (r, next) ≡ none
  unfolding nodes_result
  nodes_result-fault fs r next n o = rw (n, o) refl

  store_result-ok :
      (fs : List (Filter c)) (r : FilterStateResult c) (next : Chain c fs × World)
      (s : FilterState c)
      → r.status ≡ status_none
      → last_state c fs next.0 ≡ some s
      → store_result c fs (r, next) ≡ some (ok s.current_env, next.1)
  unfolding store_result
  store_result-ok fs r next s n o = rw (n, o) refl

  traverse_states-ok :
      (f : Filter c) (fs : List (Filter c)) (wind : Feature → Feature) (env : Env c)
      (cursor : List Feature) (w : World)
      → (r : FilterStateResult c) × (states : Chain c (f ∷ fs)) × (w' : World) × (traverse_states c
            (f ∷ fs)
            wind
            env
            cursor
            (new_chain c (f ∷ fs), w)
          ≡ some (r, (states, w')))
        × (r.status ≡ status_none)
  unfolding traverse_states
  traverse_states-ok (node_filter p q r) fs wind env cursor w =
      (new_result c, new_chain c (node_filter p q r ∷ fs), w, refl, refl)
  traverse_states-ok (feature_filter p) fs wind env cursor w =
      let chain = feature_filter p ∷ fs in
      let (r, s, w', e, n, d) =
        run_states-Drained chain wind env cursor (new_chain c chain, w) (new_chain-Quiet chain) in
      (r, s, w', e, n)
  traverse_states-ok (fragment_filter p q) fs wind env cursor w =
      let chain = fragment_filter p q ∷ fs in
      let (r, s, w', e, n, d) =
        run_states-Drained chain wind env cursor (new_chain c chain, w) (new_chain-Quiet chain) in
      (r, s, w', e, n)
  traverse_states-ok (collection_filter m) fs wind env cursor w =
      let chain = collection_filter m ∷ fs in
      let (r, s, w', e, n, d) =
        run_states-Drained chain wind env cursor (new_chain c chain, w) (new_chain-Quiet chain) in
      (r, s, w', e, n)

  module _ (wind : Feature → Feature) (cursor : List Feature) (env : Env c) (w : World) where
    -- A graph with a NodeFilter in it always succeeds and always makes an output group, whatever
    -- its filters return and also where none of them returned any data.
    pub compute_nodes-ok :
        (fs : List (Filter c))
        → has_node_filter fs ≡ true
        → (env' : Option (Env c)) × (nodes : List AttributedNode) × (w' : World) × (compute_nodes c
              fs wind cursor env w
            ≡ some (ok env', some nodes, w'))
    unfolding compute_nodes
    compute_nodes-ok [] h = absurd (ground arith)
    compute_nodes-ok (f ∷ fs) h =
        let env0 = set_output_srs env.in_srs env in
        let (r, states, w', e, n) = traverse_states-ok f fs wind env0 cursor w in
        let (s, o) = output_state-some (f ∷ fs) states h in
        (
          s.current_env,
          s.out_nodes,
          w',
          rw (e, compute_nodes) (nodes_result-ok (f ∷ fs) r (states, w') s n o),
        )

    -- For a graph without a NodeFilter, the empty graph among them, `computeNodes` reports no error
    -- but uses an output state that is NULL.
    pub compute_nodes-fault :
        (fs : List (Filter c))
        → has_node_filter fs ≡ false
        → compute_nodes c fs wind cursor env w ≡ none
    unfolding compute_nodes traverse_states nodes_result output_state
    compute_nodes-fault [] h = refl
    compute_nodes-fault (f ∷ fs) h =
        let env0 = set_output_srs env.in_srs env in
        let (r, states, w', e, n) = traverse_states-ok f fs wind env0 cursor w in
        let o = output_state-none (f ∷ fs) states h in
        rw (e, compute_nodes) (nodes_result-fault (f ∷ fs) r (states, w') n o)

    -- The features of the cursor never enter a graph that begins with a NodeFilter: it succeeds with
    -- an empty group and no environment.
    pub compute_nodes-node_first :
        (f : Filter c) (fs : List (Filter c))
        → is_node_filter c f ≡ true
        → compute_nodes c (f ∷ fs) wind cursor env w ≡ some (ok none, some [], w)
    unfolding compute_nodes traverse_states
    compute_nodes-node_first (node_filter p q r) fs h =
        let chain = node_filter p q r ∷ fs in
        nodes_result-ok chain (new_result c) (new_chain c chain, w) (new_state c) refl
          (output_state-new_chain chain refl)
    compute_nodes-node_first (feature_filter p) fs h = absurd (ground arith)
    compute_nodes-node_first (fragment_filter p q) fs h = absurd (ground arith)
    compute_nodes-node_first (collection_filter m) fs h = absurd (ground arith)

  last_state-some :
      (f : Filter c) (fs : List (Filter c)) (states : Chain c (f ∷ fs))
      → (s : FilterState c) × (last_state c (f ∷ fs) states ≡ some s)
  unfolding last_state
  last_state-some f [] (s, rest) = (s, refl)
  last_state-some f (g ∷ gs) (s, rest) =
      let (s', e) = last_state-some g gs rest in (s', rw (e, last_state) refl)

  -- `computeFeatureStore` succeeds for a graph that is not empty and has FeatureFilters alone, whatever
  -- the filters and the writer return.
  pub compute_feature_store-ok :
      (writer : List Feature → Env c → World → List Feature × Env c × World) (fs : List (Filter c))
      (cursor : List Feature) (env : Env c) (w : World)
      → (all_feature_filters c fs && is_nonempty fs) ≡ true
      → (env' : Option (Env c)) × (w' : World) × (compute_feature_store c writer fs cursor env w
          ≡ some (ok env', w'))
  unfolding compute_feature_store
  compute_feature_store-ok writer [] cursor env w h = absurd (ground arith)
  compute_feature_store-ok writer (f ∷ fs) cursor env w h =
      let last = feature_filter writer ∷ [] in
      let (r, states, w', e, n, d) =
        run_states-Drained (f ∷ fs ++ last) (λ x. x) (set_output_srs env.in_srs env) cursor
          (new_chain c (f ∷ fs ++ last), w) (new_chain-Quiet (f ∷ fs ++ last)) in
      let (s, o) = last_state-some f (fs ++ last) states in
      (
        s.current_env,
        w',
        rw (h, e, compute_feature_store) (store_result-ok (f ∷ fs ++ last) r (states, w') s n o),
      )

  -- For a graph that is empty or has a filter of another class than FeatureFilter,
  -- `computeFeatureStore` reports an error and runs no filter: the world is as it was.
  pub compute_feature_store-error :
      (writer : List Feature → Env c → World → List Feature × Env c × World) (fs : List (Filter c))
      (cursor : List Feature) (env : Env c) (w : World)
      → (all_feature_filters c fs && is_nonempty fs) ≡ false
      → compute_feature_store c writer fs cursor env w ≡ some (error, w)
  unfolding compute_feature_store
  compute_feature_store-error writer fs cursor env w h = rw (h, compute_feature_store) refl
