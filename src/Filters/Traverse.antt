-- ===== src/Filters/Traverse.antt =====
-- The `traverse` methods of FeatureFilterState, FragmentFilterState, NodeFilterState and
-- CollectionFilterState (src/osgGIS/*FilterState.cpp).
use osggis.Base.{true, false, some, List, [], ◌∷◌, is_nonempty}
use osggis.Filters.Env.{advance}
use osggis.Filters.Chain.{
  Context, Filter, feature_filter, fragment_filter, node_filter, collection_filter,
  FilterStateResult, FilterState, Chain, new_result, no_data, Batch, features, fragments, nodes,
  push_next, Env,
}

module _ (c : Context) where
  open c use {Feature, Fragment, AttributedNode, World}

  -- The output of `FragmentFilterState::traverse`: features go before fragments.
  unfoldable pub process_fragment_filter :
      (List Feature → Env c → World → List Fragment × Env c × World)
      → (List Fragment → Env c → World → List Fragment × Env c × World)
      → FilterState c
      → Env c
      → World
      → List Fragment × Env c × World
  process_fragment_filter from_features from_fragments s env w = elim (is_nonempty s.in_features) [
    | true ↦ from_features s.in_features env w
    | false ↦ elim (is_nonempty s.in_fragments) [
      | true ↦ from_fragments s.in_fragments env w
      | false ↦ ([], env, w)
    ]
  ]

  -- The new `out_nodes` of `NodeFilterState::traverse`, which stay as they are without input.
  unfoldable pub process_node_filter :
      (List Feature → Env c → World → List AttributedNode × Env c × World)
      → (List Fragment → Env c → World → List AttributedNode × Env c × World)
      → (List AttributedNode → Env c → World → List AttributedNode × Env c × World)
      → FilterState c
      → Env c
      → World
      → List AttributedNode × Env c × World
  process_node_filter from_features from_fragments from_nodes s env w =
      elim (is_nonempty s.in_features) [
        | true ↦ from_features s.in_features env w
        | false ↦ elim (is_nonempty s.in_fragments) [
          | true ↦ from_fragments s.in_fragments env w
          | false ↦ elim (is_nonempty s.in_nodes) [
            | true ↦ from_nodes s.in_nodes env w
            | false ↦ (s.out_nodes, env, w)
          ]
        ]
      ]

  unfoldable pub push_chain : (fs : List (Filter c)) → Batch c → Chain c fs → Chain c fs
  unfolding push_next
  push_chain [] b rest = rest
  push_chain (g ∷ gs) b (s, rest) = (push_next c g b s, rest)

  -- `traverse` of the first state. The chain of no state is never traversed.
  unfoldable pub traverse :
      (fs : List (Filter c)) → Chain c fs → Env c → World → FilterStateResult c × Chain c fs × World
  unfolding advance push_chain process_fragment_filter process_node_filter
  traverse [] states in_env w = (new_result c, states, w)
  traverse (feature_filter process ∷ fs) (s, rest) in_env w =
      let out = process s.in_features (advance in_env) w in
      let s' : FilterState c = record s { in_features = []; current_env = some out.1 } in
      elim (is_nonempty fs) [
        | false ↦ (new_result c, (s', rest), out.2)
        | true ↦ elim (is_nonempty out.0) [
          | false ↦ (no_data c (feature_filter process), (s', rest), out.2)
          | true ↦
              let r = traverse fs (push_chain fs (features out.0) rest) out.1 out.2 in
              (r.0, (s', r.1), r.2)
        ]
      ]
  traverse (fragment_filter p q ∷ fs) (s, rest) in_env w = elim (is_nonempty fs) [
    | false ↦ (
      new_result c,
      (record s { in_features = []; in_fragments = []; current_env = some (advance in_env) }, rest),
      w,
    )
    | true ↦
        let out = process_fragment_filter p q s (advance in_env) w in
        let s' : FilterState c = record s {
          in_features = [];
          in_fragments = [];
          current_env = some out.1;
        } in
        elim (is_nonempty out.0) [
          | false ↦ (no_data c (fragment_filter p q), (s', rest), out.2)
          | true ↦
              let r = traverse fs (push_chain fs (fragments out.0) rest) out.1 out.2 in
              (r.0, (s', r.1), r.2)
        ]
  ]
  traverse (node_filter p q r ∷ fs) (s, rest) in_env w =
      let out = process_node_filter p q r s (advance in_env) w in
      let s' : FilterState c = record s {
        in_features = [];
        in_fragments = [];
        in_nodes = [];
        out_nodes = out.0;
        current_env = some out.1;
      } in
      elim (is_nonempty fs) [
        | false ↦ (new_result c, (s', rest), out.2)
        | true ↦ elim (is_nonempty out.0) [
          | false ↦ (no_data c (node_filter p q r), (s', rest), out.2)
          | true ↦
              let t = traverse fs (push_chain fs (nodes out.0) rest) out.1 out.2 in
              (t.0, (record s' { out_nodes = [] }, t.1), t.2)
        ]
      ]
  traverse (collection_filter m ∷ fs) (s, rest) in_env w =
      (new_result c, (record s { current_env = some (advance in_env) }, rest), w)
