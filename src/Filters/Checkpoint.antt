-- ===== src/Filters/Checkpoint.antt =====
-- `signalCheckpoint` of FilterState (src/osgGIS/FilterState.cpp) and of CollectionFilterState, with
-- `meterGroups` (src/osgGIS/CollectionFilterState.cpp).
use osggis.Base.{
  is_nonempty, true, false, Option, none, some, List, [], ◌∷◌, ◌&&◌, ◌>>=◌, Bytes, bytes_lt,
}
use osggis.Property.Defs.{new_property}
use osggis.Filters.Env.{set_property}
use osggis.Filters.Chain.{
  Context, Filter, collection_filter, CollectionMethods, FilterStateResult, FilterState, Chain,
  new_result, no_data, is_ok, Batch, features, fragments, nodes, Method, accepts, Env,
}
use osggis.Filters.Traverse.{push_chain, traverse}
use osggis.Filters.Groups.{group_from, meter_data}

module _ (c : Context) where
  open c use {Feature, Fragment, AttributedNode, World}

  -- state->push( partial ); result = state->traverse( env );
  unfoldable pub feed :
      (fs : List (Filter c)) {A : Type 0}
      → (List A → Batch c)
      → Env c
      → List A
      → Chain c fs × World
      → FilterStateResult c × (Chain c fs × World)
  unfolding push_chain traverse
  feed fs batch env input (states, w) =
      let t = traverse c fs (push_chain c fs (batch input) states) env w in (t.0, (t.1, t.2))

  -- env->setProperty( Property( prop, i->first ) ), if there is a property name.
  unfoldable pub name_group : CollectionMethods c → Bytes → Env c → Env c
  unfolding set_property new_property
  name_group m name env = elim (is_nonempty m.group_property_name) [
    | true ↦ set_property (new_property m.group_property_name name) env
    | false ↦ env
  ]

  module _ {A : Type 0} (m : CollectionMethods c) (batch : List A → Batch c) where
    unfoldable pub meter_groups :
        Method c (List A) (List A)
        → (fs : List (Filter c)) → List (Bytes × List A)
        → Env c
        → FilterStateResult c
        → Chain c fs × World
        → FilterStateResult c × (Chain c fs × World)
    unfolding feed meter_data name_group
    meter_groups pre_meter fs [] env r s = (r, s)
    meter_groups pre_meter fs ((name, members) ∷ groups) env r (states, w) = elim (is_ok c r) [
      | false ↦ (r, (states, w))
      | true ↦
          let named = name_group m name env in
          let pre = pre_meter members named w in
          let t =
            meter_data (is_ok c) (feed fs batch pre.1) m.metering (new_result c) pre.0
              (states, pre.2) in
          meter_groups pre_meter fs groups pre.1 t.0 t.1
    ]

    -- One branch of `signalCheckpoint`: the elements are grouped, and the groups metered.
    unfoldable pub meter_collected :
        Method c A Bytes
        → Method c (List A) (List A)
        → (fs : List (Filter c)) → List A
        → Env c
        → Chain c fs × World
        → FilterStateResult c × (Chain c fs × World)
    unfolding group_from bytes_lt meter_groups
    meter_collected assign pre_meter fs input env (states, w) =
        let g = group_from bytes_lt assign input [] env w in
        meter_groups pre_meter fs g.0 g.1 (new_result c) (states, g.2)

  -- The branch of `signalCheckpoint` for the class of the next filter: features go before fragments,
  -- and fragments before nodes, as far as that class can take them. `none` stands for the use of an
  -- environment that is NULL, since the state has never been traversed.
  unfoldable pub meter_input :
      CollectionMethods c
      → (g : Filter c) → (gs : List (Filter c)) → FilterState c
      → Chain c (g ∷ gs) × World
      → Option (FilterStateResult c × (Chain c (g ∷ gs) × World))
  unfolding meter_collected
  meter_input m g gs s next = elim (is_nonempty s.in_features) [
    | true ↦ s.current_env >>= λ env. some (
        meter_collected m features m.assign_feature m.pre_meter_features (g ∷ gs) s.in_features env
          next)
    | false ↦ elim (accepts c g (fragments s.in_fragments) && is_nonempty s.in_fragments) [
      | true ↦ s.current_env >>= λ env. some (
          meter_collected m fragments m.assign_fragment m.pre_meter_fragments (g ∷ gs)
            s.in_fragments env next)
      | false ↦ elim (accepts c g (nodes s.in_nodes) && is_nonempty s.in_nodes) [
        | true ↦ s.current_env >>= λ env.
            some
              (meter_collected m nodes m.assign_node m.pre_meter_nodes (g ∷ gs) s.in_nodes env next)
        | false ↦ some (no_data c (collection_filter m), next)
      ]
    ]
  ]

  unfoldable pub meter_next :
      CollectionMethods c
      → (fs : List (Filter c)) → FilterState c
      → Chain c fs × World
      → Option (FilterStateResult c × (Chain c fs × World))
  unfolding meter_input
  meter_next m [] s next = some (new_result c, next)
  meter_next m (g ∷ gs) s next = meter_input m g gs s next

  -- The end of `signalCheckpoint`, which drops the collected input.
  abbrev pub cleared : FilterState c → FilterState c
  cleared s = record s { in_features = []; in_fragments = []; in_nodes = []; current_env = none }

  unfoldable pub signal_checkpoint :
      (fs : List (Filter c))
      → Chain c fs
      → World
      → Option (FilterStateResult c × (Chain c fs × World))
  unfolding meter_next
  signal_checkpoint [] states w = some (new_result c, (states, w))
  signal_checkpoint (collection_filter m ∷ fs) (s, rest) w = meter_next m fs s (rest, w) >>= λ t.
      (elim (is_ok c t.0) [ true ↦ signal_checkpoint fs t.1.0 t.1.1 | false ↦ some t ]) >>= λ u.
      some (u.0, ((cleared s, u.1.0), u.1.1))
  signal_checkpoint (f ∷ fs) (s, rest) w =
      signal_checkpoint fs rest w >>= λ u. some (u.0, ((s, u.1.0), u.1.1))
