-- ===== src/Filters/Drain.antt =====
-- The checkpoint of a filter chain (`signalCheckpoint` in src/osgGIS/FilterState.cpp and
-- src/osgGIS/CollectionFilterState.cpp): it returns, what it leaves behind and its status.
use osggis.Base.{
  is_nonempty, ◌≡◌, refl, Bool, true, false, ◌&&◌, Option, none, some, List, [], ◌∷◌, arith,
  Bool-cases, Option-cases, inl, inr, ◌>>=◌, Bytes, bytes_lt,
}
use osggis.Filters.Chain.{
  Context, Env, Filter, feature_filter, fragment_filter, node_filter, collection_filter,
  CollectionMethods, FilterStateResult, FilterState, Chain, Batch, features, fragments, nodes,
  is_ok, status_none, Method, accepts, new_result, no_data,
}
use osggis.Filters.Traverse.{push_chain}
use osggis.Filters.Groups.{group_from, meter_data}
use osggis.Filters.Checkpoint.{
  feed, cleared, name_group, meter_groups, meter_collected, meter_input, meter_next,
  signal_checkpoint,
}
use osggis.Filters.Quiet.{is_empty, is_quiet, Quiet, push_chain-QuietTail, traverse-Quiet}
use osggis.Filters.Metering.{meter_data_inv}

module _ (c : Context) where
  open c use {World}

  -- No state holds any input; only the output of the last traversal may be there.
  abbrev is_drained : Filter c → FilterState c → Bool
  is_drained (feature_filter p) s = is_empty s.in_features
  is_drained (fragment_filter p q) s = is_empty s.in_features && is_empty s.in_fragments
  is_drained f s = is_empty s.in_features && is_empty s.in_fragments && is_empty s.in_nodes

  abbrev pub Drained : (fs : List (Filter c)) → Chain c fs → Type 0
  Drained [] states = Unit {0}
  Drained (f ∷ fs) (s, rest) = (is_drained f s ≡ true) × Drained fs rest

  abbrev Fine : (fs : List (Filter c)) → FilterStateResult c → Chain c fs × World → Type 0
  Fine fs r next = (is_ok c r ≡ true) × Quiet c fs next.0

  pub feed-Quiet :
      (fs : List (Filter c)) {A : Type 0} (batch : List A → Batch c) (env : Env c) (input : List A)
      (next : Chain c fs × World)
      → Quiet c fs next.0
      → let t = feed c fs batch env input next in (is_ok c t.0 ≡ true) × Quiet c fs t.1.0
  unfolding feed
  feed-Quiet fs batch env input (states, w) q =
      traverse-Quiet c fs (push_chain c fs (batch input) states) env w
        (push_chain-QuietTail c fs (batch input) states q)

  meter_groups-Fine :
      {A : Type 0} (m : CollectionMethods c) (batch : List A → Batch c)
      (pre_meter : Method c (List A) (List A)) (fs : List (Filter c))
      (groups : List (Bytes × List A)) (env : Env c) (r : FilterStateResult c)
      (next : Chain c fs × World)
      → Fine fs r next
      → let t = meter_groups c m batch pre_meter fs groups env r next in Fine fs t.0 t.1
  unfolding meter_groups
  meter_groups-Fine m batch pre_meter fs [] env r next h = h
  meter_groups-Fine m batch pre_meter fs ((name, members) ∷ groups) env r (states, w) h =
      let pre = pre_meter members (name_group c m name env) w in
      let t =
        meter_data (is_ok c) (feed c fs batch pre.1) m.metering (new_result c) pre.0
          (states, pre.2) in
      rw (h.0, meter_groups)
        (meter_groups-Fine m batch pre_meter fs groups pre.1 t.0 t.1 (
          meter_data_inv (is_ok c) (feed c fs batch pre.1) m.metering (Fine fs)
            (λ input r' next i. feed-Quiet fs batch pre.1 input next i.1) pre.0 (new_result c)
            (states, pre.2) (refl, h.1)))

  meter_collected-Fine :
      {A : Type 0} (m : CollectionMethods c) (batch : List A → Batch c) (assign : Method c A Bytes)
      (pre_meter : Method c (List A) (List A)) (fs : List (Filter c)) (input : List A) (env : Env c)
      (next : Chain c fs × World)
      → Quiet c fs next.0
      → let t = meter_collected c m batch assign pre_meter fs input env next in Fine fs t.0 t.1
  unfolding meter_collected
  meter_collected-Fine m batch assign pre_meter fs input env (states, w) q =
      let g = group_from bytes_lt assign input [] env w in
      meter_groups-Fine m batch pre_meter fs g.0 g.1 (new_result c) (states, g.2) (refl, q)

  collecting_env :
      (m : CollectionMethods c) (s : FilterState c)
      → is_quiet c (collection_filter m) s ≡ true
      → (is_empty s.in_features && is_empty s.in_fragments && is_empty s.in_nodes) ≡ false
      → (env : Env c) × (s.current_env ≡ some env)
  collecting_env m s k h = elim (Option-cases s.current_env) [
    | inl o ↦ ground arith
    | inr found ↦ found
  ]

  bind-Fine :
      (fs : List (Filter c)) (o : Option (Env c))
      (f : Env c → FilterStateResult c × (Chain c fs × World))
      → (env : Env c) × (o ≡ some env)
      → ((env : Env c) → Fine fs (f env).0 (f env).1)
      → (r : FilterStateResult c) × (next' : Chain c fs × World) × ((o >>= λ env. some (f env))
          ≡ some (r, next'))
        × Fine fs r next'
  bind-Fine fs none f (env, e) h = absurd (ground arith)
  bind-Fine fs (some env) f e h = ((f env).0, (f env).1, refl, h env)

  meter_input-Fine :
      (m : CollectionMethods c) (g : Filter c) (gs : List (Filter c)) (s : FilterState c)
      (next : Chain c (g ∷ gs) × World)
      → is_quiet c (collection_filter m) s ≡ true
      → Quiet c (g ∷ gs) next.0
      → (r : FilterStateResult c) × (next' : Chain c (g ∷ gs) × World) × (meter_input c m g gs s
            next
          ≡ some (r, next'))
        × Fine (g ∷ gs) r next'
  unfolding meter_input
  meter_input-Fine m g gs s next k q = elim (Bool-cases (is_nonempty s.in_features)) [
    | inl e ↦
        rw (e, meter_input)
          (bind-Fine (g ∷ gs) s.current_env _ (collecting_env m s k (ground arith)) λ env.
            meter_collected-Fine m features m.assign_feature m.pre_meter_features (g ∷ gs)
              s.in_features env next q)
    | inr e ↦
        elim (Bool-cases (accepts c g (fragments s.in_fragments) && is_nonempty s.in_fragments)) [
          | inl e' ↦
              rw (e, e', meter_input)
                (bind-Fine (g ∷ gs) s.current_env _ (collecting_env m s k (ground arith)) λ env.
                  meter_collected-Fine m fragments m.assign_fragment m.pre_meter_fragments (g ∷ gs)
                    s.in_fragments env next q)
          | inr e' ↦ elim (Bool-cases (accepts c g (nodes s.in_nodes) && is_nonempty s.in_nodes)) [
            | inl e'' ↦
                rw (e, e', e'', meter_input)
                  (bind-Fine (g ∷ gs) s.current_env _ (collecting_env m s k (ground arith)) λ env.
                    meter_collected-Fine m nodes m.assign_node m.pre_meter_nodes (g ∷ gs) s.in_nodes
                      env next q)
            | inr e'' ↦
                rw (e, e', e'', meter_input)
                  (no_data c (collection_filter m), next, refl, (refl, q))
          ]
        ]
  ]

  meter_next-Fine :
      (m : CollectionMethods c) (fs : List (Filter c)) (s : FilterState c)
      (next : Chain c fs × World)
      → is_quiet c (collection_filter m) s ≡ true
      → Quiet c fs next.0
      → (r : FilterStateResult c) × (next' : Chain c fs × World) × (meter_next c m fs s next
          ≡ some (r, next'))
        × Fine fs r next'
  unfolding meter_next
  meter_next-Fine m [] s next k q = (new_result c, next, refl, (refl, q))
  meter_next-Fine m (g ∷ gs) s next k q = meter_input-Fine m g gs s next k q

  -- A checkpoint of a chain in which nothing waits but at the collections returns, with no use of a
  -- NULL environment. Its status is always STATUS_NONE, also where there was no data, and afterwards
  -- no state holds any input.
  pub signal_checkpoint-Drained :
      (fs : List (Filter c)) (states : Chain c fs) (w : World)
      → Quiet c fs states
      → (r : FilterStateResult c) × (states' : Chain c fs) × (w' : World) × (signal_checkpoint c fs
            states w
          ≡ some (r, (states', w')))
        × (r.status ≡ status_none)
        × Drained fs states'
  unfolding signal_checkpoint
  signal_checkpoint-Drained [] states w q = (new_result c, states, w, refl, refl, tt)
  signal_checkpoint-Drained (collection_filter m ∷ fs) (s, rest) w q =
      let (r, next, e, (o, k)) = meter_next-Fine m fs s (rest, w) q.0 q.1 in
      let (r', states', w', e', n, d) = signal_checkpoint-Drained fs next.0 next.1 k in
      (r', (cleared c s, states'), w', rw (e, signal_checkpoint) (rw (o, e') refl), n, (refl, d))
  signal_checkpoint-Drained (feature_filter p ∷ fs) (s, rest) w q =
      let (r', states', w', e', n, d) = signal_checkpoint-Drained fs rest w q.1 in
      (r', (s, states'), w', rw (e', signal_checkpoint) refl, n, (q.0, d))
  signal_checkpoint-Drained (fragment_filter p p' ∷ fs) (s, rest) w q =
      let (r', states', w', e', n, d) = signal_checkpoint-Drained fs rest w q.1 in
      (r', (s, states'), w', rw (e', signal_checkpoint) refl, n, (q.0, d))
  signal_checkpoint-Drained (node_filter p p' p'' ∷ fs) (s, rest) w q =
      let (r', states', w', e', n, d) = signal_checkpoint-Drained fs rest w q.1 in
      (r', (s, states'), w', rw (e', signal_checkpoint) refl, n, (q.0, d))
