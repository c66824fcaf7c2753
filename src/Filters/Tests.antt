-- ===== src/Filters/Tests.antt =====
-- The theorems on filter chains (src/osgGIS/FilterGraph.cpp, src/osgGIS/*FilterState.cpp) at a concrete
-- graph: features, fragments and nodes are numbers, and 0 is a feature without shape data.
use osggis.Base.{
  bytes_eq, is_nonempty, ◌≡◌, refl, ℕ, suc, ◌+◌, true, Bool, Option, some, none, List, [], ◌∷◌,
  ◌++◌, arith, ltb, Bytes, bytes_lt, map,
}
use osggis.Filters.Env.{advance}
use osggis.Filters.Chain.{
  Context, Env, Method, Filter, feature_filter, node_filter, collection_filter, CollectionMethods,
  FilterState, FilterStateResult, Chain, new_state, new_result, features, status_none,
  with_shape_data,
}
use osggis.Filters.Groups.{group_from, meter_data}
use osggis.Filters.Checkpoint.{feed, signal_checkpoint}
use osggis.Filters.Graph.{Prototype, get_filter, compute_nodes, compute_feature_store, ok}
use osggis.Filters.Quiet.{Quiet}
use osggis.Filters.Metering.{Batches, feed_all, meter_data-Batches}
use osggis.Filters.Drain.{Drained, signal_checkpoint-Drained}
use osggis.Filters.Outcome.{
  compute_nodes-ok, compute_nodes-fault, compute_nodes-node_first, compute_feature_store-ok,
}
use osggis.Filters.Assign.{IsGrouping, members, pick, assigned, group_from-groups}
use osggis.Filters.Overwrite.{feed_all-out_nodes}

abbrev numbers : Context
numbers = record {
  Feature = ℕ;
  Fragment = ℕ;
  AttributedNode = ℕ;
  Srs = ℕ;
  Rest = ℕ;
  World = ℕ;
  has_shape_data = ltb 0;
}

abbrev some_env : Env numbers
some_env = record { in_srs = some 1; out_srs = none; properties = []; rest = 0 }

-- Every call adds one to the world.
abbrev next_of : Method numbers (List ℕ) (List ℕ)
next_of xs env w = (map suc xs, env, w + 1)

abbrev kind : Method numbers ℕ Bytes
kind x env w = (x ∷ [], env, w)

abbrev keep : Method numbers (List ℕ) (List ℕ)
keep xs env w = (xs, env, w)

abbrev grouping : CollectionMethods numbers
grouping = record {
  assign_feature = kind;
  assign_fragment = kind;
  assign_node = kind;
  pre_meter_features = keep;
  pre_meter_fragments = keep;
  pre_meter_nodes = keep;
  metering = 2;
  group_property_name = [];
}

abbrev build : Filter numbers
build = node_filter next_of next_of next_of

abbrev graph : List (Filter numbers)
graph = feature_filter next_of ∷ collection_filter grouping ∷ build ∷ []

abbrev collected : FilterState numbers
collected = record (new_state numbers) { in_features = 3 ∷ 4 ∷ 3 ∷ []; current_env = some some_env }

abbrev states : Chain numbers graph
states = (new_state numbers, (collected, (new_state numbers, tt)))

abbrev filled : Chain numbers graph
filled = (record (new_state numbers) { in_features = 5 ∷ [] }, (collected, (new_state numbers, tt)))

states-Quiet : Quiet numbers graph states
states-Quiet = (refl, (refl, (refl, tt)))

signal_checkpoint-Drained_example :
    (r : FilterStateResult numbers) × (states' : Chain numbers graph) × (w' : ℕ)
    × (signal_checkpoint numbers graph states 0 ≡ some (r, (states', w')))
    × (r.status ≡ status_none)
    × Drained numbers graph states'
signal_checkpoint-Drained_example = signal_checkpoint-Drained numbers graph states 0 states-Quiet

abbrev collect : List ℕ → List ℕ → Bool × List ℕ
collect b s = (true, s ++ b)

meter_data-Batches_example :
    (bs : List (List ℕ)) × Batches 2 (5 ∷ 6 ∷ 7 ∷ []) bs
    × (meter_data (λ r. r) collect 2 true (5 ∷ 6 ∷ 7 ∷ []) [] ≡ feed_all collect bs true [])
meter_data-Batches_example =
    meter_data-Batches (λ r. r) collect 2 (λ input s. refl) (5 ∷ 6 ∷ 7 ∷ []) true [] (omega arith)
      refl

group_from-groups_example :
    let out = (group_from bytes_lt kind (3 ∷ 4 ∷ 3 ∷ []) [] some_env 0).0 in
    IsGrouping out
    × (members (3 ∷ []) out ≡ pick (3 ∷ []) (assigned kind (3 ∷ 4 ∷ 3 ∷ []) some_env 0))
group_from-groups_example = group_from-groups kind (3 ∷ 4 ∷ 3 ∷ []) some_env 0 (3 ∷ [])

compute_nodes-ok_example :
    (env' : Option (Env numbers)) × (nodes : List ℕ) × (w' : ℕ) × (compute_nodes numbers graph
        (λ f. f)
        (1 ∷ 2 ∷ [])
        some_env
        0
      ≡ some (ok env', some nodes, w'))
compute_nodes-ok_example = compute_nodes-ok numbers (λ f. f) (1 ∷ 2 ∷ []) some_env 0 graph refl

compute_nodes-fault_example :
    compute_nodes numbers (feature_filter next_of ∷ []) (λ f. f) (1 ∷ []) some_env 0 ≡ none
compute_nodes-fault_example =
    compute_nodes-fault numbers (λ f. f) (1 ∷ []) some_env 0 (feature_filter next_of ∷ []) refl

compute_nodes-node_first_example :
    compute_nodes numbers (build ∷ []) (λ f. f) (1 ∷ []) some_env 0 ≡ some (ok none, some [], 0)
compute_nodes-node_first_example =
    compute_nodes-node_first numbers (λ f. f) (1 ∷ []) some_env 0 build [] refl

compute_feature_store-ok_example :
    (env' : Option (Env numbers)) × (w' : ℕ) × (compute_feature_store numbers next_of
        (feature_filter next_of ∷ [])
        (1 ∷ [])
        some_env
        0
      ≡ some (ok env', w'))
compute_feature_store-ok_example =
    compute_feature_store-ok numbers next_of (feature_filter next_of ∷ []) (1 ∷ []) some_env 0 refl

shapes : with_shape_data numbers (7 ∷ []) ≡ 7 ∷ []
unfolding with_shape_data
shapes = refl

has_shapes : is_nonempty (with_shape_data numbers (7 ∷ [])) ≡ true
unfolding with_shape_data
has_shapes = refl

feed_all-out_nodes_example :
    let step = feed numbers (build ∷ []) features some_env in
    let next : Chain numbers (build ∷ []) × ℕ = ((new_state numbers, tt), 0) in
    let before = feed_all step ((5 ∷ []) ∷ []) (new_result numbers) next in
    (feed_all step ((5 ∷ []) ∷ (7 ∷ []) ∷ []) (new_result numbers) next).1.0.0.out_nodes
    ≡ (next_of (with_shape_data numbers (7 ∷ [])) (advance some_env) before.1.1).0
feed_all-out_nodes_example =
    feed_all-out_nodes numbers next_of next_of next_of some_env ((5 ∷ []) ∷ []) (7 ∷ [])
      (new_result numbers) ((new_state numbers, tt), 0) (refl, tt) has_shapes

abbrev named : ℕ → Prototype numbers
named n = record { name = n ∷ []; filter = build }

unnamed : get_filter numbers (3 ∷ []) (named 1 ∷ named 2 ∷ []) ≡ none
unfolding get_filter bytes_eq
unnamed = refl
