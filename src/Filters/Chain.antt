-- ===== src/Filters/Chain.antt =====
-- The states of a filter chain: FilterState, FilterStateResult (src/osgGIS/FilterState,
-- src/osgGIS/FilterState.cpp) and the fields and `push` methods of FeatureFilterState,
-- FragmentFilterState, NodeFilterState and CollectionFilterState (src/osgGIS/*FilterState.cpp).
-- What the virtual methods of a filter compute is a parameter of the model: a function of the input,
-- the environment and a `World` that holds whatever filters keep and share; it returns the new ones.
use osggis.Base.{ℕ, Bool, true, false, Option, none, some, List, [], ◌∷◌, ◌++◌, Bytes}
use osggis.Filters.Env.{FilterEnv}

-- What the chain takes from the rest of the program: the types of features, fragments and nodes,
-- those of the fields of a FilterEnv, and the virtual method `hasShapeData` of a feature.
pub record Context : Type 1 where
  pub Feature : Type 0
  pub Fragment : Type 0
  pub AttributedNode : Type 0
  pub Srs : Type 0
  pub Rest : Type 0
  pub World : Type 0
  pub has_shape_data : Feature → Bool

-- Property values are strings here.
abbrev pub Env : Context → Type 0
Env c = FilterEnv c.Srs c.Rest Bytes

module _ (c : Context) where
  open c use {Feature, Fragment, AttributedNode, World}

  -- A virtual method of a filter.
  abbrev pub Method : Type 0 → Type 0 → Type 0
  Method A B = A → Env c → World → B × Env c × World

  pub record CollectionMethods : Type 0 where
    pub assign_feature : Method Feature Bytes
    pub assign_fragment : Method Fragment Bytes
    pub assign_node : Method AttributedNode Bytes
    pub pre_meter_features : Method (List Feature) (List Feature)
    pub pre_meter_fragments : Method (List Fragment) (List Fragment)
    pub pre_meter_nodes : Method (List AttributedNode) (List AttributedNode)
    -- `getMetering`, as the `unsigned int` to which `meterGroups` converts it.
    pub metering : ℕ
    pub group_property_name : Bytes

  -- A filter by its kind, with its methods. A FragmentFilter has one for each kind of input, and so
  -- has a NodeFilter.
  pub data Filter : Type 0 where
    feature_filter : Method (List Feature) (List Feature) → Filter
    fragment_filter :
        Method (List Feature) (List Fragment) → Method (List Fragment) (List Fragment) → Filter
    node_filter :
        Method (List Feature) (List AttributedNode)
        → Method (List Fragment) (List AttributedNode)
        → Method (List AttributedNode) (List AttributedNode)
        → Filter
    collection_filter : CollectionMethods → Filter

  pub data Status : Type 0 where
    status_none status_error status_nodata : Status

  -- The message is empty wherever a filter state sets a status.
  pub record FilterStateResult : Type 0 where
    pub status : Status
    pub filter : Option Filter

  -- The fields of a state, of all four classes. A class leaves those that it lacks alone.
  pub record FilterState : Type 0 where
    pub in_features : List Feature
    pub in_fragments : List Fragment
    pub in_nodes : List AttributedNode
    pub out_nodes : List AttributedNode
    pub current_env : Option (Env c)

  -- The states of a chain of filters: the state of the first one and `next_state`.
  abbrev pub Chain : List Filter → Type 0
  Chain [] = Unit {0}
  Chain (f ∷ fs) = FilterState × Chain fs

  abbrev pub new_state : FilterState
  new_state = record {
    in_features = [];
    in_fragments = [];
    in_nodes = [];
    out_nodes = [];
    current_env = none;
  }

  abbrev pub is_ok : FilterStateResult → Bool
  is_ok r = elim r.status [ status_error ↦ false | _ ↦ true ]

  abbrev pub is_no_data : FilterStateResult → Bool
  is_no_data r = elim r.status [ status_nodata ↦ true | _ ↦ false ]

  abbrev pub new_result : FilterStateResult
  new_result = record { status = status_none; filter = none }

  abbrev pub no_data : Filter → FilterStateResult
  no_data f = record { status = status_nodata; filter = some f }

  -- What is pushed into a state.
  pub data Batch : Type 0 where
    features : List Feature → Batch
    fragments : List Fragment → Batch
    nodes : List AttributedNode → Batch

  -- Only features with shape data are taken, by every class.
  unfoldable pub with_shape_data : List Feature → List Feature
  with_shape_data [] = []
  with_shape_data (f ∷ fs) = elim (c.has_shape_data f) [
    | true ↦ f ∷ with_shape_data fs
    | false ↦ with_shape_data fs
  ]

  unfoldable pub push : Batch → FilterState → FilterState
  unfolding with_shape_data
  push (features input) s = record s { in_features = s.in_features ++ with_shape_data input }
  push (fragments input) s = record s { in_fragments = s.in_fragments ++ input }
  push (nodes input) s = record s { in_nodes = s.in_nodes ++ input }

  -- The `dynamic_cast` ladders before a push: which classes have a `push` for which batch.
  abbrev pub accepts : Filter → Batch → Bool
  accepts (feature_filter p) (features input) = true
  accepts (feature_filter p) _ = false
  accepts (fragment_filter p q) (nodes input) = false
  accepts (fragment_filter p q) _ = true
  accepts (node_filter p q r) _ = true
  accepts (collection_filter m) _ = true

  unfoldable pub push_next : (f : Filter) → Batch → FilterState → FilterState
  unfolding push
  push_next f b s = elim (accepts f b) [ true ↦ push b s | false ↦ s ]
