-- ===== src/Filters/Overwrite.antt =====
-- What the last NodeFilterState of a chain keeps of several traversals (src/osgGIS/NodeFilterState.cpp):
-- `traverse` assigns `out_nodes`, and FilterGraph::computeNodes reads them once, at the end.
use osggis.Base.{is_nonempty, ◌≡◌, refl, ap, ◌∙◌, true, List, [], ◌∷◌, ◌++◌, arith, false}
use osggis.Filters.Env.{advance}
use osggis.Filters.Chain.{
  Context, Env, Filter, node_filter, FilterStateResult, FilterState, Chain, features,
  with_shape_data, push, push_next, Method,
}
use osggis.Filters.Traverse.{traverse, push_chain, process_node_filter}
use osggis.Filters.Checkpoint.{feed}
use osggis.Filters.Quiet.{Quiet}
use osggis.Filters.Drain.{feed-Quiet}
use osggis.Filters.Metering.{feed_all}

nil_of_empty : {A : Type 0} (xs : List A) → is_nonempty xs ≡ false → xs ≡ []
nil_of_empty [] h = refl
nil_of_empty (x ∷ xs) h = ground arith

module _ (c : Context) (p : Method c (List c.Feature) (List c.AttributedNode))
    (q : Method c (List c.Fragment) (List c.AttributedNode))
    (r : Method c (List c.AttributedNode) (List c.AttributedNode)) (env : Env c) where
  open c use {Feature, World}

  abbrev last_filter : List (Filter c)
  last_filter = node_filter p q r ∷ []

  process_node_filter-features :
      (s : FilterState c) (w : World)
      → is_nonempty s.in_features ≡ true
      → process_node_filter c p q r s (advance env) w ≡ p s.in_features (advance env) w
  unfolding process_node_filter
  process_node_filter-features s w h = rw (h, process_node_filter) refl

  feed-out_nodes :
      (b : List Feature) (next : Chain c last_filter × World)
      → Quiet c last_filter next.0
      → is_nonempty (with_shape_data c b) ≡ true
      → (feed c last_filter features env b next).1.0.0.out_nodes
        ≡ (p (with_shape_data c b) (advance env) next.1).0
  unfolding feed traverse push_chain push_next push process_node_filter
  feed-out_nodes b ((s, rest), w) quiet h =
      let e = nil_of_empty s.in_features (ground arith) in
      let sum : s.in_features ++ with_shape_data c b ≡ with_shape_data c b = rw e refl in
      let s' = push c (features b) s in
      ap (λ t. t.0) (process_node_filter-features s' w (rw sum h))
      ∙ ap (λ xs. (p xs (advance env) w).0) sum

  -- Of all batches that are fed to a chain of one NodeFilter in which nothing waits, the last of
  -- which has a feature with shape data, the output at the end holds what the filter made of the
  -- last one alone.
  pub feed_all-out_nodes :
      (bs : List (List Feature)) (b : List Feature) (res : FilterStateResult c)
      (next : Chain c last_filter × World)
      → Quiet c last_filter next.0
      → is_nonempty (with_shape_data c b) ≡ true
      → let step = feed c last_filter features env in
        let before = feed_all step bs res next in
        (feed_all step (bs ++ (b ∷ [])) res next).1.0.0.out_nodes
        ≡ (p (with_shape_data c b) (advance env) before.1.1).0
  unfolding feed_all
  feed_all-out_nodes [] b res next quiet h = feed-out_nodes b next quiet h
  feed_all-out_nodes (b' ∷ bs) b res next quiet h =
      let t = feed c last_filter features env b' next in
      feed_all-out_nodes bs b t.0 t.1 (feed-Quiet c last_filter features env b' next quiet).1 h
