-- ===== src/Filters/Quiet.antt =====
-- What a traversal and a checkpoint leave in the states of a chain (src/osgGIS/*FilterState.cpp), and
-- which statuses they return.
use osggis.Base.{
  is_nonempty, ◌≡◌, refl, Bool, true, false, ◌&&◌, ◌||◌, not, Option, none, some, List, [], ◌∷◌,
  Bool-cases, inl, inr,
}
use osggis.Filters.Chain.{
  Context, Env, Filter, feature_filter, fragment_filter, node_filter, collection_filter,
  FilterState, Chain, Batch, features, fragments, nodes, is_ok,
}
use osggis.Filters.Env.{advance}
use osggis.Filters.Traverse.{traverse, push_chain, process_node_filter, process_fragment_filter}

abbrev pub is_empty {ℓ} : {A : Type ℓ} → List A → Bool
is_empty xs = not (is_nonempty xs)

abbrev is_some {ℓ} : {A : Type ℓ} → Option A → Bool
is_some none = false
is_some (some a) = true

module _ (c : Context) where
  open c use {World}

  -- Nothing waits in the state. A collection may wait for its checkpoint, once it has an environment.
  abbrev pub is_quiet : Filter c → FilterState c → Bool
  is_quiet (feature_filter p) s = is_empty s.in_features
  is_quiet (fragment_filter p q) s = is_empty s.in_features && is_empty s.in_fragments
  is_quiet (node_filter p q r) s =
      is_empty s.in_features && is_empty s.in_fragments && is_empty s.in_nodes
  is_quiet (collection_filter m) s =
      is_some s.current_env
      || is_empty s.in_features && is_empty s.in_fragments && is_empty s.in_nodes

  abbrev pub Quiet : (fs : List (Filter c)) → Chain c fs → Type 0
  Quiet [] states = Unit {0}
  Quiet (f ∷ fs) (s, rest) = (is_quiet f s ≡ true) × Quiet fs rest

  -- The same behind the first state.
  abbrev pub QuietTail : (fs : List (Filter c)) → Chain c fs → Type 0
  QuietTail [] states = Unit {0}
  QuietTail (f ∷ fs) (s, rest) = Quiet fs rest

  pub push_chain-QuietTail :
      (fs : List (Filter c)) (b : Batch c) (states : Chain c fs)
      → Quiet fs states
      → QuietTail fs (push_chain c fs b states)
  unfolding push_chain
  push_chain-QuietTail [] b states q = tt
  push_chain-QuietTail (g ∷ gs) b (s, rest) q = q.1

  -- If behind the first state of a chain nothing waits but at collections that have an environment,
  -- a traversal reports no error, and afterwards nothing waits in the whole chain but at such
  -- collections.
  pub traverse-Quiet :
      (fs : List (Filter c)) (states : Chain c fs) (env : Env c) (w : World)
      → QuietTail fs states
      → (is_ok c (traverse c fs states env w).0 ≡ true) × Quiet fs (traverse c fs states env w).1
  unfolding traverse
  traverse-Quiet [] states env w q = (refl, tt)
  traverse-Quiet (feature_filter p ∷ fs) (s, rest) env w q =
      let out = p s.in_features (advance env) w in
      elim (Bool-cases (is_nonempty fs)) [
        | inl e ↦ elim (Bool-cases (is_nonempty out.0)) [
          | inl e' ↦
              let (o, k) =
                traverse-Quiet fs (push_chain c fs (features out.0) rest) out.1 out.2
                  (push_chain-QuietTail fs (features out.0) rest q) in
              rw (e, e', traverse) (o, (refl, k))
          | inr e' ↦ rw (e, e', traverse) (refl, (refl, q))
        ]
        | inr e ↦ rw (e, traverse) (refl, (refl, q))
      ]
  traverse-Quiet (fragment_filter p q' ∷ fs) (s, rest) env w q =
      let out = process_fragment_filter c p q' s (advance env) w in
      elim (Bool-cases (is_nonempty fs)) [
        | inl e ↦ elim (Bool-cases (is_nonempty out.0)) [
          | inl e' ↦
              let (o, k) =
                traverse-Quiet fs (push_chain c fs (fragments out.0) rest) out.1 out.2
                  (push_chain-QuietTail fs (fragments out.0) rest q) in
              rw (e, e', traverse) (o, (refl, k))
          | inr e' ↦ rw (e, e', traverse) (refl, (refl, q))
        ]
        | inr e ↦ rw (e, traverse) (refl, (refl, q))
      ]
  traverse-Quiet (node_filter p q' r ∷ fs) (s, rest) env w q =
      let out = process_node_filter c p q' r s (advance env) w in
      elim (Bool-cases (is_nonempty fs)) [
        | inl e ↦ elim (Bool-cases (is_nonempty out.0)) [
          | inl e' ↦
              let (o, k) =
                traverse-Quiet fs (push_chain c fs (nodes out.0) rest) out.1 out.2
                  (push_chain-QuietTail fs (nodes out.0) rest q) in
              rw (e, e', traverse) (o, (refl, k))
          | inr e' ↦ rw (e, e', traverse) (refl, (refl, q))
        ]
        | inr e ↦ rw (e, traverse) (refl, (refl, q))
      ]
  traverse-Quiet (collection_filter m ∷ fs) (s, rest) env w q = (refl, (refl, q))
