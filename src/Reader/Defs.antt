-- ===== src/Reader/Defs.antt =====
-- SmartReadCallback (src/osgGIS/SmartReadCallback, src/osgGIS/SmartReadCallback.cpp). osgDB's
-- readNodeFile and the tick of the timer are parameters; a NodeRef, which the map and the set share,
-- has its time stamp in both. `none` is a fault: an iterator at the end, or a use of a NodeRef that
-- has been freed.
use osggis.Base.{
  ℕ, suc, Bool, false, ◌==◌, ltb, leb, Option, none, some, List, [], ◌∷◌, length, if◌then◌else◌,
  ◌>>=◌, Bytes, bytes_eq,
}

module _ (Node : Type 0) where
  pub record NodeRef : Type 0 where
    pub name : Bytes
    pub node : Node
    pub timestamp : ℕ

  -- NodeMap, by name; the map is the only owner of its references.
  abbrev pub NodeMap : Type 0
  NodeMap = Bytes → Option NodeRef

  -- The set is ordered by time stamps.
  pub record SmartReadCallback : Type 0 where
    pub mru : List NodeRef
    pub node_map : NodeMap
    pub max_cache_size : ℕ
    pub mru_node : Option Node
    pub mru_tries : ℕ
    pub mru_hits : ℕ

  -- The size from the environment, if it has one.
  abbrev pub cache_size : Option ℕ → ℕ
  cache_size none = 500
  cache_size (some size) = if ltb 2000 size then 2000 else size

  unfoldable pub new_reader : Option ℕ → SmartReadCallback
  new_reader size = record {
    mru = [];
    node_map = λ name. none;
    max_cache_size = cache_size size;
    mru_node = none;
    mru_tries = 0;
    mru_hits = 0;
  }

  abbrev pub put : Bytes → Option NodeRef → NodeMap → NodeMap
  put name n map key = if bytes_eq key name then n else map key

  -- mru.insert( n ): nothing happens if the set has the time stamp.
  unfoldable pub insert_ref : NodeRef → List NodeRef → List NodeRef
  insert_ref n [] = n ∷ []
  insert_ref n (m ∷ ms) =
      let rest = insert_ref n ms in
      if ltb n.timestamp m.timestamp
      then n ∷ m ∷ ms
      else (if ltb m.timestamp n.timestamp then m ∷ rest else m ∷ ms)

  -- mru.erase( mru.find( n ) )
  unfoldable pub erase_stamp : ℕ → List NodeRef → Option (List NodeRef)
  erase_stamp stamp [] = none
  erase_stamp stamp (m ∷ ms) =
      let rest = erase_stamp stamp ms in
      if m.timestamp == stamp then some ms else (rest >>= λ r. some (m ∷ r))

  -- The reference that a file has got, and the reader with it.
  abbrev pub Found : Type 0
  Found = Option NodeRef × SmartReadCallback

  -- A file of the cache: its time stamp changes.
  unfoldable pub touch : ℕ → NodeRef → Bytes → SmartReadCallback → Option Found
  unfolding insert_ref erase_stamp
  touch now n filename s = erase_stamp n.timestamp s.mru >>= λ mru.
      let n' = record n { timestamp = now } in
      some (
        some n',
        record s { mru = insert_ref n' mru; node_map = put filename (some n') s.node_map },
      )

  -- Another file is read.
  abbrev pub load_node : ℕ → Option Node → Bytes → SmartReadCallback → Option Found
  load_node now none filename s = some (none, s)
  load_node now (some node) filename s =
      let n : NodeRef = record { name = filename; node = node; timestamp = now } in
      some
        (some n, record s { mru = insert_ref n s.mru; node_map = put filename (some n) s.node_map })

  unfoldable pub look_up : (Bytes → Option Node) → ℕ → Bytes → SmartReadCallback → Option Found
  unfolding touch
  look_up read now filename s = elim (s.node_map filename) [
    | some n ↦ touch now n filename s
    | none ↦ load_node now (read filename) filename s
  ]

  -- The name of a reference that has been freed is that of the one returned.
  abbrev pub is_freed : NodeRef → Option NodeRef → Bool
  is_freed oldest none = false
  is_freed oldest (some n) = bytes_eq oldest.name n.name

  abbrev pub erase_oldest :
      Option NodeRef → List NodeRef → SmartReadCallback → Option SmartReadCallback
  erase_oldest n [] s = none
  erase_oldest n (oldest ∷ rest) s = s.node_map oldest.name >>= λ m.
      if is_freed oldest n
      then none
      else some (record s { mru = rest; node_map = put oldest.name none s.node_map })

  -- The removal of the oldest item when the cache overflows.
  unfoldable pub trim_cache : Option NodeRef → SmartReadCallback → Option SmartReadCallback
  trim_cache n s = if leb s.max_cache_size (length s.mru) then erase_oldest n s.mru s else some s

  abbrev pub node_of : Option NodeRef → Option Node
  node_of none = none
  node_of (some n) = some n.node

  unfoldable pub read_node_file :
      (Bytes → Option Node)
      → ℕ
      → Bytes
      → SmartReadCallback
      → Option (Option Node × SmartReadCallback)
  unfolding look_up trim_cache
  read_node_file read now filename s = look_up read now filename s >>= λ found.
      trim_cache found.0 found.1 >>= λ s'. some (node_of found.0, s')

  abbrev pub newest : List NodeRef → Option Node
  newest [] = none
  newest (n ∷ []) = some n.node
  newest (n ∷ m ∷ ms) = newest (m ∷ ms)

  -- The node given, or that of the newest reference.
  abbrev pub node_or_newest : Option Node → List NodeRef → Option Node
  node_or_newest (some n) mru = some n
  node_or_newest none mru = newest mru

  abbrev pub placed : (Node → Node) → Option Node → Option Node
  placed world none = none
  placed world (some n) = some (world n)

  -- With the transform that is put around a node, `world`.
  unfoldable pub set_mru_node : (Node → Node) → Option Node → SmartReadCallback → SmartReadCallback
  set_mru_node world node s = record s { mru_node = placed world (node_or_newest node s.mru) }

  -- getMruNodeIfContains; `contains` is the test of the bounds of a node for one or for two points.
  unfoldable pub get_mru_node_if_contains :
      (Node → Bool) → Option Node → SmartReadCallback → Option Node × SmartReadCallback
  get_mru_node_if_contains contains fallback s =
      let tried = record s { mru_tries = suc s.mru_tries } in
      elim s.mru_node [
        | none ↦ (fallback, tried)
        | some n ↦
            if contains n
            then (some n, record tried { mru_hits = suc s.mru_hits })
            else (fallback, tried)
      ]
