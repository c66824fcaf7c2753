-- ===== src/Reader/Refines.antt =====
-- The reader never faults, keeps its bound, and returns what reading the file would
-- (src/osgGIS/SmartReadCallback.cpp).
use mathlib.Core.Path.{subst}
use osggis.Base.{
  ℕ, suc, ◌≤◌, ◌<◌, ◌≡◌, ◌≢◌, refl, sym, ap, ◌∙◌, false, leb, Option, none, some, List, [], ◌∷◌,
  ◌++◌, length, length-append, ◌>>=◌, In, In-right, arith, Bool-cases, Option-cases, List-cases,
  some-inj, inl, inr, Bytes, bytes_eq, bytes_eq_iff,
}
use osggis.Reader.Defs.{
  NodeRef, SmartReadCallback, new_reader, put, touch, load_node, look_up, trim_cache,
  read_node_file, newest,
}
use osggis.Reader.Recent.{IsSorted, AllBefore, later}
use osggis.Reader.Transparent.{IsKept, put_other, touch-IsFound, load-IsFound, past_now, past_suc}

module _ (Node : Type 0) (read : Bytes → Option Node) where
  abbrev Kept : SmartReadCallback Node → ℕ → Type 0
  Kept s last = IsKept Node read s last

  bytes-apart : (f g : Bytes) → f ≢ g → bytes_eq f g ≡ false
  bytes-apart f g ne = elim (Bool-cases (bytes_eq f g)) [
    | inl t ↦ absurd (ne ((bytes_eq_iff f g).0 t))
    | inr t ↦ t
  ]

  Kept-without_oldest :
      (s : SmartReadCallback Node) (now : ℕ) (oldest : NodeRef Node) (rest : List (NodeRef Node))
      → Kept s now
      → s.mru ≡ oldest ∷ rest
      → Kept (record s { mru = rest; node_map = put Node oldest.name none s.node_map }) now
  Kept-without_oldest s now oldest rest i e =
      let there = λ (n : NodeRef Node) (j : In n rest). subst (In n) (sym e) (inr j) in
      let sorted = subst (IsSorted Node) e i.sorted in
      let o = i.mapped oldest (subst (In oldest) (sym e) (inl refl)) in
      let other = λ (n : NodeRef Node) (j : In n rest) (z : n.name ≡ oldest.name).
        let same = some-inj n oldest (sym (i.mapped n (there n j)) ∙ ap s.node_map z ∙ o) in
        let l = later Node oldest n rest sorted.0 j in
        let z' = ap (λ (x : NodeRef Node). x.timestamp) same in absurd {A = ⊥} (omega arith) in
      record {
        named = λ f n h. elim (Bool-cases (bytes_eq f oldest.name)) [
          | inl t ↦ absurd (let z : none ≡ some n = rw t at h in cc)
          | inr t ↦
              let h' : s.node_map f ≡ some n = rw t at h in
              let (a, b, j) = i.named f n h' in
              elim (subst (In n) e j) [
                | inl same ↦ absurd (
                    let z =
                      sym t
                      ∙ (bytes_eq_iff f oldest.name).1
                          (sym a ∙ ap (λ (x : NodeRef Node). x.name) same) in
                    cc)
                | inr k ↦ (a, b, k)
              ]
        ];
        mapped = λ n j.
            put_other Node read oldest.name n.name none s.node_map (other n j)
            ∙ i.mapped n (there n j);
        sorted = sorted.1;
        past = (subst (AllBefore Node (suc now)) e i.past).1;
      }

  -- The new reference stays when the oldest one goes.
  newest-last :
      (ms : List (NodeRef Node)) (n : NodeRef Node) → newest Node (ms ++ (n ∷ [])) ≡ some n.node
  newest-last [] n = refl
  newest-last (m ∷ []) n = refl
  newest-last (m ∷ k ∷ ms) n = newest-last (k ∷ ms) n

  -- Between two calls the set is smaller than the size of the cache.
  pub record IsCache (s : SmartReadCallback Node) (last : ℕ) : Type 0 where
    pub kept : IsKept Node read s last
    pub small : length s.mru < s.max_cache_size

  abbrev IsTrimmed :
      SmartReadCallback Node → ℕ → NodeRef Node → Option (SmartReadCallback Node) → Type 0
  IsTrimmed s now n o =
      (s' : SmartReadCallback Node) × (o ≡ some s')
      × IsCache s' now
      × (s'.max_cache_size ≡ s.max_cache_size)
      × (newest Node s'.mru ≡ some n.node)

  trim_cache-IsTrimmed :
      (s : SmartReadCallback Node) (now : ℕ) (n : NodeRef Node) (rest : List (NodeRef Node))
      → Kept s now
      → s.mru ≡ rest ++ (n ∷ [])
      → 2 ≤ s.max_cache_size
      → length rest < s.max_cache_size
      → IsTrimmed s now n (trim_cache Node (some n) s)
  unfolding trim_cache
  trim_cache-IsTrimmed s now n rest i e two small =
      let len = ap length e ∙ length-append rest (n ∷ []) in
      let new = ap (newest Node) e ∙ newest-last rest n in
      elim (Bool-cases (leb s.max_cache_size (length s.mru))) [
        | inr t ↦ (s, rw t refl, record { kept = i; small = ground arith }, refl, new)
        | inl t ↦ elim (List-cases rest) [
          | inl none_left ↦ absurd (let z = ap length none_left in ground arith)
          | inr (oldest, more, e') ↦
              let all : s.mru ≡ oldest ∷ (more ++ (n ∷ [])) = e ∙ ap (λ z. z ++ (n ∷ [])) e' in
              let o = i.mapped oldest (subst (In oldest) (sym all) (inl refl)) in
              let last =
                i.mapped n (subst (In n) (sym all) (inr (In-right n more (n ∷ []) (inl refl)))) in
              let sorted = subst (IsSorted Node) all i.sorted in
              let l =
                later Node oldest n (more ++ (n ∷ [])) sorted.0
                  (In-right n more (n ∷ []) (inl refl)) in
              let apart = λ (z : oldest.name ≡ n.name).
                let same = some-inj oldest n (sym o ∙ ap s.node_map z ∙ last) in
                let z' = ap (λ (x : NodeRef Node). x.timestamp) same in
                absurd {A = ⊥} (omega arith) in
              let f = bytes-apart oldest.name n.name apart in
              let k = ap length all in
              let k' = ap length e' in
              let k'' = length-append more (n ∷ []) in
              (
                record s {
                  mru = more ++ (n ∷ []);
                  node_map = put Node oldest.name none s.node_map;
                },
                rw (t, all, o, ◌>>=◌, f) refl,
                record {
                  kept = Kept-without_oldest s now oldest (more ++ (n ∷ [])) i all;
                  small = omega arith;
                },
                refl,
                newest-last more n,
              )
        ]
      ]

  -- A new reader of a size above 0 has the invariant.
  pub new_reader-IsCache :
      (size : Option ℕ) (last : ℕ)
      → 0 < (new_reader Node size).max_cache_size
      → IsCache (new_reader Node size) last
  unfolding new_reader
  new_reader-IsCache size last h = record {
    kept = record {
      named = λ f n e. absurd (cc);
      mapped = λ n i. absurd i;
      sorted = tt;
      past = tt;
    };
    small = h;
  }

  -- What a call yields: the node of the file, and the reader.
  abbrev IsRead : SmartReadCallback Node → ℕ → Bytes → SmartReadCallback Node → Type 0
  IsRead s now f s' =
      (read_node_file Node read now f s ≡ some (read f, s'))
      × IsCache s' now
      × (s'.max_cache_size ≡ s.max_cache_size)

  IsRead-failed :
      (s : SmartReadCallback Node) (last now : ℕ) (f : Bytes)
      → IsCache s last
      → last < now
      → s.node_map f ≡ none
      → read f ≡ none
      → IsRead s now f s
  unfolding read_node_file
  IsRead-failed s last now f i l h r =
      let off : leb s.max_cache_size (length s.mru) ≡ false = ground (arith, i.small) in
      (
        rw (h, r, ◌>>=◌, off) refl,
        record {
          kept = record {
            named = i.kept.named;
            mapped = i.kept.mapped;
            sorted = i.kept.sorted;
            past = past_suc Node read now s.mru (past_now Node read last now s.mru l i.kept.past);
          };
          small = i.small;
        },
        refl,
      )

  read_found :
      (s s1 s' : SmartReadCallback Node) (now : ℕ) (f : Bytes) (n : NodeRef Node)
      → look_up Node read now f s ≡ some (some n, s1)
      → read f ≡ some n.node
      → trim_cache Node (some n) s1 ≡ some s'
      → read_node_file Node read now f s ≡ some (read f, s')
  unfolding read_node_file
  read_found s s1 s' now f n h r t = rw (h, ◌>>=◌, t, r) refl

  look_up_load :
      (s : SmartReadCallback Node) (now : ℕ) (f : Bytes) (node : Node)
      (found : Option (NodeRef Node) × SmartReadCallback Node)
      → s.node_map f ≡ none
      → read f ≡ some node
      → load_node Node now (some node) f s ≡ some found
      → look_up Node read now f s ≡ some found
  unfolding look_up
  look_up_load s now f node found h r e = rw (h, look_up, r) e

  look_up-touch :
      (s : SmartReadCallback Node) (now : ℕ) (f : Bytes) (n : NodeRef Node)
      (found : Option (NodeRef Node) × SmartReadCallback Node)
      → s.node_map f ≡ some n
      → touch Node now n f s ≡ some found
      → look_up Node read now f s ≡ some found
  unfolding look_up
  look_up-touch s now f n found h e = rw (h, look_up) e

  -- A reader that has the invariant and a cache of at least two files never faults, if the clock has
  -- moved on since its last call. It returns what reading the file returns, keeps the invariant, by
  -- which it holds fewer files than its size, and keeps its size.
  pub read_node_file-read :
      (s : SmartReadCallback Node) (last now : ℕ) (f : Bytes)
      → IsCache s last
      → last < now
      → 2 ≤ s.max_cache_size
      → (s' : SmartReadCallback Node) × (read_node_file Node read now f s ≡ some (read f, s'))
        × IsCache s' now
        × (s'.max_cache_size ≡ s.max_cache_size)
  read_node_file-read s last now f i l two = elim (Option-cases (s.node_map f)) [
    | inr (n, h) ↦
        let (s1, n1, rest, e, found, len) = touch-IsFound Node read s last now f n i.kept l h in
        let (k, last_is, name, r, size) = found in
        let (s', t, c, same, _) =
          trim_cache-IsTrimmed s1 now n1 rest k last_is (omega (arith, size))
            (omega (arith, i.small, size)) in
        (
          s',
          read_found s s1 s' now f n1 (look_up-touch s now f n (some n1, s1) h e) r t,
          c,
          same ∙ size,
        )
    | inl h ↦ elim (Option-cases (read f)) [
      | inl r ↦ let (a, b, e) = IsRead-failed s last now f i l h r in (s, a, b, e)
      | inr (node, r) ↦
          let (s1, n1, e, found) = load-IsFound Node read s last now f node i.kept l h r in
          let (k, last_is, name, r', size) = found in
          let (s', t, c, same, _) =
            trim_cache-IsTrimmed s1 now n1 s.mru k last_is (omega (arith, size))
              (omega (arith, i.small, size)) in
          (
            s',
            read_found s s1 s' now f n1 (look_up_load s now f node (some n1, s1) h r e) r' t,
            c,
            same ∙ size,
          )
    ]
  ]
