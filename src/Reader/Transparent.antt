-- ===== src/Reader/Transparent.antt =====
-- The reader with its cache against reading each file (src/osgGIS/SmartReadCallback.cpp).
use mathlib.Core.Path.{subst}
use osggis.Base.{
  ℕ, suc, ◌<◌, ◌≡◌, ◌≢◌, refl, sym, ap, ◌∙◌, Option, none, some, List, [], ◌∷◌, ◌++◌, length, ◌>>=◌,
  All-append, All-In, In, In-All, In-append, In-left, In-right, arith, Bool-cases, some-inj, inl,
  inr, Bytes, bytes_eq, bytes_eq_iff, bytes_eq_refl,
}
use osggis.Reader.Defs.{NodeRef, NodeMap, SmartReadCallback, put, touch, load_node}
use osggis.Reader.Recent.{
  IsSorted, AllBefore, insert_ref-last, IsSorted-append, later, erase_stamp-IsErased,
}

module _ (Node : Type 0) (read : Bytes → Option Node) where
  abbrev pub Reader : Type 0
  Reader = SmartReadCallback Node

  abbrev pub Ref : Type 0
  Ref = NodeRef Node

  -- The set and the map have the same references, whose nodes are those of their files, and no time
  -- stamp is after `last`.
  pub record IsKept (s : Reader) (last : ℕ) : Type 0 where
    pub named :
        (f : Bytes) (n : Ref)
        → s.node_map f ≡ some n
        → (n.name ≡ f) × (read f ≡ some n.node) × In n s.mru
    pub mapped : (n : Ref) → In n s.mru → s.node_map n.name ≡ some n
    pub sorted : IsSorted Node s.mru
    pub past : AllBefore Node (suc last) s.mru

  put_same : (f : Bytes) (n : Option Ref) (map : NodeMap Node) → put Node f n map f ≡ n
  put_same f n map = rw (bytes_eq_refl f) refl

  pub put_other :
      (f g : Bytes) (n : Option Ref) (map : NodeMap Node) → g ≢ f → put Node f n map g ≡ map g
  put_other f g n map ne = elim (Bool-cases (bytes_eq g f)) [
    | inl t ↦ absurd (ne ((bytes_eq_iff g f).0 t))
    | inr t ↦ rw t refl
  ]

  pub past_suc : (now : ℕ) (ms : List Ref) → AllBefore Node now ms → AllBefore Node (suc now) ms
  past_suc now [] h = tt
  past_suc now (m ∷ ms) h = (omega (arith, h.0), past_suc now ms h.1)

  pub past_now :
      (last now : ℕ) (ms : List Ref)
      → last < now
      → AllBefore Node (suc last) ms
      → AllBefore Node now ms
  past_now last now [] l h = tt
  past_now last now (m ∷ ms) l h = (omega (arith, h.0), past_now last now ms l h.1)

  sorted_inj :
      (ms : List Ref) (k n : Ref)
      → IsSorted Node ms
      → In k ms
      → In n ms
      → k.timestamp ≡ n.timestamp
      → k ≡ n
  sorted_inj [] k n s i j e = absurd i
  sorted_inj (m ∷ ms) k n s (inl a) (inl b) e = a ∙ sym b
  sorted_inj (m ∷ ms) k n s (inl a) (inr j) e =
      let l = later Node m n ms s.0 j in
      let z = ap (λ (z : Ref). z.timestamp) a in absurd (omega arith)
  sorted_inj (m ∷ ms) k n s (inr i) (inl b) e =
      let l = later Node m k ms s.0 i in
      let z = ap (λ (z : Ref). z.timestamp) b in absurd (omega arith)
  sorted_inj (m ∷ ms) k n s (inr i) (inr j) e = sorted_inj ms k n s.1 i j e

  -- A reference that is newer than all comes to those of other files.
  IsKept-put :
      (s : Reader) (last now : ℕ) (n : Ref) (rest : List Ref)
      → IsKept s last
      → n.timestamp ≡ now
      → read n.name ≡ some n.node
      → IsSorted Node rest
      → AllBefore Node now rest
      → ((k : Ref) → In k rest → In k s.mru × (k.name ≢ n.name))
      → ((k : Ref) → In k s.mru → k.name ≢ n.name → In k rest)
      → IsKept
          (record s { mru = rest ++ (n ∷ []); node_map = put Node n.name (some n) s.node_map })
          now
  IsKept-put s last now n rest i at r sorted before from to = record {
    named = λ f m e. elim (Bool-cases (bytes_eq f n.name)) [
      | inl t ↦
          let same = (bytes_eq_iff f n.name).0 t in
          let m' : n ≡ m = some-inj n m (
            sym (put_same n.name (some n) s.node_map)
            ∙ ap (put Node n.name (some n) s.node_map) (sym same)
            ∙ e) in
          let g = λ (z : Ref). (z.name ≡ f) × (read f ≡ some z.node) × In z (rest ++ (n ∷ [])) in
          subst g m' (sym same, ap read same ∙ r, In-right n rest (n ∷ []) (inl refl))
      | inr t ↦
          let ne : f ≢ n.name = λ z. absurd (let y = sym t ∙ (bytes_eq_iff f n.name).1 z in cc) in
          let (a, b, c) = i.named f m (sym (put_other n.name f (some n) s.node_map ne) ∙ e) in
          (a, b, In-left m rest (n ∷ []) (to m c (λ z. ne (sym a ∙ z))))
    ];
    mapped = λ m j. elim (In-append m rest (n ∷ []) j) [
      | inl k ↦
          let (a, ne) = from m k in put_other n.name m.name (some n) s.node_map ne ∙ i.mapped m a
      | inr k ↦ elim k [
        | inl e ↦
            ap (λ (z : Ref). put Node n.name (some n) s.node_map z.name) e
            ∙ put_same n.name (some n) s.node_map
            ∙ ap some (sym e)
        | inr e ↦ absurd e
      ]
    ];
    sorted =
        IsSorted-append Node n rest (subst (λ z. AllBefore Node z rest) (sym at) before) sorted;
    past =
        All-append (λ (k : Ref). k.timestamp < suc now) rest (n ∷ []) (past_suc now rest before)
          (omega arith, tt);
  }

  -- The file has been found or read: the reader, and what the set was before the new reference.
  abbrev pub IsFound : Reader → ℕ → Bytes → Reader → List Ref → Ref → Type 0
  IsFound s now f s' rest n =
      IsKept s' now
      × (s'.mru ≡ rest ++ (n ∷ []))
      × (n.name ≡ f)
      × (read f ≡ some n.node)
      × (s'.max_cache_size ≡ s.max_cache_size)

  pub touch-IsFound :
      (s : Reader) (last now : ℕ) (f : Bytes) (n : Ref)
      → IsKept s last
      → last < now
      → s.node_map f ≡ some n
      → (s' : Reader) × (n' : Ref) × (rest : List Ref) × (touch Node now n f s ≡ some (some n', s'))
        × IsFound s now f s' rest n'
        × (length s.mru ≡ suc (length rest))
  unfolding touch
  touch-IsFound s last now f n i l h =
      let (name, r, j) = i.named f n h in
      let (rest, erased) = erase_stamp-IsErased Node n s.mru i.sorted j in
      let (e, len, sorted, from, to) = erased in
      let n' : Ref = record n { timestamp = now } in
      let before = past_in rest (λ k m. (from k m).0) in
      let kept =
        IsKept-put s last now n' rest i refl (ap read name ∙ r) sorted before
          (λ k m.
            let (a, ne) = from k m in
            (
              a,
              λ z. ne (
                  ap (λ (z : Ref). z.timestamp)
                    (some-inj k n (sym (i.mapped k a) ∙ ap s.node_map (z ∙ name) ∙ h))),
            ))
          (λ k a ne.
            to k a (λ z. ne (ap (λ (z : Ref). z.name) (sorted_inj s.mru k n i.sorted a j z)))) in
      let s' : Reader = record s {
        mru = rest ++ (n' ∷ []);
        node_map = put Node n'.name (some n') s.node_map;
      } in
      (
        s',
        n',
        rest,
        rw (e, ◌>>=◌, insert_ref-last Node n' rest before, name) refl,
        (kept, refl, name, r, refl),
        len,
      )
    where
      past_in : (ms : List Ref) → ((k : Ref) → In k ms → In k s.mru) → AllBefore Node now ms
      past_in ms f =
          All-In (λ (k : Ref). k.timestamp < now) ms
            (λ k i'.
              In-All (λ (k : Ref). k.timestamp < now) k s.mru (past_now last now s.mru l i.past)
                (f k i'))

  pub load-IsFound :
      (s : Reader) (last now : ℕ) (f : Bytes) (node : Node)
      → IsKept s last
      → last < now
      → s.node_map f ≡ none
      → read f ≡ some node
      → (s' : Reader) × (n' : Ref) × (load_node Node now (some node) f s ≡ some (some n', s'))
        × IsFound s now f s' s.mru n'
  load-IsFound s last now f node i l h r =
      let n : Ref = record { name = f; node = node; timestamp = now } in
      let before = past_now last now s.mru l i.past in
      let apart = λ (k : Ref) (j : In k s.mru) (z : k.name ≡ f).
        absurd {A = ⊥} (let y : some k ≡ none = sym (i.mapped k j) ∙ ap s.node_map z ∙ h in cc) in
      let kept =
        IsKept-put s last now n s.mru i refl r i.sorted before (λ k j. (j, apart k j))
          (λ k j ne. j) in
      let s' : Reader = record s {
        mru = s.mru ++ (n ∷ []);
        node_map = put Node f (some n) s.node_map;
      } in
      (s', n, rw (insert_ref-last Node n s.mru before) refl, (kept, refl, refl, r, refl))
