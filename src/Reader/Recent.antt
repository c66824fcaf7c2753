-- ===== src/Reader/Recent.antt =====
-- The set of references by time stamps (src/osgGIS/SmartReadCallback.cpp): erasing one and adding one
-- that is newer than all.
use osggis.Base.{
  ℕ, suc, ◌<◌, ◌≡◌, ◌≢◌, refl, ap, ◌∙◌, true, false, ◌==◌, ==_iff, ltb, some, List, [], ◌∷◌, ◌++◌,
  length, ◌>>=◌, All, In, arith, Bool-cases, inl, inr,
}
use osggis.Reader.Defs.{NodeRef, insert_ref, erase_stamp}

module _ (Node : Type 0) where
  abbrev pub Refs : Type 0
  Refs = List (NodeRef Node)

  -- From the oldest to the newest, without two of one time.
  abbrev pub IsSorted : Refs → Type 0
  IsSorted [] = Unit
  IsSorted (m ∷ ms) = All (λ (k : NodeRef Node). m.timestamp < k.timestamp) ms × IsSorted ms

  abbrev pub AllBefore : ℕ → Refs → Type 0
  AllBefore now ms = All (λ (k : NodeRef Node). k.timestamp < now) ms

  pub insert_ref-last :
      (n : NodeRef Node) (ms : Refs)
      → AllBefore n.timestamp ms
      → insert_ref Node n ms ≡ ms ++ (n ∷ [])
  unfolding insert_ref
  insert_ref-last n [] h = refl
  insert_ref-last n (m ∷ ms) h =
      let t : ltb n.timestamp m.timestamp ≡ false = ground (arith, h.0) in
      let u : ltb m.timestamp n.timestamp ≡ true = ground (arith, h.0) in
      rw (insert_ref-last n ms h.1, t, u) refl

  pub IsSorted-append :
      (n : NodeRef Node) (ms : Refs)
      → AllBefore n.timestamp ms
      → IsSorted ms
      → IsSorted (ms ++ (n ∷ []))
  IsSorted-append n [] h s = (tt, tt)
  IsSorted-append n (m ∷ ms) h s = (after m ms h.0 s.0, IsSorted-append n ms h.1 s.1)
    where
      after :
          (m : NodeRef Node) (ks : Refs)
          → m.timestamp < n.timestamp
          → All (λ (k : NodeRef Node). m.timestamp < k.timestamp) ks
          → All (λ (k : NodeRef Node). m.timestamp < k.timestamp) (ks ++ (n ∷ []))
      after m [] l a = (l, tt)
      after m (k ∷ ks) l a = (a.0, after m ks l a.1)

  -- A member of the rest has a later time.
  pub later :
      (m k : NodeRef Node) (ms : Refs)
      → All (λ (k : NodeRef Node). m.timestamp < k.timestamp) ms
      → In k ms
      → m.timestamp < k.timestamp
  later m k [] h i = absurd i
  later m k (x ∷ ms) h (inl e) = rw e (h.0)
  later m k (x ∷ ms) h (inr i) = later m k ms h.1 i

  -- What is left when a member is erased.
  abbrev pub IsErased : NodeRef Node → Refs → Refs → Type 0
  IsErased n ms rest =
      (erase_stamp Node n.timestamp ms ≡ some rest)
      × (length ms ≡ suc (length rest))
      × IsSorted rest
      × ((k : NodeRef Node) → In k rest → In k ms × (k.timestamp ≢ n.timestamp))
      × ((k : NodeRef Node) → In k ms → k.timestamp ≢ n.timestamp → In k rest)

  pub erase_stamp-IsErased :
      (n : NodeRef Node) (ms : Refs) → IsSorted ms → In n ms → (rest : Refs) × IsErased n ms rest
  unfolding erase_stamp
  erase_stamp-IsErased n [] s i = absurd i
  erase_stamp-IsErased n (m ∷ ms) s i = elim (Bool-cases (m.timestamp == n.timestamp)) [
    | inl t ↦
        let at = (==_iff m.timestamp n.timestamp).0 t in
        (
          ms,
          (
            rw (t, erase_stamp) refl,
            refl,
            s.1,
            λ k j. let l = later m k ms s.0 j in (inr j, λ e. absurd (omega arith)),
            λ k j ne. elim j [
              | inl e ↦ absurd (ne (ap (λ (z : NodeRef Node). z.timestamp) e ∙ at))
              | inr l ↦ l
            ],
          ),
        )
    | inr t ↦ elim i [
      | inl e ↦ absurd (let z = ap (λ (z : NodeRef Node). z.timestamp) e in ground arith)
      | inr j ↦
          let (rest, erased) = erase_stamp-IsErased n ms s.1 j in
          let (e, len, sorted, from, to) = erased in
          (
            m ∷ rest,
            (
              rw (t, erase_stamp, e, ◌>>=◌) refl,
              ap suc len,
              (kept m rest (λ k l. later m k ms s.0 (from k l).0), sorted),
              λ k l. elim l [
                | inl e' ↦ (
                  inl e',
                  λ z. absurd (let y = ap (λ (z : NodeRef Node). z.timestamp) e' in ground arith),
                )
                | inr l' ↦ let (a, b) = from k l' in (inr a, b)
              ],
              λ k l ne. elim l [ inl e' ↦ inl e' | inr l' ↦ inr (to k l' ne) ],
            ),
          )
    ]
  ]
    where
      kept :
          (m : NodeRef Node) (ks : Refs)
          → ((k : NodeRef Node) → In k ks → m.timestamp < k.timestamp)
          → All (λ (k : NodeRef Node). m.timestamp < k.timestamp) ks
      kept m [] f = tt
      kept m (k ∷ ks) f = (f k (inl refl), kept m ks (λ z l. f z (inr l)))
