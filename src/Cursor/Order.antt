-- ===== src/Cursor/Order.antt =====
-- A FeatureCursor (src/osgGIS/FeatureCursor.cpp) yields the features of its identifiers in their order,
-- however many it prefetches.
use mathlib.Core.Path.{subst}
use osggis.Base.{
  ℕ, suc, ◌<◌, ◌≡◌, refl, sym, ap, ◌∙◌, is_nonempty, Bool, true, false, none, some, List, [], ◌∷◌,
  ◌++◌, map, length, ltb, leb, append_assoc, arith, Bool-cases, Option-cases, List-cases, inl, inr,
  if◌then◌else◌,
}
use osggis.Cursor.Defs.{
  Source, FeatureCursor, fetched, fetch_loop, prefetch_from, prefetch, reset, new_cursor,
  set_prefetch_size, has_next, next, drain, pop,
}

module _ {Oid Feature : Type 0} where
  -- The features of some identifiers, in order: those that the store has and that match.
  abbrev pub accepted : Source Oid Feature → Bool → List Oid → List Feature
  accepted s exactly [] = []
  accepted s exactly (oid ∷ rest) = elim (fetched s exactly oid) [
    | none ↦ accepted s exactly rest
    | some f ↦ f ∷ accepted s exactly rest
  ]

  -- What a cursor has still to yield.
  abbrev pub remaining : FeatureCursor Oid Feature → List Feature
  remaining c = elim c.store [
    | none ↦ []
    | some s ↦ c.prefetched_results ++ accepted s c.match_exactly c.unread
  ]

  abbrev starved : Source Oid Feature → FeatureCursor Oid Feature → Bool
  starved s c = is_nonempty (accepted s c.match_exactly c.unread)

  -- The prefetch queue is not empty while there is a feature to yield.
  pub record IsPrimed (c : FeatureCursor Oid Feature) : Type 0 where
    pub size : 0 < c.prefetch_size
    pub primed :
        (s : Source Oid Feature)
        → c.store ≡ some s
        → c.prefetched_results ≡ []
        → accepted s c.match_exactly c.unread ≡ []

  accepted-none :
      (s : Source Oid Feature) (exactly : Bool) (oid : Oid) (rest : List Oid)
      → fetched s exactly oid ≡ none
      → accepted s exactly (oid ∷ rest) ≡ accepted s exactly rest
  accepted-none s exactly oid rest o = rw (o, accepted) refl

  accepted-some :
      (s : Source Oid Feature) (exactly : Bool) (oid : Oid) (rest : List Oid) (f : Feature)
      → fetched s exactly oid ≡ some f
      → accepted s exactly (oid ∷ rest) ≡ f ∷ accepted s exactly rest
  accepted-some s exactly oid rest f o = rw (o, accepted) refl

  -- The loop moves features from the identifiers to the queue, and stops with an empty queue only where
  -- no feature is left.
  fetch_loop-accepted :
      (s : Source Oid Feature) (exactly : Bool) (size : ℕ) (rest : List Oid)
      (results : List Feature)
      → let t = fetch_loop s exactly size rest results in
        (t.1 ++ accepted s exactly t.0 ≡ results ++ accepted s exactly rest)
        × (0 < size → t.1 ≡ [] → accepted s exactly t.0 ≡ [])
  unfolding fetch_loop
  fetch_loop-accepted s exactly size [] results = (refl, λ h e. refl)
  fetch_loop-accepted s exactly size (oid ∷ rest) results =
      elim (Bool-cases (ltb (length results) size)) [
        | inl l ↦ elim (Option-cases (fetched s exactly oid)) [
          | inl o ↦
              let (e, p) = fetch_loop-accepted s exactly size rest results in
              let a = sym (accepted-none s exactly oid rest o) in
              rw (l, o, fetch_loop) (e ∙ ap (λ xs. results ++ xs) a, p)
          | inr (f, o) ↦
              let (e, p) = fetch_loop-accepted s exactly size rest (results ++ (f ∷ [])) in
              let a = sym (accepted-some s exactly oid rest f o) in
              rw (l, o, fetch_loop)
                (
                  e
                      ∙ append_assoc results (f ∷ []) (accepted s exactly rest)
                      ∙ ap (λ xs. results ++ xs) a,
                  p,
                )
        ]
        | inr l ↦ rw (l, fetch_loop) (refl, λ h e. absurd (ground (arith, ap length e)))
      ]

  remaining-some :
      (c : FeatureCursor Oid Feature) (s : Source Oid Feature)
      → c.store ≡ some s
      → remaining c ≡ c.prefetched_results ++ accepted s c.match_exactly c.unread
  remaining-some c s o = rw (o, remaining) refl

  remaining-none : (c : FeatureCursor Oid Feature) → c.store ≡ none → remaining c ≡ []
  remaining-none c o = rw (o, remaining) refl

  -- Prefetching changes nothing of what there is to yield, and leaves the queue primed.
  abbrev Refilled : FeatureCursor Oid Feature → FeatureCursor Oid Feature → Type 0
  Refilled c d = IsPrimed d × (remaining d ≡ remaining c) × (d.store ≡ c.store)

  module _ (c : FeatureCursor Oid Feature) (h : 0 < c.prefetch_size) where
    prefetch-none : c.store ≡ none → Refilled c (prefetch c)
    unfolding prefetch
    prefetch-none o =
        let e : prefetch c ≡ c = ap (λ x. prefetch_from x c) o in
        rw e (record { size = h; primed = λ s o' x. ground arith }, refl, refl)

    prefetch-full :
        (s : Source Oid Feature)
        → c.store ≡ some s
        → leb (length c.prefetched_results) 1 ≡ false
        → Refilled c (prefetch c)
    unfolding prefetch
    prefetch-full s o l =
        let e : prefetch c ≡ c = ap (λ x. prefetch_from x c) o ∙ (rw l refl) in
        rw e (
          record { size = h; primed = λ s' o' x. absurd (ground (arith, ap length x)) },
          refl,
          refl,
        )

    prefetch-refill :
        (s : Source Oid Feature)
        → c.store ≡ some s
        → leb (length c.prefetched_results) 1 ≡ true
        → Refilled c (prefetch c)
    unfolding prefetch
    prefetch-refill s o l =
        let t = fetch_loop s c.match_exactly c.prefetch_size c.unread c.prefetched_results in
        let (keep, primed) =
          fetch_loop-accepted s c.match_exactly c.prefetch_size c.unread c.prefetched_results in
        let d : FeatureCursor Oid Feature = record c { unread = t.0; prefetched_results = t.1 } in
        let e : prefetch c ≡ d = ap (λ x. prefetch_from x c) o ∙ (rw l refl) in
        rw e (
          record {
            size = h;
            primed = λ s' o' x.
                let same : s ≡ s' = ground arith in
                subst (λ z. accepted z c.match_exactly t.0 ≡ []) same (primed h x);
          },
          remaining-some d s o ∙ keep ∙ sym (remaining-some c s o),
          refl,
        )

    prefetch-Refilled : Refilled c (prefetch c)
    prefetch-Refilled = elim (Option-cases c.store) [
      | inl o ↦ prefetch-none o
      | inr (s, o) ↦ elim (Bool-cases (leb (length c.prefetched_results) 1)) [
        | inl l ↦ prefetch-refill s o l
        | inr l ↦ prefetch-full s o l
      ]
    ]

  -- A cursor over the identifiers, as it comes from its constructor, has to yield the accepted features
  -- of all of them.
  pub new_cursor-remaining :
      (oids : List Oid) (s : Source Oid Feature) (exactly : Bool)
      → IsPrimed (new_cursor oids (some s) exactly)
        × (remaining (new_cursor oids (some s) exactly) ≡ accepted s exactly oids)
  unfolding new_cursor reset
  new_cursor-remaining oids s exactly =
      let c : FeatureCursor Oid Feature = record {
        at_bof = false;
        oids = oids;
        unread = oids;
        store = some s;
        last_result = none;
        match_exactly = exactly;
        prefetched_results = [];
        prefetch_size = 64;
      } in
      let (p, r, o) = prefetch-Refilled c (omega arith) in
      (record { size = p.size; primed = p.primed }, r)

  has_next-remaining :
      (c : FeatureCursor Oid Feature) → IsPrimed c → has_next c ≡ is_nonempty (remaining c)
  unfolding has_next
  has_next-remaining c p = elim (Option-cases c.store) [
    | inl o ↦ ground (arith, remaining-none c o)
    | inr (s, o) ↦
        let r = remaining-some c s o in
        elim (List-cases c.prefetched_results) [
          | inl n ↦ ground (arith, r, p.primed s o n)
          | inr (f, fs, n) ↦ ground (arith, r)
        ]
  ]

  next-remaining :
      (c : FeatureCursor Oid Feature) (f : Feature) (fs : List Feature)
      → IsPrimed c
      → remaining c ≡ f ∷ fs
      → ((next c).0 ≡ some f) × IsPrimed (next c).1 × (remaining (next c).1 ≡ fs)
  unfolding next
  next-remaining c f fs p e = elim (Option-cases c.store) [
    | inl o ↦ absurd (ground (arith, remaining-none c o))
    | inr (s, o) ↦
        let r = remaining-some c s o in
        elim (List-cases c.prefetched_results) [
          | inl n ↦ absurd (ground (arith, r, p.primed s o n))
          | inr (g, gs, n) ↦
              let d : FeatureCursor Oid Feature = record c {
                at_bof = false;
                last_result = (pop c.prefetched_results).0;
                prefetched_results = (pop c.prefetched_results).1;
              } in
              let (p', r', o') = prefetch-Refilled d p.size in
              let same : g ∷ (gs ++ accepted s c.match_exactly c.unread) ≡ f ∷ fs =
                ground (arith, r) in
              let rest : remaining d ≡ gs ++ accepted s c.match_exactly c.unread =
                ground (arith, remaining-some d s o) in
              (ground arith, p', r' ∙ rest ∙ ground arith)
        ]
  ]

  drain-remaining :
      (fs : List Feature) (c : FeatureCursor Oid Feature)
      → IsPrimed c
      → remaining c ≡ fs
      → drain (suc (length fs)) c ≡ some (map some fs)
  unfolding drain
  drain-remaining [] c p e = ground (arith, has_next-remaining c p)
  drain-remaining (f ∷ fs) c p e =
      let (r, p', e') = next-remaining c f fs p e in
      ground (arith, has_next-remaining c p, drain-remaining fs (next c).1 p' e')

  -- A client that calls `next` on a new cursor over a store while `hasNext` holds gets, in the
  -- order of the identifiers, every feature that the store has for them and that matches, each once
  -- and none of them NULL; then `hasNext` is false. That holds for every prefetch size set before
  -- the first call.
  pub drain-new_cursor :
      (oids : List Oid) (s : Source Oid Feature) (exactly : Bool) (size : ℕ)
      → drain
          (suc (length (accepted s exactly oids)))
          (set_prefetch_size size (new_cursor oids (some s) exactly))
        ≡ some (map some (accepted s exactly oids))
  unfolding set_prefetch_size
  drain-new_cursor oids s exactly size =
      let c = new_cursor oids (some s) exactly in
      let (p, r) = new_cursor-remaining oids s exactly in
      drain-remaining (accepted s exactly oids) (set_prefetch_size size c)
        (record { size = ground arith; primed = p.primed }) r

  reset-remaining :
      (c : FeatureCursor Oid Feature) (s : Source Oid Feature)
      → c.at_bof ≡ false
      → c.store ≡ some s
      → 0 < c.prefetch_size
      → IsPrimed (reset c) × (remaining (reset c) ≡ accepted s c.match_exactly c.oids)
  unfolding reset
  reset-remaining c s b o h =
      let d : FeatureCursor Oid Feature = record c {
        unread = c.oids;
        prefetched_results = [];
        last_result = none;
      } in
      let (p, r, o') = prefetch-Refilled d h in
      let d' : FeatureCursor Oid Feature = record (prefetch d) { at_bof = true } in
      let e : reset c ≡ d' = ap (λ x. if x then c else d') b in
      subst (λ x. IsPrimed x × (remaining x ≡ accepted s c.match_exactly c.oids)) (sym e)
        (record { size = p.size; primed = p.primed }, r ∙ remaining-some d s o)

  -- A client that calls `next` while `hasNext` holds gets, after `reset`, every feature from the
  -- beginning again, wherever the cursor stood, if it is past its beginning and has a store and a
  -- prefetch size above 0.
  pub drain-reset :
      (c : FeatureCursor Oid Feature) (s : Source Oid Feature)
      → c.at_bof ≡ false
      → c.store ≡ some s
      → 0 < c.prefetch_size
      → drain (suc (length (accepted s c.match_exactly c.oids))) (reset c)
        ≡ some (map some (accepted s c.match_exactly c.oids))
  drain-reset c s b o h =
      let (p, r) = reset-remaining c s b o h in
      drain-remaining (accepted s c.match_exactly c.oids) (reset c) p r
