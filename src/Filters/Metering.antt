-- ===== src/Filters/Metering.antt =====
-- How `meterData` cuts its source into batches (src/osgGIS/CollectionFilterState.cpp), and an
-- invariant rule for it.
use osggis.Base.{
  is_nonempty, ℕ, zero, suc, ◌-◌, ◌≤◌, ◌<◌, ◌≡◌, sym, ltb, refl, Bool, true, false, ◌&&◌, List, [],
  ◌∷◌, ◌++◌, length, take, drop, min, ◌==◌, arith, Bool-cases, inl, inr, ◌⊎◌, take-append-drop,
  length-take, length-drop,
}
use osggis.Filters.Groups.{meter_batches, meter_data}

-- A cut of a list into nonempty batches of at most `n`, all full but the last.
pub data Batches {A : Type 0} (n : ℕ) : List A → List (List A) → Type 0 where
  done : Batches n [] []
  cut :
      {source rest : List A} {bs : List (List A)} (b : List A)
      → 0 < length b
      → length b ≤ n
      → (length b ≡ n) ⊎ (rest ≡ [])
      → source ≡ b ++ rest
      → Batches n rest bs
      → Batches n source (b ∷ bs)

nil_of_length : {A : Type 0} (xs : List A) → length xs ≡ 0 → xs ≡ []
nil_of_length [] h = refl
nil_of_length (x ∷ xs) h = absurd (omega arith)

full_or_last :
    {A : Type 0} {n : ℕ} (source : List A) (size : ℕ)
    → length (take size source) ≡ min size (length source)
    → length (drop size source) ≡ length source - size
    → size ≡ min (length source) n
    → (length (take size source) ≡ n) ⊎ (drop size source ≡ [])
full_or_last {n = n} source size taken left e = elim (Bool-cases (ltb (length source) n)) [
  | inl h ↦ inr (nil_of_length (drop size source) (ground arith))
  | inr h ↦ inl (ground arith)
]

module _ {R S A : Type 0} (feed : List A → S → R × S) where
  -- The batches are fed one after the other.
  unfoldable pub feed_all : List (List A) → R → S → R × S
  feed_all [] r s = (r, s)
  feed_all (b ∷ bs) r s = let t = feed b s in feed_all bs t.0 t.1

module _ {R S A : Type 0} (ok : R → Bool) (feed : List A → S → R × S) (metering : ℕ) where
  meter_batches_inv :
      (I : R → S → Type 0)
      → ((input : List A) (r : R) (s : S) → I r s → I (feed input s).0 (feed input s).1)
      → (fuel : ℕ) (source : List A) (r : R) (s : S) → I r s
      → let t = meter_batches ok feed metering fuel source r s in I t.0 t.1
  unfolding meter_batches
  meter_batches_inv I keep zero source r s i = i
  meter_batches_inv I keep (suc fuel) source r s i =
      elim (Bool-cases (is_nonempty source && ok r)) [
        | inl e ↦
            let size = min (length source) metering in
            let t = feed (take size source) s in
            rw (e, meter_batches)
              (meter_batches_inv I keep fuel (drop size source) t.0 t.1
                (keep (take size source) r s i))
        | inr e ↦ rw (e, meter_batches) i
      ]

  pub meter_data_inv :
      (I : R → S → Type 0)
      → ((input : List A) (r : R) (s : S) → I r s → I (feed input s).0 (feed input s).1)
      → (source : List A) (r : R) (s : S) → I r s
      → let t = meter_data ok feed metering r source s in I t.0 t.1
  unfolding meter_data
  meter_data_inv I keep source r s i = elim (Bool-cases (metering == 0)) [
    | inl e ↦ rw (e, meter_data) (keep source r s i)
    | inr e ↦ rw (e, meter_data) (meter_batches_inv I keep (length source) source r s i)
  ]

  module _ (always : (input : List A) (s : S) → ok (feed input s).0 ≡ true) where
    meter_batches-Batches :
        (fuel : ℕ) (source : List A) (r : R) (s : S)
        → 0 < metering
        → length source ≤ fuel
        → ok r ≡ true
        → (bs : List (List A)) × Batches metering source bs
          × (meter_batches ok feed metering fuel source r s ≡ feed_all feed bs r s)
    unfolding meter_batches feed_all
    meter_batches-Batches zero [] r s p h o = ([], done, refl)
    meter_batches-Batches (suc fuel) [] r s p h o = ([], done, refl)
    meter_batches-Batches zero (x ∷ xs) r s p h o = absurd (omega arith)
    meter_batches-Batches (suc fuel) (x ∷ xs) r s p h o =
        let source = x ∷ xs in
        let size = min (length source) metering in
        let b = take size source in
        let t = feed b s in
        let taken = length-take size source in
        let left = length-drop size source in
        let (bs, cuts, e) =
          meter_batches-Batches fuel (drop size source) t.0 t.1 p (omega arith) (always b s) in
        (
          b ∷ bs,
          cut b (omega arith) (omega arith) (full_or_last source size taken left refl)
              (sym (take-append-drop size source)) cuts,
          rw (o, meter_batches) e,
        )

    -- With a metering that is not 0, and if every traversal reports OK, `meterData` feeds its whole
    -- source to the next state, in order, in nonempty batches of at most `metering` elements, all
    -- of that size but perhaps the last. The fuel of the loop, the length of the source, is enough.
    pub meter_data-Batches :
        (source : List A) (r : R) (s : S)
        → 0 < metering
        → ok r ≡ true
        → (bs : List (List A)) × Batches metering source bs
          × (meter_data ok feed metering r source s ≡ feed_all feed bs r s)
    unfolding meter_data
    meter_data-Batches source r s p o =
        let m : (metering == 0) ≡ false = ground arith in
        let (bs, cuts, e) = meter_batches-Batches (length source) source r s p (omega arith) o in
        (bs, cuts, rw (m, meter_data) e)
