-- ===== src/Stats/Slots.antt =====
-- src/stats.rs: the range of slots that the statistics report.
use Prim.Native.String.{String}
use Prim.Native.Nat.{min, max}
use orbshred.Prelude.{
  ℕ, false, ◌-◌, ◌^◌, ◌≤◌, ◌<◌, ◌≡◌, refl, sym, subst, ◌⊎◌, inl, inr, List, [], ◌∷◌, ◌==◌, arith,
  All,
}
use orbshred.Registry.{SourceId, SlotRecord, Store, Registry, DropCounters}
use orbshred.Stats.{lowest_slot, highest_slot, min_slot_of, u64_max, compute_stats}

-- `n` is the number of some slot of the list.
abbrev pub IsSlot : ℕ → List (ℕ × SlotRecord) → Type 0
IsSlot n [] = ⊥
IsSlot n ((k, r) ∷ es) = (n ≡ k) ⊎ IsSlot n es

abbrev pub Within : ℕ → ℕ → List (ℕ × SlotRecord) → Type 0
Within lo hi = All (λ (e : ℕ × SlotRecord). (lo ≤ e.0) × (e.0 ≤ hi))

highest_bounds :
    (es : List (ℕ × SlotRecord)) (m : ℕ)
    → (m ≤ highest_slot es m)
      × Within 0 (highest_slot es m) es
      × ((highest_slot es m ≡ m) ⊎ IsSlot (highest_slot es m) es)
unfolding highest_slot
highest_bounds [] m = (omega arith, tt, inl refl)
highest_bounds ((k, r) ∷ es) m =
    let (le, all, here) = highest_bounds es (max m k) in
    (omega (arith, le), (omega (arith, le), all), ground (arith, here))

lowest_bounds :
    (es : List (ℕ × SlotRecord)) (m hi : ℕ)
    → Within 0 hi es
    → (lowest_slot es m ≤ m)
      × Within (lowest_slot es m) hi es
      × ((lowest_slot es m ≡ m) ⊎ IsSlot (lowest_slot es m) es)
unfolding lowest_slot
lowest_bounds [] m hi h = (omega arith, tt, inl refl)
lowest_bounds ((k, r) ∷ es) m hi (h, t) =
    let (le, all, here) = lowest_bounds es (min m k) hi t in
    (omega (arith, le), (omega (arith, le, h), all), ground (arith, here))

-- What the two ends are.
abbrev pub Ends : List (ℕ × SlotRecord) → ℕ → ℕ → Type 0
Ends es lo hi =
    Within lo hi es × (((es ≡ []) × (lo ≡ 0) × (hi ≡ 0)) ⊎ (IsSlot lo es × IsSlot hi es))

slots-Ends :
    (es : List (ℕ × SlotRecord))
    → All (λ (e : ℕ × SlotRecord). e.0 < 2 ^ 64 - 1) es
    → Ends es (min_slot_of es) (highest_slot es 0)
unfolding min_slot_of lowest_slot highest_slot
slots-Ends [] h = (tt, inl (refl, refl, refl))
slots-Ends ((k, r) ∷ es) (small, rest) =
    let all : List (ℕ × SlotRecord) = (k, r) ∷ es in
    let (up, (low, top), high) = highest_bounds all 0 in
    let (le, (least, most), deep) = lowest_bounds all u64_max (highest_slot all 0) (low, top) in
    let real : (lowest_slot all u64_max == u64_max) ≡ false = ground (arith, least, small) in
    let same : min_slot_of all ≡ lowest_slot all u64_max = rw real refl in
    subst (λ lo. Ends all lo (highest_slot all 0)) (sym same)
      (
        (least, most),
        inr (
          elim deep [ inl e ↦ absurd (omega (arith, e, least, small)) | inr i ↦ i ],
          elim high [ inl e ↦ inl (omega (arith, e, least)) | inr i ↦ i ],
        ),
      )

module _ (st : Store) where
  -- If no slot of the registry is the greatest `u64`, the reported range covers every slot of the
  -- registry and its ends are slots of it; without a slot both ends are 0.
  pub compute_stats-Ends :
      {F : Type 0} (r : Registry st) (shreds entries : List (SourceId × String))
      (drops : DropCounters st) (duration : F)
      → All (λ (e : ℕ × SlotRecord). e.0 < 2 ^ 64 - 1) (st.slot_map.entries r.slots)
      → let s = compute_stats st r shreds entries drops duration in
        Ends (st.slot_map.entries r.slots) s.min_slot s.max_slot
  unfolding compute_stats
  compute_stats-Ends r shreds entries drops duration h = slots-Ends (st.slot_map.entries r.slots) h
