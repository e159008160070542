-- ===== src/Examples/Leaders.antt =====
-- Concrete answers of an RPC node for src/leader.rs.
use orbshred.Prelude.{
  ℕ, ◌+◌, ◌-◌, ◌%◌, ◌^◌, ◌≤◌, ◌<◌, All, ◌≡◌, refl, true, false, none, some, [], ◌∷◌, map,
}
use orbshred.Leader.{Reply, reply, Schedule, EpochInfo, slots, slot_indices, fetch_leader_slots}
use orbshred.Leader.Slots.{Ahead, info, fetch_leader_slots-Ahead}

abbrev sample_schedule : Reply Schedule
sample_schedule = reply (record {
  failed = false;
  result = some (record { is_object = true; indices = some (some 4 ∷ none ∷ some 40 ∷ []) });
})

abbrev epoch : Reply EpochInfo
epoch = reply (record {
  failed = false;
  result = some (record { absolute_slot = some 1020; slot_index = some 20 });
})

fetch_run : fetch_leader_slots sample_schedule epoch ≡ slots (1004 ∷ 1040 ∷ [])
unfolding fetch_leader_slots
fetch_run = refl

fetch_leader_slots-Ahead_example :
    (s : Schedule) × (absolute : ℕ) × (index : ℕ) × (sample_schedule
      ≡ reply (record { failed = false; result = some s }))
    × (epoch ≡ reply (record { failed = false; result = some (info (some absolute) (some index)) }))
    × ((1004 ∷ 1040 ∷ [])
        ≡ map (λ i. ((absolute + 2 ^ 64 - index) % 2 ^ 64 + i) % 2 ^ 64) (slot_indices s))
    × (index ≤ absolute
        → All (λ i. absolute + i < 2 ^ 64) (slot_indices s)
        → (1004 ∷ 1040 ∷ []) ≡ map (λ i. absolute - index + i) (slot_indices s))
    × Ahead absolute (1004 ∷ 1040 ∷ [])
fetch_leader_slots-Ahead_example =
    fetch_leader_slots-Ahead sample_schedule epoch (1004 ∷ 1040 ∷ []) fetch_run
