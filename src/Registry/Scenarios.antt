-- ===== src/Registry/Scenarios.antt =====
-- src/registry.rs:157-289: the scenarios of the file's tests, for any maps and at any time `t0`.
use orbshred.Prelude.{ℕ, ◌+◌, ◌-◌, ◌≤◌, ◌≡◌, refl, ◌∙◌, ==_self, none, some, List, [], ◌∷◌, arith}
use orbshred.Shred.{ShredKey, data_shred, same_key}
use orbshred.Registry.{
  SourceId, Instant, SlotRecord, Store, new, record_shred, record_slot_event, shrink_first,
  slot_of_shred, note_entry, note_arrival, slot_of_entry, RegistryOp, shred, slot, grpc, apply,
  after,
}
use orbshred.Registry.History.{
  shreds-after, record_of, arrivals_of, grpc_latencies-after, latencies_of,
}

abbrev key : ℕ → ℕ → ShredKey
key n index = record { slot = n; index = index; shred_type = data_shred }

abbrev delivery : SourceId → ℕ → Instant → RegistryOp
delivery s index t = shred (record { source = s; key = key 100 index; received_at = t })

abbrev entry : SourceId → Instant → RegistryOp
entry s t = slot (record { source = s; slot = 200; received_at = t })

abbrev overhead : SourceId → ℕ → RegistryOp
overhead s n = grpc (record { source = s; latency_ns = n })

-- The calls of each test, the newest first; the times are in nanoseconds.
unfoldable pub first_arrival_calls : Instant → List RegistryOp
first_arrival_calls t0 = delivery 1 0 t0 ∷ []

unfoldable pub duplicate_calls : Instant → List RegistryOp
duplicate_calls t0 = delivery 1 0 (t0 + 50000) ∷ delivery 1 0 t0 ∷ []

unfoldable pub second_source_calls : Instant → List RegistryOp
second_source_calls t0 = delivery 2 0 (t0 + 20000) ∷ delivery 1 0 t0 ∷ []

unfoldable pub earlier_shred_calls : Instant → List RegistryOp
earlier_shred_calls t0 = delivery 2 1 (t0 - 1000000) ∷ delivery 1 0 (t0 + 2000000) ∷ []

unfoldable pub later_shred_calls : Instant → List RegistryOp
later_shred_calls t0 = delivery 1 1 (t0 + 5000000) ∷ delivery 1 0 t0 ∷ []

unfoldable pub entry_update_calls : Instant → List RegistryOp
entry_update_calls t0 =
    entry 9 (t0 + 10000000) ∷ entry 9 (t0 - 1000000) ∷ entry 9 (t0 + 10000000) ∷ []

unfoldable pub two_entry_sources_calls : Instant → List RegistryOp
two_entry_sources_calls t0 = entry 10 (t0 + 3000000) ∷ entry 9 t0 ∷ []

unfoldable pub overhead_calls : List RegistryOp
overhead_calls = overhead 8 500 ∷ overhead 7 2500 ∷ overhead 7 1000 ∷ []

module _ (st : Store) (start t0 : Instant) where
  open st use {shred_map, slot_map, latency_map}

  first_arrival_kept :
      shred_map.get (key 100 0) (after st start (first_arrival_calls t0)).shreds
      ≡ some (record { first_seen = t0; first_source = 1; arrivals = (1, t0) ∷ [] })
  unfolding first_arrival_calls arrivals_of record_of same_key
  first_arrival_kept = shreds-after st start (first_arrival_calls t0) (key 100 0)

  duplicate_kept :
      shred_map.get (key 100 0) (after st start (duplicate_calls t0)).shreds
      ≡ some
          (record { first_seen = t0; first_source = 1; arrivals = (1, t0) ∷ (1, t0 + 50000) ∷ [] })
  unfolding duplicate_calls arrivals_of record_of same_key
  duplicate_kept = shreds-after st start (duplicate_calls t0) (key 100 0)

  second_source_kept :
      shred_map.get (key 100 0) (after st start (second_source_calls t0)).shreds
      ≡ some
          (record { first_seen = t0; first_source = 1; arrivals = (1, t0) ∷ (2, t0 + 20000) ∷ [] })
  unfolding second_source_calls arrivals_of record_of same_key
  second_source_kept = shreds-after st start (second_source_calls t0) (key 100 0)

  -- The slot's record after two calls on it.
  slot_twice :
      (n : ℕ) (f g : SlotRecord → SlotRecord) (v w : SlotRecord) (m : slot_map.Map)
      → slot_map.get n m ≡ none
      → slot_map.get n (slot_map.upsert n f v (slot_map.upsert n g w m)) ≡ some (f w)
  slot_twice n f g v w m h =
      slot_map.get-upsert n n f v _ ∙ rw (==_self, slot_map.get-upsert n n g w m, ==_self, h) refl

  slot_thrice :
      (n : ℕ) (f g h : SlotRecord → SlotRecord) (u v w : SlotRecord) (m : slot_map.Map)
      → slot_map.get n m ≡ none
      → slot_map.get n (slot_map.upsert n f u (slot_map.upsert n g v (slot_map.upsert n h w m)))
        ≡ some (f (g w))
  slot_thrice n f g h u v w m e =
      slot_map.get-upsert n n f u _ ∙ rw (==_self, slot_twice n g h v w m e) refl

  earlier_shred_kept :
      1000000 ≤ t0
      → slot_map.get 100 (after st start (earlier_shred_calls t0)).slots
        ≡ some (record { first_shred_at = t0 - 1000000; entry_arrivals = [] })
  unfolding earlier_shred_calls after apply record_shred new shrink_first slot_of_shred
  earlier_shred_kept h =
      slot_twice 100 _ _ _ _ slot_map.empty (slot_map.get-empty 100) ∙ ground arith

  later_shred_kept :
      slot_map.get 100 (after st start (later_shred_calls t0)).slots
      ≡ some (record { first_shred_at = t0; entry_arrivals = [] })
  unfolding later_shred_calls after apply record_shred new shrink_first slot_of_shred
  later_shred_kept = slot_twice 100 _ _ _ _ slot_map.empty (slot_map.get-empty 100) ∙ ground arith

  entry_update_kept :
      1000000 ≤ t0
      → slot_map.get 200 (after st start (entry_update_calls t0)).slots
        ≡ some (record { first_shred_at = t0 + 10000000; entry_arrivals = (9, t0 - 1000000) ∷ [] })
  unfolding entry_update_calls after apply record_slot_event new note_entry note_arrival
      slot_of_entry
  entry_update_kept h =
      slot_thrice 200 _ _ _ _ _ _ slot_map.empty (slot_map.get-empty 200) ∙ ground arith

  two_entry_sources_kept :
      slot_map.get 200 (after st start (two_entry_sources_calls t0)).slots
      ≡ some (record { first_shred_at = t0; entry_arrivals = (9, t0) ∷ (10, t0 + 3000000) ∷ [] })
  unfolding two_entry_sources_calls after apply record_slot_event new note_entry note_arrival
      slot_of_entry
  two_entry_sources_kept = slot_twice 200 _ _ _ _ slot_map.empty (slot_map.get-empty 200)

  overhead_kept :
      (latency_map.get 7 (after st start overhead_calls).grpc_latencies ≡ some (1000 ∷ 2500 ∷ []))
      × (latency_map.get 8 (after st start overhead_calls).grpc_latencies ≡ some (500 ∷ []))
  unfolding overhead_calls latencies_of
  overhead_kept = (
    grpc_latencies-after st start overhead_calls 7,
    grpc_latencies-after st start overhead_calls 8,
  )
