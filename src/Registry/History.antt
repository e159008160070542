-- ===== src/Registry/History.antt =====
-- src/registry.rs: the registry as a function of its history of calls, newest first.
use orbshred.Prelude.{
  ℕ, ◌≡◌, refl, ◌∙◌, inl, inr, Option, none, some, List, [], ◌∷◌, ◌++◌, ◌==◌, if◌then◌else◌,
  Bool-cases, ==_iff, ==_self,
}
use orbshred.Shred.{ShredKey, same_key, same_key_iff}
use orbshred.DashMap.{modify_or}
use orbshred.Registry.{
  SourceId, Instant, ShredEvent, ShredRecord, Store, new, record_grpc_latency, push_arrival,
  first_arrival, record_shred, record_slot_event, RegistryOp, shred, slot, grpc, apply, after,
}

-- The arrivals of one shred, oldest first.
unfoldable pub arrivals_of : ShredKey → List RegistryOp → List (SourceId × Instant)
arrivals_of k [] = []
arrivals_of k (shred e ∷ older) =
    if same_key e.key k
    then arrivals_of k older ++ ((e.source, e.received_at) ∷ [])
    else arrivals_of k older
arrivals_of k (slot e ∷ older) = arrivals_of k older
arrivals_of k (grpc e ∷ older) = arrivals_of k older

-- A record is made by the first arrival, and holds them all.
unfoldable pub record_of : List (SourceId × Instant) → Option ShredRecord
record_of [] = none
record_of ((s, t) ∷ rest) =
    some (record { first_seen = t; first_source = s; arrivals = (s, t) ∷ rest })

record_of-snoc :
    (e : ShredEvent) (h : List (SourceId × Instant))
    → some (modify_or (push_arrival e) (first_arrival e) (record_of h))
      ≡ record_of (h ++ ((e.source, e.received_at) ∷ []))
unfolding record_of push_arrival first_arrival
record_of-snoc e [] = refl
record_of-snoc e ((s, t) ∷ rest) = refl

module _ (st : Store) (start : Instant) where
  open st use {shred_map, slot_map, latency_map}

  -- After any history the record of a shred holds every arrival of that shred in the order of the
  -- calls, repeated ones included, and its first source and time are those of the first call. A shred
  -- with no call has no record.
  pub shreds-after :
      (ops : List RegistryOp) (k : ShredKey)
      → shred_map.get k (after st start ops).shreds ≡ record_of (arrivals_of k ops)
  unfolding after apply new record_shred record_slot_event record_grpc_latency arrivals_of record_of
      first_arrival push_arrival
  shreds-after [] k = shred_map.get-empty k
  shreds-after (shred e ∷ older) k =
      shred_map.get-upsert e.key k _ _ _ ∙ (elim (Bool-cases (same_key e.key k)) [
        | inl hit ↦
            rw (hit, (same_key_iff e.key k).0 hit, shreds-after older k)
              (record_of-snoc e (arrivals_of k older))
        | inr miss ↦ rw miss (shreds-after older k)
      ])
  shreds-after (slot e ∷ older) k = shreds-after older k
  shreds-after (grpc e ∷ older) k = shreds-after older k

-- The latencies of one source, oldest first.
unfoldable pub latencies_of : SourceId → List RegistryOp → List ℕ
latencies_of s [] = []
latencies_of s (shred e ∷ older) = latencies_of s older
latencies_of s (slot e ∷ older) = latencies_of s older
latencies_of s (grpc e ∷ older) =
    if e.source == s then latencies_of s older ++ (e.latency_ns ∷ []) else latencies_of s older

-- A list that is entered with its first element.
abbrev pub nonempty : List ℕ → Option (List ℕ)
nonempty [] = none
nonempty (x ∷ xs) = some (x ∷ xs)

nonempty-snoc :
    (n : ℕ) (h : List ℕ)
    → some (modify_or (λ l. l ++ (n ∷ [])) (n ∷ []) (nonempty h)) ≡ nonempty (h ++ (n ∷ []))
nonempty-snoc n [] = refl
nonempty-snoc n (x ∷ xs) = refl

module _ (st : Store) (start : Instant) where
  open st use {latency_map}

  -- After any history a source's overhead samples are all of its samples in the order of the calls.
  pub grpc_latencies-after :
      (ops : List RegistryOp) (s : SourceId)
      → latency_map.get s (after st start ops).grpc_latencies ≡ nonempty (latencies_of s ops)
  unfolding after apply new record_shred record_slot_event record_grpc_latency latencies_of
  grpc_latencies-after [] s = latency_map.get-empty s
  grpc_latencies-after (shred e ∷ older) s = grpc_latencies-after older s
  grpc_latencies-after (slot e ∷ older) s = grpc_latencies-after older s
  grpc_latencies-after (grpc e ∷ older) s =
      latency_map.get-upsert e.source s _ _ _ ∙ (elim (Bool-cases (e.source == s)) [
        | inl hit ↦
            let same : e.source ≡ s = (==_iff e.source s).0 hit in
            simp (same, ==_self, grpc_latencies-after older s)
              (nonempty-snoc e.latency_ns (latencies_of s older))
        | inr miss ↦ rw miss (grpc_latencies-after older s)
      ])
