-- ===== src/Registry.antt =====
-- src/registry.rs: the drop counters, the events and the registry that the aggregator fills.
-- An `Instant` is a number of nanoseconds. Every operation runs over a `Store`, the four maps of the
-- `dashmap` crate that the file declares.
pub mod History
pub mod Slots
pub mod Drops
pub mod Scenarios
use orbshred.Prelude.{
  ℕ, ◌+◌, ◌%◌, ◌^◌, ◌≡◌, Bool, Option, none, some, List, [], ◌∷◌, ◌++◌, ltb, ◌==◌, if◌then◌else◌,
}
use orbshred.Shred.{ShredKey, same_key}
use orbshred.DashMap.{DashMap}

abbrev pub SourceId : Type 0
SourceId = ℕ

abbrev pub Instant : Type 0
Instant = ℕ

-- The Boolean equality of slots and of source ids.
abbrev pub same_id : ℕ → ℕ → Bool
same_id a b = a == b

pub record ShredEvent : Type 0 where
  pub source : SourceId
  pub key : ShredKey
  pub received_at : Instant

pub record SlotEvent : Type 0 where
  pub source : SourceId
  pub slot : ℕ
  pub received_at : Instant

pub record GrpcLatencyEvent : Type 0 where
  pub source : SourceId
  pub latency_ns : ℕ

pub record ShredRecord : Type 0 where
  pub first_seen : Instant
  pub first_source : SourceId
  pub arrivals : List (SourceId × Instant)

pub record SlotRecord : Type 0 where
  pub first_shred_at : Instant
  pub entry_arrivals : List (SourceId × Instant)

-- The maps that the registry and the counters are made of.
pub record Store : Type 1 where
  pub shred_map : DashMap ShredKey ShredRecord same_key
  pub slot_map : DashMap ℕ SlotRecord same_id
  pub latency_map : DashMap SourceId (List ℕ) same_id
  pub counter_map : DashMap SourceId ℕ same_id

module _ (st : Store) where
  open st use {shred_map, slot_map, latency_map, counter_map}

  abbrev pub DropCounters : Type 0
  DropCounters = counter_map.Map

  -- `AtomicU64::fetch_add(1)` wraps around.
  unfoldable pub inc : SourceId → DropCounters → DropCounters
  inc src = counter_map.upsert src (λ c. (c + 1) % 2 ^ 64) 1

  unfoldable pub drops_of : SourceId → DropCounters → ℕ
  drops_of src d = elim (counter_map.get src d) [ none ↦ 0 | some c ↦ c ]

  pub record Registry : Type 0 where
    pub shreds : shred_map.Map
    pub slots : slot_map.Map
    pub grpc_latencies : latency_map.Map
    pub start_time : Instant

  unfoldable pub new : Instant → Registry
  new t = record {
    shreds = shred_map.empty;
    slots = slot_map.empty;
    grpc_latencies = latency_map.empty;
    start_time = t;
  }

  -- `entry(source).or_default().push(latency)`
  unfoldable pub record_grpc_latency : GrpcLatencyEvent → Registry → Registry
  record_grpc_latency e r = record r {
    grpc_latencies =
        latency_map.upsert e.source (λ l. l ++ (e.latency_ns ∷ [])) (e.latency_ns ∷ [])
          r.grpc_latencies;
  }

-- The closures of `record_shred` and `record_slot_event`: `and_modify` and `or_insert_with` each.
unfoldable pub push_arrival : ShredEvent → ShredRecord → ShredRecord
push_arrival e rec = record rec { arrivals = rec.arrivals ++ ((e.source, e.received_at) ∷ []) }

unfoldable pub first_arrival : ShredEvent → ShredRecord
first_arrival e = record {
  first_seen = e.received_at;
  first_source = e.source;
  arrivals = (e.source, e.received_at) ∷ [];
}

unfoldable pub shrink_first : ShredEvent → SlotRecord → SlotRecord
shrink_first e rec =
    if ltb e.received_at rec.first_shred_at
    then record rec { first_shred_at = e.received_at }
    else rec

unfoldable pub slot_of_shred : ShredEvent → SlotRecord
slot_of_shred e = record { first_shred_at = e.received_at; entry_arrivals = [] }

-- `find` the source's arrival and lower its time, or push a new one.
unfoldable pub note_arrival :
    SourceId → Instant → List (SourceId × Instant) → List (SourceId × Instant)
note_arrival src t [] = (src, t) ∷ []
note_arrival src t ((s, u) ∷ rest) =
    if s == src then (s, (if ltb t u then t else u)) ∷ rest else (s, u) ∷ note_arrival src t rest

unfoldable pub note_entry : SlotEvent → SlotRecord → SlotRecord
note_entry e rec = record rec {
  entry_arrivals = note_arrival e.source e.received_at rec.entry_arrivals;
}

unfoldable pub slot_of_entry : SlotEvent → SlotRecord
slot_of_entry e = record {
  first_shred_at = e.received_at;
  entry_arrivals = (e.source, e.received_at) ∷ [];
}

module _ (st : Store) where
  open st use {shred_map, slot_map}

  unfoldable pub record_shred : ShredEvent → Registry st → Registry st
  record_shred e r = record r {
    shreds = shred_map.upsert e.key (push_arrival e) (first_arrival e) r.shreds;
    slots = slot_map.upsert e.key.slot (shrink_first e) (slot_of_shred e) r.slots;
  }

  unfoldable pub record_slot_event : SlotEvent → Registry st → Registry st
  record_slot_event e r = record r {
    slots = slot_map.upsert e.slot (note_entry e) (slot_of_entry e) r.slots;
  }

-- What the aggregator asks of the registry.
pub data RegistryOp : Type 0 where
  shred : ShredEvent → RegistryOp
  slot : SlotEvent → RegistryOp
  grpc : GrpcLatencyEvent → RegistryOp

module _ (st : Store) where
  unfoldable pub apply : RegistryOp → Registry st → Registry st
  apply (shred e) = record_shred st e
  apply (slot e) = record_slot_event st e
  apply (grpc e) = record_grpc_latency st e

  -- The registry after a history of calls, the newest call first.
  unfoldable pub after : Instant → List RegistryOp → Registry st
  after t [] = new st t
  after t (op ∷ older) = apply op (after t older)
