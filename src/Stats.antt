-- ===== src/Stats.antt =====
-- src/stats.rs: the statistics that are computed once from the registry and the drop counters.
-- `u64` counters wrap around at 2^64; `Vec::len` is below that.

pub mod Counts
pub mod Wins
pub mod Slots
pub mod Percentiles
use Prim.Native.Nat.{min, max}
use Prim.Native.String.{String}
use mathlib.Core.List.{filter_map}
use orbshred.Prelude.{
  ℕ, ◌+◌, ◌-◌, ◌%◌, ◌^◌, ◌≡◌, Bool, Option, none, some, List, [], ◌∷◌, ◌++◌, map, foldl, ltb, leb,
  ◌==◌, if◌then◌else◌, length,
}
use orbshred.Shred.{ShredType, ShredKey, data_shred, code_shred}
use orbshred.DashMap.{lookup_by}
use orbshred.Registry.{
  SourceId, Instant, same_id, ShredRecord, SlotRecord, Store, DropCounters, drops_of, Registry,
}

abbrev pub u64_max : ℕ
u64_max = 2 ^ 64 - 1

-- `a += b` in `u64`, and `as u64`.
abbrev pub add_u64 : ℕ → ℕ → ℕ
add_u64 a b = (a + b) % 2 ^ 64

abbrev pub as_u64 : ℕ → ℕ
as_u64 n = n % 2 ^ 64

pub record SourceStats : Type 0 where
  pub id : SourceId
  pub name : String
  pub received : ℕ
  pub data_shreds : ℕ
  pub code_shreds : ℕ
  pub wins : ℕ
  pub missed : ℕ
  pub dupes : ℕ
  pub drops : ℕ
  pub latency_ns : List ℕ

pub record EntrySourceStats : Type 0 where
  pub id : SourceId
  pub name : String
  pub slots_seen : ℕ
  pub drops : ℕ
  pub latency_ns : List ℕ

pub record SlotStats : Type 0 where
  pub total_slots : ℕ
  pub entry_sources : List EntrySourceStats

pub record GrpcOverheadStats : Type 0 where
  pub id : SourceId
  pub name : String
  pub samples : ℕ
  pub latency_ns : List ℕ

-- The run's length in seconds is a float that is only carried along: a value of any type.
pub record BenchmarkStats (F : Type 0) : Type 0 where
  pub sources : List SourceStats
  pub total_unique_shreds : ℕ
  pub slot_stats : SlotStats
  pub grpc_overhead : List GrpcOverheadStats
  pub duration_secs : F
  pub min_slot : ℕ
  pub max_slot : ℕ

-- The times of one source's arrivals.
unfoldable pub times_from : SourceId → List (SourceId × Instant) → List Instant
times_from id [] = []
times_from id ((s, t) ∷ rest) = if s == id then t ∷ times_from id rest else times_from id rest

-- `iter().min().unwrap()` of a vector that begins with `t`.
unfoldable pub minimum : Instant → List Instant → Instant
minimum t [] = t
minimum t (u ∷ us) = minimum (min t u) us

-- `duration_since` saturates at 0.
abbrev pub since : Instant → Instant → ℕ
since t u = as_u64 (t - u)

-- The body of the loop for a source that has the shred, at times `t ∷ ts`.
unfoldable pub seen : ShredKey → ShredRecord → Instant → List Instant → SourceStats → SourceStats
unfolding minimum
seen key rec t ts s =
    let delta = since (minimum t ts) rec.first_seen in
    record s {
      received = add_u64 s.received 1;
      data_shreds = elim key.shred_type [
        | data_shred ↦ add_u64 s.data_shreds 1
        | code_shred ↦ s.data_shreds
      ];
      code_shreds = elim key.shred_type [
        | data_shred ↦ s.code_shreds
        | code_shred ↦ add_u64 s.code_shreds 1
      ];
      dupes =
          if ltb 1 (length (t ∷ ts))
          then add_u64 s.dupes (as_u64 (length (t ∷ ts) - 1))
          else s.dupes;
      wins = if delta == 0 then add_u64 s.wins 1 else s.wins;
      latency_ns = s.latency_ns ++ (delta ∷ []);
    }

unfoldable pub observe_times : ShredKey → ShredRecord → List Instant → SourceStats → SourceStats
unfolding seen
observe_times key rec [] s = record s { missed = add_u64 s.missed 1 }
observe_times key rec (t ∷ ts) s = seen key rec t ts s

-- One shred, for one source.
unfoldable pub observe : ShredKey × ShredRecord → SourceStats → SourceStats
unfolding observe_times times_from
observe (key, rec) s = observe_times key rec (times_from s.id rec.arrivals) s

-- The two nested loops.
unfoldable pub observe_all : List (ShredKey × ShredRecord) → List SourceStats → List SourceStats
unfolding observe
observe_all [] ss = ss
observe_all (e ∷ es) ss = observe_all es (map (observe e) ss)

-- One slot, for one entry-level source.
unfoldable pub observe_arrival : SlotRecord → Option Instant → EntrySourceStats → EntrySourceStats
observe_arrival rec none s = s
observe_arrival rec (some t) s = record s {
  slots_seen = add_u64 s.slots_seen 1;
  latency_ns =
      s.latency_ns ++ ((if leb rec.first_shred_at t then since t rec.first_shred_at else 0) ∷ []);
}

unfoldable pub observe_slot : ℕ × SlotRecord → EntrySourceStats → EntrySourceStats
unfolding observe_arrival
observe_slot (k, rec) s = observe_arrival rec (lookup_by same_id s.id rec.entry_arrivals) s

unfoldable pub observe_slots : List (ℕ × SlotRecord) → List EntrySourceStats → List EntrySourceStats
unfolding observe_slot
observe_slots [] ss = ss
observe_slots (e ∷ es) ss = observe_slots es (map (observe_slot e) ss)

unfoldable pub lowest_slot : List (ℕ × SlotRecord) → ℕ → ℕ
lowest_slot [] m = m
lowest_slot ((k, r) ∷ es) m = lowest_slot es (min m k)

unfoldable pub highest_slot : List (ℕ × SlotRecord) → ℕ → ℕ
highest_slot [] m = m
highest_slot ((k, r) ∷ es) m = highest_slot es (max m k)

unfoldable pub min_slot_of : List (ℕ × SlotRecord) → ℕ
unfolding lowest_slot
min_slot_of es = if lowest_slot es u64_max == u64_max then 0 else lowest_slot es u64_max

module _ (st : Store) where
  open st use {shred_map, slot_map, latency_map}

  unfoldable pub init_source : DropCounters st → SourceId × String → SourceStats
  init_source drops (id, name) = record {
    id = id;
    name = name;
    received = 0;
    data_shreds = 0;
    code_shreds = 0;
    wins = 0;
    missed = 0;
    dupes = 0;
    drops = drops_of st id drops;
    latency_ns = [];
  }

  unfoldable pub init_entry_source : DropCounters st → SourceId × String → EntrySourceStats
  init_entry_source drops (id, name) = record {
    id = id;
    name = name;
    slots_seen = 0;
    drops = drops_of st id drops;
    latency_ns = [];
  }

  unfoldable pub overhead_of : Registry st → SourceId × String → Option GrpcOverheadStats
  overhead_of r (id, name) = elim (latency_map.get id r.grpc_latencies) [
    | none ↦ none
    | some v ↦ some (record { id = id; name = name; samples = length v; latency_ns = v })
  ]

  unfoldable pub compute_stats :
      {F : Type 0}
      → Registry st
      → List (SourceId × String)
      → List (SourceId × String)
      → DropCounters st
      → F
      → BenchmarkStats F
  unfolding init_source init_entry_source overhead_of observe_all observe_slots min_slot_of
      highest_slot
  compute_stats r shred_sources entry_sources drops duration_secs = record {
    sources = observe_all (shred_map.entries r.shreds) (map (init_source drops) shred_sources);
    total_unique_shreds = length (shred_map.entries r.shreds);
    slot_stats = record {
      total_slots = length (slot_map.entries r.slots);
      entry_sources =
          observe_slots (slot_map.entries r.slots) (map (init_entry_source drops) entry_sources);
    };
    grpc_overhead = filter_map (overhead_of r) entry_sources;
    duration_secs = duration_secs;
    min_slot = min_slot_of (slot_map.entries r.slots);
    max_slot = highest_slot (slot_map.entries r.slots) 0;
  }
