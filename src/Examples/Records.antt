-- ===== src/Examples/Records.antt =====
-- Concrete histories for src/registry.rs and src/stats.rs, over association lists.
use Prim.Native.String.{String}
use native.Mathlib.Nat.{mul-le-mul_left}
use orbshred.Prelude.{
  ℕ, ◌+◌, ◌*◌, ◌/◌, ◌^◌, ◌≤◌, ◌<◌, ◌≡◌, refl, some, List, [], ◌∷◌, arith, length, ==_iff, All,
}
use orbshred.Exec.{ok}
use orbshred.Shred.{ShredKey, data_shred, same_key, same_key_iff}
use orbshred.DashMap.{assoc_map}
use orbshred.Registry.{
  record_slot_event, record_grpc_latency, ShredEvent, SlotEvent, GrpcLatencyEvent, ShredRecord,
  Store, same_id, push_arrival, first_arrival, record_shred, new, RegistryOp, shred, slot, grpc,
  apply, after,
}
use orbshred.Registry.History.{shreds-after, arrivals_of, record_of}
use orbshred.Registry.Slots.{slots-after, SlotMatches}
use orbshred.Stats.{SourceStats, times_from, minimum, observe, compute_stats}
use orbshred.Stats.Slots.{Ends, compute_stats-Ends}
use orbshred.Stats.Counts.{compute_stats-Tally, Tally, deliveries}
use orbshred.Stats.Wins.{both_win}
use orbshred.Stats.Percentiles.{F64, rank, percentile}
use orbshred.Stats.Percentiles.Order.{percentile_nearest_rank}
use orbshred.Prelude.Sort.{sort, count_le, count_lt}

abbrev pub store : Store
store = record {
  shred_map = assoc_map same_key same_key_iff;
  slot_map = assoc_map same_id ==_iff;
  latency_map = assoc_map same_id ==_iff;
  counter_map = assoc_map same_id ==_iff;
}

abbrev pub key : ShredKey
key = record { slot = 1000; index = 7; shred_type = data_shred }

-- Source 1 delivers at 50, in a call made before that of source 2, which delivered at 40.
abbrev pub first_call : ShredEvent
first_call = record { source = 1; key = key; received_at = 50 }

abbrev pub second_call : ShredEvent
second_call = record { source = 2; key = key; received_at = 40 }

abbrev pub entry_call : SlotEvent
entry_call = record { source = 5; slot = 1000; received_at = 90 }

abbrev pub sample : GrpcLatencyEvent
sample = record { source = 5; latency_ns = 300 }

abbrev two_calls : List RegistryOp
two_calls = shred second_call ∷ shred first_call ∷ []

abbrev history : List RegistryOp
history = grpc sample ∷ slot entry_call ∷ two_calls

abbrev stored : ShredRecord
stored = record { first_seen = 50; first_source = 1; arrivals = (1, 50) ∷ (2, 40) ∷ [] }

stored_run : store.shred_map.get key (after store 0 two_calls).shreds ≡ some stored
unfolding after apply new record_shred push_arrival first_arrival same_key
stored_run = refl

shreds-after_example :
    store.shred_map.get key (after store 0 history).shreds ≡ record_of (arrivals_of key history)
shreds-after_example = shreds-after store 0 history key

slots-after_example :
    SlotMatches 1000 history (store.slot_map.get 1000 (after store 0 history).slots)
slots-after_example = slots-after store 0 history 1000

abbrev source : ℕ → SourceStats
source id = record {
  id = id;
  name = "udp";
  received = 0;
  data_shreds = 0;
  code_shreds = 0;
  wins = 0;
  missed = 0;
  dupes = 0;
  drops = 0;
  latency_ns = [];
}

both_win_example :
    ((observe (key, stored) (source 1)).wins ≡ 1) × ((observe (key, stored) (source 2)).wins ≡ 1)
both_win_example =
    both_win store 0 first_call second_call stored (source 1) (source 2) refl (omega arith)
      (omega arith) refl refl stored_run

abbrev late_record : ShredRecord
late_record = record { first_seen = 50; first_source = 1; arrivals = (1, 50) ∷ (2, 60) ∷ [] }

two_times : times_from 2 late_record.arrivals ≡ 60 ∷ []
unfolding times_from
two_times = refl

late_minimum : minimum 60 [] ≡ 60
unfolding minimum
late_minimum = refl

abbrev secs : ℕ
secs = 10

abbrev sources : List (ℕ × String)
sources = (1, "udp") ∷ (2, "jito") ∷ []

few_entries : length (store.shred_map.entries (after store 0 two_calls).shreds) < 2 ^ 64
unfolding after apply new record_shred push_arrival first_arrival same_key
few_entries = omega arith

compute_stats-Tally_example :
    let stats = compute_stats store (after store 0 two_calls) sources [] [] secs in
    All
      (λ s.
        Tally stats.total_unique_shreds
          (deliveries s.id (store.shred_map.entries (after store 0 two_calls).shreds))
          s)
      stats.sources
compute_stats-Tally_example =
    compute_stats-Tally store (after store 0 two_calls) sources [] [] secs few_entries

-- Thousandths, rounded up when a number is made of them.
abbrev pub thousandths : F64
thousandths = record {
  F = ℕ;
  of_usize = λ n. n;
  tenths = λ t. t;
  mul = λ n p. n * p;
  div = λ p q. p;
  ceil_usize = λ p. (p + 999) / 1000;
  Le = λ p q. p ≤ q;
  tenths_mono = λ a b h. h;
  mul_mono = λ n p q h. mul-le-mul_left n h;
  div_mono = λ n p q h. h;
  ceil_mono = λ p q h. omega arith;
}

abbrev pub samples : List ℕ
samples = 40 ∷ 10 ∷ 30 ∷ 20 ∷ []

half : rank thousandths 4 500 ≡ 2
unfolding rank
half = refl

percentile_nearest_rank_example :
    (x : ℕ) × (percentile thousandths (sort samples) 500 ≡ ok x)
    × (2 ≤ count_le x samples)
    × (count_lt x samples < 2)
percentile_nearest_rank_example =
    percentile_nearest_rank thousandths samples 500 2 half (omega arith) (omega arith)

late_times : times_from 2 ((1, 50) ∷ (2, 60) ∷ (2, 40) ∷ []) ≡ 60 ∷ 40 ∷ []
unfolding times_from
late_times = refl

compute_stats-Ends_example :
    let s = compute_stats store {F = ℕ} (after store 0 history) [] [] [] 10 in
    Ends (store.slot_map.entries (after store 0 history).slots) s.min_slot s.max_slot
unfolding after apply new record_shred record_slot_event record_grpc_latency
compute_stats-Ends_example =
    compute_stats-Ends store {F = ℕ} (after store 0 history) [] [] [] 10 (omega arith, tt)
