-- ===== src/Examples/Tables.antt =====
-- A concrete result for src/output/table.rs.
use orbshred.Prelude.{ℕ, ◌≡◌, List, [], ◌∷◌, map, ltb}
use orbshred.Prelude.Decimal.{backwards}
use orbshred.Exec.{ok}
use orbshred.Stats.{SourceStats, EntrySourceStats, GrpcOverheadStats, BenchmarkStats}
use orbshred.Table.{
  Format, Tables, num_fmt, win_entry, coverage_entry, type_row, latency_entry, slot_entry,
  grpc_entry, ascending, descending, keep, print_results,
}
use orbshred.Table.Numbers.{read_number, Grouped, read_number-num_fmt}
use orbshred.Table.Ranked.{IsMedian, Ranked, print_results-Ranked}
use orbshred.Examples.Records.{thousandths}

read_number-num_fmt_example :
    (read_number (num_fmt 1234567) ≡ 1234567)
    × (text : List ℕ) × (num_fmt 1234567 ≡ backwards text)
    × Grouped text
read_number-num_fmt_example = read_number-num_fmt 1234567

abbrev pub fmt : Format
fmt = record {
  quotient = λ width decimals n d. "1.0";
  percentage = λ width n d. "50.0";
  padded = λ width n. "7";
  text = λ cs. "1,000";
}

abbrev source : ℕ → ℕ → SourceStats
source id latency = record {
  id = id;
  name = "source";
  received = 2;
  data_shreds = 1;
  code_shreds = 1;
  wins = id;
  missed = 0;
  dupes = 0;
  drops = 0;
  latency_ns = latency ∷ [];
}

abbrev stats : BenchmarkStats ℕ
stats = record {
  sources = source 1 50 ∷ source 2 40 ∷ [];
  total_unique_shreds = 2;
  slot_stats = record { total_slots = 0; entry_sources = [] };
  grpc_overhead = record { id = 3; name = "geyser"; samples = 1; latency_ns = 5 ∷ [] } ∷ [];
  duration_secs = 10;
  min_slot = 0;
  max_slot = 0;
}

print_results-Ranked_example :
    (t : Tables) × (by_received : List SourceStats) × (print_results fmt thousandths stats ≡ ok t)
    × Ranked ascending
        (λ (s : SourceStats). IsMedian thousandths s.latency_ns)
        (latency_entry fmt thousandths)
        stats.sources
        t.latency
    × Ranked descending (λ (s : SourceStats) n. n ≡ s.wins) (win_entry fmt) stats.sources t.wins
    × Ranked descending
        (λ (s : SourceStats) n. n ≡ s.received)
        (coverage_entry fmt 2)
        stats.sources
        t.coverage
    × Ranked descending
        (λ (s : SourceStats) n. n ≡ s.received)
        (λ (s : SourceStats). ok (s.received, s))
        stats.sources
        by_received
    × (t.types ≡ map (type_row fmt) by_received)
    × Ranked ascending
        (λ (s : EntrySourceStats). IsMedian thousandths s.latency_ns)
        (slot_entry fmt thousandths)
        (keep (λ (s : EntrySourceStats). ltb 0 s.slots_seen) stats.slot_stats.entry_sources)
        t.entries
    × Ranked ascending
        (λ (s : GrpcOverheadStats). IsMedian thousandths s.latency_ns)
        (grpc_entry fmt thousandths)
        (keep (λ (s : GrpcOverheadStats). ltb 0 s.samples) stats.grpc_overhead)
        t.overhead
print_results-Ranked_example = print_results-Ranked fmt thousandths stats
