-- ===== src/Table.antt =====
-- src/output/table.rs: the rows of the result tables and their order. A `Tables` value holds what
-- `print_results` hands to the `tabled` crate, which draws it. How `format!` shows floats and pads
-- numbers is a parameter, and so is the step from characters, given by their codes, to a string.
pub mod Numbers
pub mod Ranked
pub mod Banner
pub mod Printout
use Prim.Native.String.{String}
use orbshred.Prelude.{
  ℕ, suc, ◌+◌, ◌*◌, ◌/◌, ◌%◌, ◌^◌, Bool, ◌&&◌, Option, none, some, List, [], ◌∷◌, map, ltb, leb,
  ◌==◌, if◌then◌else◌,
}
use orbshred.Prelude.Text.{join}
use orbshred.Prelude.Decimal.{reversed_decimal, backwards}
use orbshred.Prelude.SortBy.{sort_by}
use orbshred.Exec.{Exec, ok, ◌>>=◌}
use orbshred.Stats.{
  SourceStats, EntrySourceStats, SlotStats, GrpcOverheadStats, BenchmarkStats, add_u64,
}
use orbshred.Stats.Percentiles.{F64, Percentiles, compute_percentiles}

abbrev pub comma : ℕ
comma = 44

-- The loop over the digits from the last one on.
unfoldable pub with_commas : ℕ → List ℕ → List ℕ
with_commas i [] = []
with_commas i (c ∷ cs) =
    let rest = with_commas (suc i) cs in
    if ltb 0 i && i % 3 == 0 then comma ∷ c ∷ rest else c ∷ rest

unfoldable pub num_fmt : ℕ → List ℕ
unfolding with_commas backwards
num_fmt n = backwards (with_commas 0 (reversed_decimal n))

-- `format!` of `n as f64 / d as f64` with a width and a number of decimals, of the same times 100.0
-- with a width and one decimal, and of `n` with a width.
pub record Format : Type 0 where
  pub quotient : (width decimals n d : ℕ) → String
  pub percentage : (width n d : ℕ) → String
  pub padded : (width n : ℕ) → String
  pub text : List ℕ → String

pub record LatencyRow : Type 0 where
  pub source : String
  pub shreds : String
  pub p50 : String
  pub p90 : String
  pub p95 : String
  pub p99 : String
  pub p99_9 : String
  pub max : String

pub record WinRow : Type 0 where
  pub source : String
  pub wins : String
  pub total_received : String
  pub win_rate : String

pub record CoverageRow : Type 0 where
  pub source : String
  pub received : String
  pub coverage : String
  pub dupes : String
  pub missed : String
  pub drops : String

pub record ShredTypeRow : Type 0 where
  pub source : String
  pub data_shreds : String
  pub code_shreds : String

pub record SlotRow : Type 0 where
  pub source : String
  pub slots : String
  pub drops : String
  pub p50 : String
  pub p90 : String
  pub p95 : String
  pub p99 : String
  pub max : String

pub record GrpcOverheadRow : Type 0 where
  pub source : String
  pub samples : String
  pub p50 : String
  pub p90 : String
  pub p95 : String
  pub p99 : String
  pub max : String

-- A table without rows is left out of the last two.
pub record Tables : Type 0 where
  pub latency : List LatencyRow
  pub wins : List WinRow
  pub coverage : List CoverageRow
  pub types : List ShredTypeRow
  pub entries : List SlotRow
  pub overhead : List GrpcOverheadRow

unfoldable pub traverse {ℓ κ} : {A : Type ℓ} {B : Type κ} → (A → Exec B) → List A → Exec (List B)
traverse f [] = ok []
traverse f (x ∷ xs) = do y ← f x; ys ← traverse f xs; ok (y ∷ ys)

abbrev pub second : {R : Type 0} → ℕ × R → R
second (n, r) = r

-- Smallest key first, and largest key first.
abbrev pub ascending : ℕ → ℕ → Bool
ascending a b = leb a b

abbrev pub descending : ℕ → ℕ → Bool
descending a b = leb b a

-- The rows with their keys, sorted, and the keys dropped.
unfoldable pub ranked {ℓ} :
    {A : Type ℓ} {R : Type 0} → (ℕ → ℕ → Bool) → (A → Exec (ℕ × R)) → List A → Exec (List R)
unfolding traverse sort_by
ranked before entry xs = do rows ← traverse entry xs; ok (map second (sort_by before rows))

unfoldable pub keep {ℓ} : {A : Type ℓ} → (A → Bool) → List A → List A
keep p [] = []
keep p (x ∷ xs) = if p x then x ∷ keep p xs else keep p xs

-- `part * 100 / total`, all in `u64`.
unfoldable pub percent : ℕ → ℕ → ℕ
percent part total = if ltb 0 total then part * 100 % 2 ^ 64 / total else 0

module _ (fmt : Format) where
  open fmt use {quotient, percentage, padded, text}

  unfoldable pub fmt_ns : ℕ → String
  fmt_ns ns =
      if ns == 0
      then "  0 µs"
      else if ltb ns 1000
      then join (padded 3 ns) " ns"
      else if ltb ns 1000000
      then join (quotient 5 1 ns 1000) " µs"
      else if ltb ns 1000000000
      then join (quotient 5 1 ns 1000000) " ms"
      else join (quotient 5 2 ns 1000000000) "  s"

  -- `received as f64 / total as f64 * 100.0`
  unfoldable pub coverage : ℕ → ℕ → String
  coverage received total = if total == 0 then "  N/A" else join (percentage 5 received total) "%"

  unfoldable pub win_rate : SourceStats → String
  win_rate s = if ltb 0 s.received then join (percentage 0 s.wins s.received) "%" else "N/A"

  unfoldable pub win_entry : SourceStats → Exec (ℕ × WinRow)
  unfolding win_rate num_fmt
  win_entry s = ok (
    s.wins,
    record {
      source = s.name;
      wins = text (num_fmt s.wins);
      total_received = text (num_fmt s.received);
      win_rate = win_rate s;
    },
  )

  unfoldable pub coverage_entry : ℕ → SourceStats → Exec (ℕ × CoverageRow)
  unfolding coverage num_fmt
  coverage_entry total s = ok (
    s.received,
    record {
      source = s.name;
      received = text (num_fmt s.received);
      coverage = coverage s.received total;
      dupes = text (num_fmt s.dupes);
      missed = text (num_fmt s.missed);
      drops = text (num_fmt s.drops);
    },
  )

  -- `{} ({}%)`
  unfoldable pub share : ℕ → ℕ → String
  unfolding percent num_fmt
  share part total =
      join (text (num_fmt part)) (join " (" (join (padded 0 (percent part total)) "%)"))

  unfoldable pub type_row : SourceStats → ShredTypeRow
  unfolding share
  type_row s =
      let total_s = add_u64 s.data_shreds s.code_shreds in
      record {
        source = s.name;
        data_shreds = share s.data_shreds total_s;
        code_shreds = share s.code_shreds total_s;
      }

  module _ (fl : F64) where
    unfoldable pub latency_entry : SourceStats → Exec (ℕ × LatencyRow)
    unfolding fmt_ns num_fmt
    latency_entry s = do
      p ← compute_percentiles fl s.latency_ns
      ok (
        p.p50,
        record {
          source = s.name;
          shreds = text (num_fmt s.received);
          p50 = fmt_ns p.p50;
          p90 = fmt_ns p.p90;
          p95 = fmt_ns p.p95;
          p99 = fmt_ns p.p99;
          p99_9 = fmt_ns p.p99_9;
          max = fmt_ns p.max;
        },
      )

    unfoldable pub slot_entry : EntrySourceStats → Exec (ℕ × SlotRow)
    unfolding fmt_ns num_fmt
    slot_entry s = do
      p ← compute_percentiles fl s.latency_ns
      ok (
        p.p50,
        record {
          source = s.name;
          slots = text (num_fmt s.slots_seen);
          drops = text (num_fmt s.drops);
          p50 = fmt_ns p.p50;
          p90 = fmt_ns p.p90;
          p95 = fmt_ns p.p95;
          p99 = fmt_ns p.p99;
          max = fmt_ns p.max;
        },
      )

    unfoldable pub grpc_overhead_row : GrpcOverheadStats → Exec GrpcOverheadRow
    unfolding fmt_ns num_fmt
    grpc_overhead_row s = do
      p ← compute_percentiles fl s.latency_ns
      ok (record {
        source = s.name;
        samples = text (num_fmt s.samples);
        p50 = fmt_ns p.p50;
        p90 = fmt_ns p.p90;
        p95 = fmt_ns p.p95;
        p99 = fmt_ns p.p99;
        max = fmt_ns p.max;
      })

    unfoldable pub grpc_entry : GrpcOverheadStats → Exec (ℕ × GrpcOverheadRow)
    unfolding grpc_overhead_row
    grpc_entry s = do
      p ← compute_percentiles fl s.latency_ns
      row ← grpc_overhead_row s
      ok (p.p50, row)

    unfoldable pub print_results : {F : Type 0} → BenchmarkStats F → Exec Tables
    unfolding ranked keep latency_entry win_entry coverage_entry type_row slot_entry grpc_entry
    print_results stats = do
      latency ← ranked ascending latency_entry stats.sources
      wins ← ranked descending win_entry stats.sources
      coverage ← ranked descending (coverage_entry stats.total_unique_shreds) stats.sources
      sources_by_received ←
          ranked descending (λ (s : SourceStats). ok (s.received, s)) stats.sources
      entries ←
          ranked ascending slot_entry
            (keep (λ (s : EntrySourceStats). ltb 0 s.slots_seen) stats.slot_stats.entry_sources)
      overhead ←
          ranked ascending grpc_entry
            (keep (λ (s : GrpcOverheadStats). ltb 0 s.samples) stats.grpc_overhead)
      ok (record {
        latency = latency;
        wins = wins;
        coverage = coverage;
        types = map type_row sources_by_received;
        entries = entries;
        overhead = overhead;
      })
