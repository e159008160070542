-- ===== src/Table/Ranked.antt =====
-- src/output/table.rs:140-331: which rows the tables have, and in which order.
use orbshred.Prelude.{ℕ, ◌≡◌, refl, Bool, true, false, List, [], ◌∷◌, map, ltb, arith}
use orbshred.Prelude.SortBy.{sort_by, SameRows, InOrder, sort_by-SameRows, sort_by-InOrder}
use orbshred.Exec.{Exec, ok, ◌>>=◌, Returns}
use orbshred.Stats.{SourceStats, EntrySourceStats, GrpcOverheadStats, BenchmarkStats}
use orbshred.Stats.Percentiles.{F64, Percentiles, compute_percentiles}
use orbshred.Stats.Percentiles.Order.{compute_percentiles-IsOrdered}
use orbshred.Table.{
  Format, Tables, traverse, second, ascending, descending, ranked, keep, win_entry, coverage_entry,
  type_row, latency_entry, slot_entry, grpc_overhead_row, grpc_entry, print_results,
}

-- The order of the keys is total and transitive.
record IsRanking (before : ℕ → ℕ → Bool) : Type 0 where
  total : (a b : ℕ) → before a b ≡ false → before b a ≡ true
  trans : (a b c : ℕ) → before a b ≡ true → before b c ≡ true → before a c ≡ true

ascending-IsRanking : IsRanking ascending
ascending-IsRanking = record {
  total = λ a b h. ground (arith, h);
  trans = λ a b c h k. ground (arith, h, k);
}

descending-IsRanking : IsRanking descending
descending-IsRanking = record {
  total = λ a b h. ground (arith, h);
  trans = λ a b c h k. ground (arith, h, k);
}

-- Each entry has its item's key.
abbrev pub Keyed : {A R : Type 0} → (A → ℕ → Type 0) → List A → List (ℕ × R) → Type 0
Keyed Key [] [] = Unit {0}
Keyed Key [] (y ∷ ys) = ⊥
Keyed Key (x ∷ xs) [] = ⊥
Keyed Key (x ∷ xs) (y ∷ ys) = Key x y.0 × Keyed Key xs ys

-- A table has the rows of its items, one for each, in the order of the items' keys.
abbrev pub Ranked :
    {A R : Type 0}
    → (ℕ → ℕ → Bool)
    → (A → ℕ → Type 0)
    → (A → Exec (ℕ × R))
    → List A
    → List R
    → Type 0
Ranked {R} before Key entry xs table =
    (entries sorted : List (ℕ × R)) × (traverse entry xs ≡ ok entries)
    × Keyed Key xs entries
    × SameRows before entries sorted
    × InOrder before sorted
    × (table ≡ map second sorted)

-- The entry comes back, and has the key.
abbrev Entered : {A R : Type 0} → (A → ℕ → Type 0) → A → Exec (ℕ × R) → Type 0
Entered {R} Key a m = (y : ℕ × R) × (m ≡ ok y) × Key a y.0

traverse-Keyed :
    {A R : Type 0} (Key : A → ℕ → Type 0) (entry : A → Exec (ℕ × R)) (xs : List A)
    → ((a : A) → Entered Key a (entry a))
    → (ys : List (ℕ × R)) × (traverse entry xs ≡ ok ys) × Keyed Key xs ys
unfolding traverse
traverse-Keyed Key entry [] h = ([], refl, tt)
traverse-Keyed Key entry (x ∷ xs) h =
    let (y, e, k) = h x in
    let (ys, e', l) = traverse-Keyed Key entry xs h in (y ∷ ys, rw (e, e') refl, (k, l))

ranked-Ranked :
    {A R : Type 0} (before : ℕ → ℕ → Bool) (Key : A → ℕ → Type 0) (entry : A → Exec (ℕ × R))
    (xs : List A)
    → IsRanking before
    → ((a : A) → Entered Key a (entry a))
    → (table : List R) × (ranked before entry xs ≡ ok table) × Ranked before Key entry xs table
unfolding ranked
ranked-Ranked before Key entry xs order h =
    let (entries, e, l) = traverse-Keyed Key entry xs h in
    let sorted = sort_by before entries in
    (
      map second sorted,
      rw e,
      (
        entries,
        sorted,
        e,
        l,
        sort_by-SameRows before entries,
        sort_by-InOrder before order.total order.trans entries,
        refl,
      ),
    )

module _ (fl : F64) where
  -- The median of the samples, by the nearest rank.
  abbrev pub IsMedian : List ℕ → ℕ → Type 0
  IsMedian samples n = (p : Percentiles) × (compute_percentiles fl samples ≡ ok p) × (n ≡ p.p50)

  -- An entry that is made from the percentiles, with their median as its key.
  bind-IsMedian :
      {R : Type 0} (samples : List ℕ) (p : Percentiles) (f : Percentiles → Exec (ℕ × R)) (y : ℕ × R)
      → compute_percentiles fl samples ≡ ok p
      → f p ≡ ok y
      → y.0 ≡ p.p50
      → (z : ℕ × R) × ((compute_percentiles fl samples >>= f) ≡ ok z) × IsMedian samples z.0
  bind-IsMedian samples p f y e h q = (y, rw e h, (p, e, q))

module _ (fmt : Format) (fl : F64) where
  latency_entry-Entered :
      (s : SourceStats)
      → Entered (λ (a : SourceStats). IsMedian fl a.latency_ns) s (latency_entry fmt fl s)
  unfolding latency_entry
  latency_entry-Entered s =
      let (p, e, o) = compute_percentiles-IsOrdered fl s.latency_ns in
      bind-IsMedian fl s.latency_ns p _ _ e refl refl

  slot_entry-Entered :
      (s : EntrySourceStats)
      → Entered (λ (a : EntrySourceStats). IsMedian fl a.latency_ns) s (slot_entry fmt fl s)
  unfolding slot_entry
  slot_entry-Entered s =
      let (p, e, o) = compute_percentiles-IsOrdered fl s.latency_ns in
      bind-IsMedian fl s.latency_ns p _ _ e refl refl

  grpc_overhead_row-Returns : (s : GrpcOverheadStats) → Returns (grpc_overhead_row fmt fl s)
  unfolding grpc_overhead_row
  grpc_overhead_row-Returns s =
      let (p, e, o) = compute_percentiles-IsOrdered fl s.latency_ns in rw e (_, refl)

  grpc_entry-Entered :
      (s : GrpcOverheadStats)
      → Entered (λ (a : GrpcOverheadStats). IsMedian fl a.latency_ns) s (grpc_entry fmt fl s)
  unfolding grpc_entry
  grpc_entry-Entered s =
      let (p, e, o) = compute_percentiles-IsOrdered fl s.latency_ns in
      let (row, r) = grpc_overhead_row-Returns s in
      bind-IsMedian fl s.latency_ns p _ (p.p50, row) e (rw r refl) refl

  -- The results can always be shown, and each table is complete and in order. The latency table has a
  -- row for each source, the smallest median of its latencies first; the tables of wins, of coverage
  -- and of the types have one too, the most wins and the most received first; the tables of entry
  -- latencies and of the overhead have a row for each source that has seen a slot or has a sample, the
  -- smallest median first.
  pub print_results-Ranked :
      {F : Type 0} (stats : BenchmarkStats F)
      → (t : Tables) × (by_received : List SourceStats) × (print_results fmt fl stats ≡ ok t)
        × Ranked ascending
            (λ (s : SourceStats). IsMedian fl s.latency_ns)
            (latency_entry fmt fl)
            stats.sources
            t.latency
        × Ranked descending (λ (s : SourceStats) n. n ≡ s.wins) (win_entry fmt) stats.sources t.wins
        × Ranked descending
            (λ (s : SourceStats) n. n ≡ s.received)
            (coverage_entry fmt stats.total_unique_shreds)
            stats.sources
            t.coverage
        × Ranked descending
            (λ (s : SourceStats) n. n ≡ s.received)
            (λ (s : SourceStats). ok (s.received, s))
            stats.sources
            by_received
        × (t.types ≡ map (type_row fmt) by_received)
        × Ranked ascending
            (λ (s : EntrySourceStats). IsMedian fl s.latency_ns)
            (slot_entry fmt fl)
            (keep (λ (s : EntrySourceStats). ltb 0 s.slots_seen) stats.slot_stats.entry_sources)
            t.entries
        × Ranked ascending
            (λ (s : GrpcOverheadStats). IsMedian fl s.latency_ns)
            (grpc_entry fmt fl)
            (keep (λ (s : GrpcOverheadStats). ltb 0 s.samples) stats.grpc_overhead)
            t.overhead
  unfolding print_results win_entry coverage_entry
  print_results-Ranked stats =
      let (latency, e1, r1) =
        ranked-Ranked ascending (λ (s : SourceStats). IsMedian fl s.latency_ns)
          (latency_entry fmt fl) stats.sources ascending-IsRanking latency_entry-Entered in
      let (wins, e2, r2) =
        ranked-Ranked descending (λ (s : SourceStats) n. n ≡ s.wins) (win_entry fmt) stats.sources
          descending-IsRanking (λ s. (_, refl, refl)) in
      let (cover, e3, r3) =
        ranked-Ranked descending (λ (s : SourceStats) n. n ≡ s.received)
          (coverage_entry fmt stats.total_unique_shreds) stats.sources descending-IsRanking
          (λ s. (_, refl, refl)) in
      let (received, e4, r4) =
        ranked-Ranked descending (λ (s : SourceStats) n. n ≡ s.received)
          (λ (s : SourceStats). ok (s.received, s)) stats.sources descending-IsRanking
          (λ s. (_, refl, refl)) in
      let (entries, e5, r5) =
        ranked-Ranked ascending (λ (s : EntrySourceStats). IsMedian fl s.latency_ns)
          (slot_entry fmt fl)
          (keep (λ (s : EntrySourceStats). ltb 0 s.slots_seen) stats.slot_stats.entry_sources)
          ascending-IsRanking slot_entry-Entered in
      let (overhead, e6, r6) =
        ranked-Ranked ascending (λ (s : GrpcOverheadStats). IsMedian fl s.latency_ns)
          (grpc_entry fmt fl)
          (keep (λ (s : GrpcOverheadStats). ltb 0 s.samples) stats.grpc_overhead)
          ascending-IsRanking grpc_entry-Entered in
      let t : Tables = record {
        latency = latency;
        wins = wins;
        coverage = cover;
        types = map (type_row fmt) received;
        entries = entries;
        overhead = overhead;
      } in
      (t, received, rw (e1, e2, e3, e4, e5, e6), r1, r2, r3, r4, refl, r5, r6)
