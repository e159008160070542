-- ===== src/Stats/Counts.antt =====
-- src/stats.rs:135-167: the per-source counters of `compute_stats` add up.
use mathlib.Core.Path.{subst₂}
use Prim.Native.String.{String}
use orbshred.Prelude.{
  ℕ, ◌+◌, ◌%◌, ◌^◌, ◌≤◌, ◌<◌, ◌≡◌, refl, ap, ◌∙◌, List, [], ◌∷◌, map, length, length-append, arith,
  All,
}
use orbshred.Shred.{ShredKey}
use orbshred.Registry.{SourceId, Instant, ShredRecord, Store, DropCounters, Registry}
use orbshred.Stats.{
  SourceStats, times_from, minimum, observe_times, observe, observe_all, init_source, compute_stats,
  since,
}

abbrev Entries : Type 0
Entries = List (ShredKey × ShredRecord)

-- The two loops exchanged: what all entries do to one source.
observe_one : Entries → SourceStats → SourceStats
observe_one [] s = s
observe_one (e ∷ es) s = observe_one es (observe e s)

observe_all-map :
    (es : Entries) (ss : List SourceStats) → observe_all es ss ≡ map (observe_one es) ss
unfolding observe_all observe_one
observe_all-map [] [] = refl
observe_all-map [] (s ∷ ss) = ap (◌∷◌ s) (observe_all-map [] ss)
observe_all-map (e ∷ es) ss = observe_all-map es (map (observe e) ss) ∙ map_map ss
  where
    map_map :
        (l : List SourceStats)
        → map (observe_one es) (map (observe e) l) ≡ map (observe_one (e ∷ es)) l
    map_map [] = refl
    map_map (s ∷ ss') = ap (◌∷◌ (observe_one es (observe e s))) (map_map ss')

-- How often the source delivered a shred of the list, repeats included.
unfoldable pub deliveries : SourceId → Entries → ℕ
deliveries id [] = 0
deliveries id ((key, rec) ∷ es) = length (times_from id rec.arrivals) + deliveries id es

-- The counters of one source over `n` shreds and `a` deliveries add up: each shred is received or
-- missed, each received one is data or code and has one latency sample, no more are won than
-- received, and every delivery past a shred's first is a duplicate (modulo 2^64).
pub record Tally (n a : ℕ) (s : SourceStats) : Type 0 where
  pub seen_or_missed : s.received + s.missed ≡ n
  pub typed : s.data_shreds + s.code_shreds ≡ s.received
  pub won : s.wins ≤ s.received
  pub timed : length s.latency_ns ≡ s.received
  pub repeats : (s.dupes + s.received) % 2 ^ 64 ≡ a % 2 ^ 64

observe_times-Tally :
    (n a : ℕ) (s : SourceStats) (key : ShredKey) (rec : ShredRecord) (ts : List Instant)
    → n + 1 < 2 ^ 64
    → Tally n a s
    → Tally (n + 1) (a + length ts) (observe_times key rec ts s)
unfolding observe_times
observe_times-Tally n a s key rec [] h t = ground arith
observe_times-Tally n a s key rec (u ∷ ts) h t = record {
  seen_or_missed = ground arith;
  typed = ground arith;
  won = ground arith;
  timed = ground (arith, length-append s.latency_ns (since (minimum u ts) rec.first_seen ∷ []));
  repeats = ground arith;
}

observe_id : (e : ShredKey × ShredRecord) (s : SourceStats) → (observe e s).id ≡ s.id
unfolding observe
observe_id (key, rec) s = times_id (times_from s.id rec.arrivals)
  where
    times_id : (ts : List Instant) → (observe_times key rec ts s).id ≡ s.id
    times_id [] = refl
    times_id (t ∷ ts) = refl

observe-Tally :
    (n a : ℕ) (s : SourceStats) (e : ShredKey × ShredRecord)
    → n + 1 < 2 ^ 64
    → Tally n a s
    → Tally (n + 1) (a + length (times_from s.id e.1.arrivals)) (observe e s)
unfolding observe
observe-Tally n a s (key, rec) h t =
    observe_times-Tally n a s key rec (times_from s.id rec.arrivals) h t

observe_one-Tally :
    (es : Entries) (n a : ℕ) (s : SourceStats)
    → n + length es < 2 ^ 64
    → Tally n a s
    → Tally (n + length es) (a + deliveries s.id es) (observe_one es s)
unfolding observe_one deliveries
observe_one-Tally [] n a s h t = subst₂ (λ m b. Tally m b s) (omega arith) (omega arith) t
observe_one-Tally ((key, rec) ∷ es) n a s h t =
    let s' = observe (key, rec) s in
    let k = length (times_from s.id rec.arrivals) in
    let same : deliveries s'.id es ≡ deliveries s.id es =
      ap (λ i. deliveries i es) (observe_id (key, rec) s) in
    let rest =
      observe_one-Tally es (n + 1) (a + k) s' (omega arith)
        (observe-Tally n a s (key, rec) (omega arith) t) in
    subst₂ (λ m b. Tally m b (observe_one es s')) (omega arith) (omega (arith, same)) rest

observe_one-id : (es : Entries) (s : SourceStats) → (observe_one es s).id ≡ s.id
unfolding observe_one
observe_one-id [] s = refl
observe_one-id (e ∷ es) s = observe_one-id es (observe e s) ∙ observe_id e s

observe_one_total :
    (es : Entries) (s : SourceStats)
    → length es < 2 ^ 64
    → Tally 0 0 s
    → Tally (length es) (deliveries (observe_one es s).id es) (observe_one es s)
observe_one_total es s h t =
    let same : deliveries (observe_one es s).id es ≡ deliveries s.id es =
      ap (λ i. deliveries i es) (observe_one-id es s) in
    subst₂ (λ m b. Tally m b (observe_one es s)) (omega arith) (omega (arith, same))
      (observe_one-Tally es 0 0 s (omega arith) t)

module _ {F : Type 0} (st : Store) (r : Registry st)
    (shred_sources entry_sources : List (SourceId × String)) (drops : DropCounters st)
    (secs : F) where
  open st use {shred_map}

  -- The counters of every shred-level source add up to the number of shreds in the registry and to
  -- the source's own deliveries, if the registry holds fewer than 2^64 shreds.
  pub compute_stats-Tally :
      length (shred_map.entries r.shreds) < 2 ^ 64
      → let stats = compute_stats st r shred_sources entry_sources drops secs in
        All
          (λ s. Tally stats.total_unique_shreds (deliveries s.id (shred_map.entries r.shreds)) s)
          stats.sources
  unfolding compute_stats init_source
  compute_stats-Tally h =
      rw (observe_all-map (shred_map.entries r.shreds) (map (init_source st drops) shred_sources))
        (each shred_sources)
    where
      es : Entries
      es = shred_map.entries r.shreds

      each :
          (l : List (SourceId × String))
          → All
              (λ s. Tally (length es) (deliveries s.id es) s)
              (map (observe_one es) (map (init_source st drops) l))
      each [] = tt
      each ((id, name) ∷ l) = (
        observe_one_total es (init_source st drops (id, name)) h (record {
          seen_or_missed = omega arith;
          typed = omega arith;
          won = omega arith;
          timed = refl;
          repeats = omega arith;
        }),
        each l,
      )
