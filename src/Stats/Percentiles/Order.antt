-- ===== src/Stats/Percentiles/Order.antt =====
-- src/stats.rs:50-74: the percentiles are samples, in order, at their nearest rank.
use orbshred.Prelude.{
  ℕ, ◌-◌, ◌/◌, ◌≤◌, ◌<◌, ◌≡◌, refl, ◌∙◌, ap, List, [], ◌∷◌, length, get_or, arith, min,
}
use orbshred.Prelude.Sort.{
  sort, IsSorted, sort-IsSorted, length-sort, count_le, count_lt, count_le-sort, count_lt-sort,
  get_or_mono, get_or-counts,
}
use orbshred.Exec.{ok, index_ok}
use orbshred.Stats.{as_u64}
use orbshred.Stats.Percentiles.{
  F64, Percentiles, rank, percentile, percentiles_of, compute_percentiles, sum,
}

-- The percentiles lie between the least and the greatest sample, in the order of their ranks.
pub record IsOrdered (p : Percentiles) : Type 0 where
  pub least : p.min ≤ p.p50
  pub p50_p90 : p.p50 ≤ p.p90
  pub p90_p95 : p.p90 ≤ p.p95
  pub p95_p99 : p.p95 ≤ p.p99
  pub p99_p99_9 : p.p99 ≤ p.p99_9
  pub greatest : p.p99_9 ≤ p.max

module _ (fl : F64) where
  open fl use {
    F, of_usize, tenths, mul, div, ceil_usize, Le, tenths_mono, mul_mono, div_mono, ceil_mono,
  }

  -- The position that `percentile` reads.
  position : List ℕ → F → ℕ
  position v p = min (rank fl (length v) p - 1) (length v - 1)

  percentile_at :
      (v : List ℕ) (p : F) → 0 < length v → percentile fl v p ≡ ok (get_or v (position v p) 0)
  unfolding percentile position
  percentile_at [] p h = elim h [ ]
  percentile_at (x ∷ xs) p h = index_ok (x ∷ xs) (position (x ∷ xs) p) (omega arith)

  position_mono : (v : List ℕ) (a b : ℕ) → a ≤ b → position v (tenths a) ≤ position v (tenths b)
  unfolding position rank
  position_mono v a b h =
      let n = of_usize (length v) in
      omega (
        arith,
        ceil_mono (div (mul n (tenths a)) (tenths 1000)) (div (mul n (tenths b)) (tenths 1000))
            (div_mono 1000 _ _ (mul_mono (length v) _ _ (tenths_mono a b h))),
      )

  position-lt : (v : List ℕ) (p : F) → 0 < length v → position v p < length v
  unfolding position
  position-lt v p h = omega arith

  step :
      (v : List ℕ) (a b : ℕ)
      → IsSorted v
      → 0 < length v
      → a ≤ b
      → get_or v (position v (tenths a)) 0 ≤ get_or v (position v (tenths b)) 0
  step v a b s h o = get_or_mono v _ _ s (position_mono v a b o) (position-lt v (tenths b) h)

  abbrev result : List ℕ → Percentiles
  result v = record {
    p50 = get_or v (position v (tenths 500)) 0;
    p90 = get_or v (position v (tenths 900)) 0;
    p95 = get_or v (position v (tenths 950)) 0;
    p99 = get_or v (position v (tenths 990)) 0;
    p99_9 = get_or v (position v (tenths 999)) 0;
    max = get_or v (length v - 1) 0;
    min = get_or v 0 0;
    mean = as_u64 (sum v) / length v;
  }

  percentiles_of-result : (v : List ℕ) → 0 < length v → percentiles_of fl v ≡ ok (result v)
  unfolding percentiles_of
  percentiles_of-result v h = rw (
    index_ok v 0 h,
    percentile_at v (tenths 500) h,
    percentile_at v (tenths 900) h,
    percentile_at v (tenths 950) h,
    percentile_at v (tenths 990) h,
    percentile_at v (tenths 999) h,
    index_ok v (length v - 1) (omega arith),
  )

  result-IsOrdered : (v : List ℕ) → IsSorted v → 0 < length v → IsOrdered (result v)
  unfolding position
  result-IsOrdered v s h = record {
    least = get_or_mono v 0 (position v (tenths 500)) s (omega arith) (position-lt v _ h);
    p50_p90 = step v 500 900 s h (omega arith);
    p90_p95 = step v 900 950 s h (omega arith);
    p95_p99 = step v 950 990 s h (omega arith);
    p99_p99_9 = step v 990 999 s h (omega arith);
    greatest = get_or_mono v (position v (tenths 999)) (length v - 1) s (omega arith) (omega arith);
  }

  -- On any samples, none included, the computation returns, and its results are ordered.
  pub compute_percentiles-IsOrdered :
      (v : List ℕ) → (p : Percentiles) × (compute_percentiles fl v ≡ ok p) × IsOrdered p
  unfolding compute_percentiles
  compute_percentiles-IsOrdered [] = (_, refl, omega arith)
  compute_percentiles-IsOrdered (x ∷ xs) =
      let v = sort (x ∷ xs) in
      let some_sample : 0 < length v = omega (arith, length-sort (x ∷ xs)) in
      (
        result v,
        percentiles_of-result v some_sample,
        result-IsOrdered v (sort-IsSorted (x ∷ xs)) some_sample,
      )

  -- If the rank comes out as `r`, a position within the samples, the percentile is the sample of that
  -- rank: at least `r` samples are at or below it, and fewer than `r` are below it.
  pub percentile_nearest_rank :
      (v : List ℕ) (p : F) (r : ℕ)
      → rank fl (length v) p ≡ r
      → 0 < r
      → r ≤ length v
      → (x : ℕ) × (percentile fl (sort v) p ≡ ok x) × (r ≤ count_le x v) × (count_lt x v < r)
  unfolding position
  percentile_nearest_rank v p r e pos h =
      let s = sort v in
      let same : length s ≡ length v = length-sort v in
      let ranked : rank fl (length s) p ≡ r = rw same e in
      let place : position s p ≡ r - 1 = omega (arith, ranked, same) in
      let x = get_or s (r - 1) 0 in
      let counts = get_or-counts s (r - 1) (sort-IsSorted v) (omega (arith, same)) in
      (
        x,
        percentile_at s p (omega (arith, same)) ∙ ap (λ i. ok (get_or s i 0)) place,
        omega (arith, counts.0, count_le-sort x v),
        omega (arith, counts.1, count_lt-sort x v),
      )
