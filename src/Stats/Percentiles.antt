-- ===== src/Stats/Percentiles.antt =====
-- src/stats.rs:50-74: percentiles of the latency samples.
-- The rank is computed in `f64`. The type and its operations are a parameter; what is asked of them
-- is that they are monotone, as every operation that rounds to the nearest float is.
pub mod Order
use orbshred.Prelude.{ℕ, ◌+◌, ◌-◌, ◌/◌, ◌%◌, ◌^◌, ◌≤◌, ◌≡◌, List, [], ◌∷◌, length, min}
use orbshred.Prelude.Sort.{sort}
use orbshred.Exec.{Exec, ok, ◌>>=◌, index}
use orbshred.Stats.{as_u64}

pub record F64 : Type 1 where
  pub F : Type 0
  -- `n as f64`
  pub of_usize : ℕ → F
  -- the literal `t / 10`
  pub tenths : ℕ → F
  pub mul : F → F → F
  pub div : F → F → F
  -- `x.ceil() as usize`
  pub ceil_usize : F → ℕ
  pub Le : F → F → Type 0
  pub tenths_mono : (a b : ℕ) → a ≤ b → Le (tenths a) (tenths b)
  pub mul_mono : (n : ℕ) (p q : F) → Le p q → Le (mul (of_usize n) p) (mul (of_usize n) q)
  pub div_mono : (n : ℕ) (p q : F) → Le p q → Le (div p (tenths n)) (div q (tenths n))
  pub ceil_mono : (p q : F) → Le p q → ceil_usize p ≤ ceil_usize q

pub record Percentiles : Type 0 where
  pub p50 : ℕ
  pub p90 : ℕ
  pub p95 : ℕ
  pub p99 : ℕ
  pub p99_9 : ℕ
  pub max : ℕ
  pub min : ℕ
  pub mean : ℕ

abbrev pub no_samples : Percentiles
no_samples = record { p50 = 0; p90 = 0; p95 = 0; p99 = 0; p99_9 = 0; max = 0; min = 0; mean = 0 }

-- `iter().sum::<u64>()`
unfoldable pub sum : List ℕ → ℕ
sum [] = 0
sum (x ∷ xs) = x + sum xs

module _ (fl : F64) where
  open fl use {F, of_usize, tenths, mul, div, ceil_usize}

  -- `(len as f64 * p / 100.0).ceil() as usize`
  unfoldable pub rank : ℕ → F → ℕ
  rank len p = ceil_usize (div (mul (of_usize len) p) (tenths 1000))

  unfoldable pub percentile : List ℕ → F → Exec ℕ
  unfolding rank
  percentile [] p = ok 0
  percentile (x ∷ xs) p =
      let sorted = x ∷ xs in index sorted (min (rank (length sorted) p - 1) (length sorted - 1))

  -- The fields over the sorted samples. `v.last().unwrap()` reads the last one.
  unfoldable pub percentiles_of : List ℕ → Exec Percentiles
  unfolding percentile sum
  percentiles_of v = do
    least ← index v 0
    p50 ← percentile v (tenths 500)
    p90 ← percentile v (tenths 900)
    p95 ← percentile v (tenths 950)
    p99 ← percentile v (tenths 990)
    p99_9 ← percentile v (tenths 999)
    last ← index v (length v - 1)
    ok (record {
      p50 = p50;
      p90 = p90;
      p95 = p95;
      p99 = p99;
      p99_9 = p99_9;
      max = last;
      min = least;
      mean = as_u64 (sum v) / length v;
    })

  unfoldable pub compute_percentiles : List ℕ → Exec Percentiles
  unfolding percentiles_of
  compute_percentiles [] = ok no_samples
  compute_percentiles (x ∷ xs) = percentiles_of (sort (x ∷ xs))
