-- ===== src/Registry/Drops.antt =====
-- src/registry.rs:16-38: the drop counters under any sequence of increments.
use orbshred.Prelude.{
  ℕ, ◌+◌, ◌%◌, ◌^◌, ◌≡◌, refl, ap, ◌∙◌, Option, none, some, List, [], ◌∷◌, inl, inr, ◌==◌,
  if◌then◌else◌, Bool-cases, ==_iff, arith,
}
use orbshred.DashMap.{modify_or}
use orbshred.Registry.{SourceId, Store, DropCounters, inc, drops_of}

-- How often a source occurs.
unfoldable pub drops_in : SourceId → List SourceId → ℕ
drops_in s [] = 0
drops_in s (d ∷ older) = if d == s then drops_in s older + 1 else drops_in s older

abbrev count_of : Option ℕ → ℕ
count_of o = elim o [ none ↦ 0 | some c ↦ c ]

one_more :
    (o : Option ℕ)
    → count_of (some (modify_or (λ c. (c + 1) % 2 ^ 64) 1 o)) ≡ (count_of o + 1) % 2 ^ 64
one_more none = refl
one_more (some c) = refl

module _ (st : Store) where
  open st use {counter_map}

  -- One drop adds one to its source's counter and leaves the others.
  pub drops_of-inc :
      (d s : SourceId) (m : DropCounters st)
      → drops_of st s (inc st d m)
        ≡ (if d == s then (drops_of st s m + 1) % 2 ^ 64 else drops_of st s m)
  unfolding drops_of inc
  drops_of-inc d s m =
      ap count_of (counter_map.get-upsert d s _ _ _) ∙ (elim (Bool-cases (d == s)) [
        | inl hit ↦ rw (hit, (==_iff d s).0 hit) (one_more (counter_map.get s m))
        | inr miss ↦ rw miss
      ])

  -- The counters after a history of drops, the newest first.
  unfoldable pub counters_after : List SourceId → DropCounters st
  counters_after [] = counter_map.empty
  counters_after (d ∷ older) = inc st d (counters_after older)

  -- A source's counter is the number of its drops modulo 2^64: no drop is lost, and the drops of the
  -- other sources do not count.
  pub drops_of-counters_after :
      (h : List SourceId) (s : SourceId) → drops_of st s (counters_after h) ≡ drops_in s h % 2 ^ 64
  unfolding drops_of counters_after drops_in
  drops_of-counters_after [] s = ap count_of (counter_map.get-empty s)
  drops_of-counters_after (d ∷ older) s =
      drops_of-inc d s (counters_after older) ∙ ground (arith, drops_of-counters_after older s)
