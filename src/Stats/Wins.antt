-- ===== src/Stats/Wins.antt =====
-- src/stats.rs:161-164: which sources win a shred. A win is a delta of 0 to the first call about the
-- shred, and `duration_since` gives 0 for every earlier time too.
use Prim.Native.Nat.{min}
use orbshred.Prelude.{ℕ, ◌^◌, ◌≤◌, ◌<◌, ◌≡◌, ◌≢◌, sym, ◌∙◌, some, List, [], ◌∷◌, arith}
use orbshred.Shred.{ShredKey, same_key_iff}
use orbshred.Registry.{SourceId, Instant, ShredEvent, ShredRecord, Store, RegistryOp, shred, after}
use orbshred.Registry.History.{shreds-after, record_of, arrivals_of}
use orbshred.Stats.{SourceStats, times_from, minimum, observe_times, observe, add_u64}

pub minimum-le : (t : ℕ) (ts : List ℕ) → minimum t ts ≤ t
unfolding minimum
minimum-le t [] = omega arith
minimum-le t (u ∷ us) = omega (arith, minimum-le (min t u) us)

-- A source that delivered the shred at the time of the first call, or before, wins it.
early_wins :
    (key : ShredKey) (rec : ShredRecord) (s : SourceStats) (t : Instant) (ts : List Instant)
    → times_from s.id rec.arrivals ≡ t ∷ ts
    → minimum t ts ≤ rec.first_seen
    → (observe (key, rec) s).wins ≡ add_u64 s.wins 1
unfolding observe
early_wins key rec s t ts e h = rw (e, observe_times) (ground arith)

-- A source whose every delivery came after the first call does not win it.
pub late_loses :
    (key : ShredKey) (rec : ShredRecord) (s : SourceStats) (t : Instant) (ts : List Instant)
    → times_from s.id rec.arrivals ≡ t ∷ ts
    → rec.first_seen < minimum t ts
    → minimum t ts < 2 ^ 64
    → (observe (key, rec) s).wins ≡ s.wins
unfolding observe
late_loses key rec s t ts e h k = rw (e, observe_times) (ground arith)

abbrev Heads : ShredRecord → Type 0
Heads rec =
    (rest : List (SourceId × Instant)) × (rec.arrivals ≡ (rec.first_source, rec.first_seen) ∷ rest)

record_of-Heads :
    (h : List (SourceId × Instant)) (rec : ShredRecord) → record_of h ≡ some rec → Heads rec
unfolding record_of
record_of-Heads [] rec e = cc
record_of-Heads ((s, t) ∷ rest) rec e = (rest, ground arith)

module _ (st : Store) (start : Instant) where
  open st use {shred_map}

  -- Whatever the history, the source of the first call about a shred wins that shred.
  pub first_source_wins :
      (ops : List RegistryOp) (k : ShredKey) (rec : ShredRecord) (s : SourceStats)
      → shred_map.get k (after st start ops).shreds ≡ some rec
      → s.id ≡ rec.first_source
      → (observe (k, rec) s).wins ≡ add_u64 s.wins 1
  unfolding times_from
  first_source_wins ops k rec s e same =
      let (rest, head) =
        record_of-Heads (arrivals_of k ops) rec (sym (shreds-after st start ops k) ∙ e) in
      early_wins k rec s rec.first_seen (times_from s.id rest)
        (rw (head, times_from) (ground arith)) (minimum-le rec.first_seen (times_from s.id rest))

  two_calls :
      (e₁ e₂ : ShredEvent) (rec : ShredRecord)
      → e₂.key ≡ e₁.key
      → shred_map.get e₁.key (after st start (shred e₂ ∷ shred e₁ ∷ [])).shreds ≡ some rec
      → (rec.first_seen ≡ e₁.received_at)
        × (rec.arrivals ≡ (e₁.source, e₁.received_at) ∷ (e₂.source, e₂.received_at) ∷ [])
  unfolding arrivals_of record_of
  two_calls e₁ e₂ rec key e = ground (
    arith,
    shreds-after st start (shred e₂ ∷ shred e₁ ∷ []) e₁.key,
    same_key_iff e₁.key e₁.key,
    same_key_iff e₂.key e₁.key,
  )

  -- If two sources deliver a shred and the call made second carries the earlier time, or the same
  -- one, both of them win it, although at most one was first.
  pub both_win :
      (e₁ e₂ : ShredEvent) (rec : ShredRecord) (s₁ s₂ : SourceStats)
      → e₂.key ≡ e₁.key
      → e₁.source ≢ e₂.source
      → e₂.received_at ≤ e₁.received_at
      → s₁.id ≡ e₁.source
      → s₂.id ≡ e₂.source
      → shred_map.get e₁.key (after st start (shred e₂ ∷ shred e₁ ∷ [])).shreds ≡ some rec
      → ((observe (e₁.key, rec) s₁).wins ≡ add_u64 s₁.wins 1)
        × ((observe (e₁.key, rec) s₂).wins ≡ add_u64 s₂.wins 1)
  unfolding times_from minimum
  both_win e₁ e₂ rec s₁ s₂ key differ order p₁ p₂ e =
      let (first, all) = two_calls e₁ e₂ rec key e in
      (
        early_wins e₁.key rec s₁ e₁.received_at [] (rw all (ground arith)) (omega arith),
        early_wins e₁.key rec s₂ e₂.received_at [] (rw all (ground arith)) (omega arith),
      )
