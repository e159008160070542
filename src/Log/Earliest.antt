-- ===== src/Log/Earliest.antt =====
-- src/output/logfile.rs:41-48: the log keeps one arrival per source, its earliest.
use Prim.Native.Nat.{min}
use orbshred.Prelude.{
  ◌≡◌, refl, ◌∙◌, Option, none, some, List, [], ◌∷◌, arith, Bool-cases, inl, inr, ◌==◌,
}
use orbshred.DashMap.{lookup_by, modify_or}
use orbshred.Registry.{SourceId, Instant, same_id, note_arrival}
use orbshred.Registry.Slots.{lookup_by-note_arrival}
use orbshred.Stats.{times_from, minimum}
use orbshred.Log.{by_source_from}

-- The least of what is known and of further times.
abbrev pub lowest : Option Instant → List Instant → Option Instant
lowest o [] = o
lowest none (t ∷ ts) = lowest (some t) ts
lowest (some u) (t ∷ ts) = lowest (some (min t u)) ts

lookup_by-by_source_from :
    (s : SourceId) (acc l : List (SourceId × Instant))
    → lookup_by same_id s (by_source_from acc l) ≡ lowest (lookup_by same_id s acc) (times_from s l)
unfolding by_source_from times_from
lookup_by-by_source_from s acc [] = refl
lookup_by-by_source_from s acc ((r, t) ∷ rest) =
    lookup_by-by_source_from s (note_arrival r t acc) rest ∙ (elim (Bool-cases (r == s)) [
      | inl hit ↦ rw (lookup_by-note_arrival s r t acc, hit) (known (lookup_by same_id s acc))
      | inr miss ↦ rw (lookup_by-note_arrival s r t acc, miss) refl
    ])
  where
    known :
        (o : Option Instant)
        → lowest (some (modify_or (λ u. min t u) t o)) (times_from s rest)
          ≡ lowest o (t ∷ times_from s rest)
    known none = refl
    known (some u) = refl

lowest-minimum : (u : Instant) (ts : List Instant) → lowest (some u) ts ≡ some (minimum u ts)
unfolding minimum
lowest-minimum u [] = refl
lowest-minimum u (t ∷ ts) =
    let same : min t u ≡ min u t = omega arith in rw same (lowest-minimum (min u t) ts)

-- In the log's map a source that delivered the shred has the earliest of its arrivals, the one that
-- the statistics use too.
pub by_source-earliest :
    (s : SourceId) (l : List (SourceId × Instant)) (t : Instant) (ts : List Instant)
    → times_from s l ≡ t ∷ ts
    → lookup_by same_id s (by_source_from [] l) ≡ some (minimum t ts)
by_source-earliest s l t ts e = lookup_by-by_source_from s [] l ∙ rw e (lowest-minimum t ts)
