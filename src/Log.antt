-- ===== src/Log.antt =====
-- src/output/logfile.rs: the log entry of each shred. Writing them is `Write`. The map by source is
-- a list, whose order the sort by delta makes good up to equal deltas; `fallback` is the text that
-- `format!` makes of an id without a name.
pub mod Earliest
pub mod Write
use Prim.Native.String.{String}
use orbshred.Prelude.{ℕ, Option, none, some, List, [], ◌∷◌, map, leb, if◌then◌else◌}
use orbshred.DashMap.{lookup_by}
use orbshred.Shred.{ShredType, ShredKey, data_shred, code_shred}
use orbshred.Registry.{SourceId, Instant, same_id, ShredRecord, note_arrival}
use orbshred.Stats.{since}

pub record ArrivalEntry : Type 0 where
  pub source : String
  pub delta_ns : ℕ

pub record ShredLogEntry : Type 0 where
  pub slot : ℕ
  pub index : ℕ
  pub shred_type : String
  pub first_source : String
  pub first_seen_ns : ℕ
  pub arrivals : List ArrivalEntry

-- `to_string` of the type.
unfoldable pub type_name : ShredType → String
type_name data_shred = "data"
type_name code_shred = "code"

-- The entries of `by_source` are lowered as those of a slot record are.
unfoldable pub by_source_from :
    List (SourceId × Instant) → List (SourceId × Instant) → List (SourceId × Instant)
by_source_from acc [] = acc
by_source_from acc ((s, t) ∷ rest) = by_source_from (note_arrival s t acc) rest

-- `sort_by_key(|a| a.delta_ns)`
unfoldable pub insert_arrival : ArrivalEntry → List ArrivalEntry → List ArrivalEntry
insert_arrival a [] = a ∷ []
insert_arrival a (b ∷ l) = if leb a.delta_ns b.delta_ns then a ∷ b ∷ l else b ∷ insert_arrival a l

unfoldable pub sort_arrivals : List ArrivalEntry → List ArrivalEntry
unfolding insert_arrival
sort_arrivals [] = []
sort_arrivals (a ∷ l) = insert_arrival a (sort_arrivals l)

module _ (fallback : SourceId → String) where
  unfoldable pub display_name : List (SourceId × String) → SourceId → String
  display_name names id = elim (lookup_by same_id id names) [ none ↦ fallback id | some n ↦ n ]

  unfoldable pub log_entry :
      List (SourceId × String) → Instant → ShredKey × ShredRecord → ShredLogEntry
  unfolding display_name sort_arrivals by_source_from type_name
  log_entry names start (key, rec) = record {
    slot = key.slot;
    index = key.index;
    shred_type = type_name key.shred_type;
    first_source = display_name names rec.first_source;
    first_seen_ns = since rec.first_seen start;
    arrivals = sort_arrivals (
        map (λ p. record { source = display_name names p.0; delta_ns = since p.1 rec.first_seen })
          (by_source_from [] rec.arrivals));
  }
