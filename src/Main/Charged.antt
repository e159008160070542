-- ===== src/Main/Charged.antt =====
-- src/main.rs:476-480 and src/stats.rs: what the statistics say of a source beside its counts.
use Prim.Native.String.{String}
use orbshred.Prelude.{ℕ, ◌^◌, ◌%◌, ◌≡◌, refl, sym, ap, ◌∙◌, Option, none, some, List, [], ◌∷◌, map}
use orbshred.Shred.{ShredKey}
use orbshred.DashMap.{lookup_by}
use orbshred.Registry.{same_id, SlotRecord, SourceId, Instant, ShredRecord, Store}
use orbshred.Stats.{
  init_entry_source, observe_slot, observe_arrival, observe_slots, SourceStats, EntrySourceStats,
  init_source, observe, observe_all, observe_times, seen, times_from,
}
use orbshred.Pipeline.{Channels, World}
use orbshred.Pipeline.Conserved.{Conserved, refused_of}
use orbshred.Setup.Named.{ids}

-- A source's id, name and drops, which the counting of shreds and slots keeps.
abbrev pub account_of : SourceStats → (SourceId × String) × ℕ
account_of s = ((s.id, s.name), s.drops)

abbrev pub entry_account_of : EntrySourceStats → (SourceId × String) × ℕ
entry_account_of s = ((s.id, s.name), s.drops)

account_ids :
    (ss : List SourceStats)
    → map (λ (x : (SourceId × String) × ℕ). x.0.0) (map account_of ss)
      ≡ map (λ (a : SourceStats). a.id) ss
account_ids [] = refl
account_ids (s ∷ ss) = ap (λ m. s.id ∷ m) (account_ids ss)

entry_account_ids :
    (ss : List EntrySourceStats)
    → map (λ (x : (SourceId × String) × ℕ). x.0.0) (map entry_account_of ss)
      ≡ map (λ (a : EntrySourceStats). a.id) ss
entry_account_ids [] = refl
entry_account_ids (s ∷ ss) = ap (λ m. s.id ∷ m) (entry_account_ids ss)

map_same :
    {A B : Type 0} (f : A → B) (g : A → A) (l : List A)
    → ((a : A) → f (g a) ≡ f a)
    → map f (map g l) ≡ map f l
map_same f g [] h = refl
map_same f g (x ∷ l) h = rw (h x, map_same f g l h) refl

observe-account :
    (e : ShredKey × ShredRecord) (s : SourceStats) → account_of (observe e s) ≡ account_of s
unfolding observe observe_times seen
observe-account (key, rec) s = go (times_from s.id rec.arrivals)
  where
    go : (ts : List Instant) → account_of (observe_times key rec ts s) ≡ account_of s
    go [] = refl
    go (t ∷ ts) = refl

pub observe_all-account :
    (es : List (ShredKey × ShredRecord)) (ss : List SourceStats)
    → map account_of (observe_all es ss) ≡ map account_of ss
unfolding observe_all
observe_all-account [] ss = refl
observe_all-account (e ∷ es) ss =
    observe_all-account es (map (observe e) ss)
    ∙ map_same account_of (observe e) ss (observe-account e)

observe_slot-account :
    (e : ℕ × SlotRecord) (s : EntrySourceStats)
    → entry_account_of (observe_slot e s) ≡ entry_account_of s
unfolding observe_slot
observe_slot-account (k, rec) s = go (lookup_by same_id s.id rec.entry_arrivals)
  where
    go : (o : Option Instant) → entry_account_of (observe_arrival rec o s) ≡ entry_account_of s
    go none = refl
    go (some t) = refl

pub observe_slots-account :
    (es : List (ℕ × SlotRecord)) (ss : List EntrySourceStats)
    → map entry_account_of (observe_slots es ss) ≡ map entry_account_of ss
unfolding observe_slots
observe_slots-account [] ss = refl
observe_slots-account (e ∷ es) ss =
    observe_slots-account es (map (observe_slot e) ss)
    ∙ map_same entry_account_of (observe_slot e) ss (observe_slot-account e)

module _ (st : Store) (cs : Channels) where
  -- A source with the number of its events that the channels refused.
  abbrev pub charged : World st cs → SourceId × String → (SourceId × String) × ℕ
  charged w p = (p, refused_of st cs p.0 w % 2 ^ 64)

  abbrev pub source_ids : List SourceStats → List SourceId
  source_ids = map (λ (a : SourceStats). a.id)

  abbrev pub entry_ids : List EntrySourceStats → List SourceId
  entry_ids = map (λ (a : EntrySourceStats). a.id)

  module _ (w : World st cs) where
    map-charged :
        (l : List (SourceId × String))
        → map (λ (x : (SourceId × String) × ℕ). x.0.0) (map (charged w) l) ≡ ids l
    map-charged [] = refl
    map-charged ((id, name) ∷ l) = ap (λ m. id ∷ m) (map-charged l)

    -- Accounts that agree have the same ids.
    pub shown_ids :
        (ss : List SourceStats) (l : List (SourceId × String))
        → map account_of ss ≡ map (charged w) l
        → source_ids ss ≡ ids l
    shown_ids ss l e =
        sym (account_ids ss) ∙ ap (map (λ (x : (SourceId × String) × ℕ). x.0.0)) e ∙ map-charged l

    pub shown_entry_ids :
        (ss : List EntrySourceStats) (l : List (SourceId × String))
        → map entry_account_of ss ≡ map (charged w) l
        → entry_ids ss ≡ ids l
    shown_entry_ids ss l e =
        sym (entry_account_ids ss)
        ∙ ap (map (λ (x : (SourceId × String) × ℕ). x.0.0)) e
        ∙ map-charged l

  module _ (w : World st cs) (k : Conserved st cs w) where
    pub charged_sources :
        (l : List (SourceId × String))
        → map account_of (map (init_source st w.drops) l) ≡ map (charged w) l
    unfolding init_source
    charged_sources [] = refl
    charged_sources ((id, name) ∷ l) = rw (k.counted id, charged_sources l) refl

    pub charged_entry_sources :
        (l : List (SourceId × String))
        → map entry_account_of (map (init_entry_source st w.drops) l) ≡ map (charged w) l
    unfolding init_entry_source
    charged_entry_sources [] = refl
    charged_entry_sources ((id, name) ∷ l) = rw (k.counted id, charged_entry_sources l) refl
