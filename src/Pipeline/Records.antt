-- ===== src/Pipeline/Records.antt =====
-- src/main.rs:347-439: the record of a shred against the deliveries that the aggregator took.
use orbshred.Prelude.{◌≡◌, refl, false, List, [], ◌∷◌, ◌++◌, if◌then◌else◌, arith}
use orbshred.Shred.{ShredKey, same_key}
use orbshred.Registry.{Instant, ShredEvent, SourceId, Store, RegistryOp, shred, slot, grpc}
use orbshred.Registry.History.{arrivals_of, record_of, shreds-after}
use orbshred.Aggregator.{Run}
use orbshred.Pipeline.Recorded.Histories.{keep_if, shreds_in, admits_shred}
use orbshred.Pipeline.{Move, Channels, start_world, schedule}
use orbshred.Pipeline.Recorded.{schedule-Recorded}

-- The deliveries of one shred among a list of events.
unfoldable pub deliveries_of : ShredKey → List ShredEvent → List (SourceId × Instant)
deliveries_of k [] = []
deliveries_of k (e ∷ es) =
    if same_key e.key k then (e.source, e.received_at) ∷ deliveries_of k es else deliveries_of k es

deliveries_of-snoc :
    (k : ShredKey) (es : List ShredEvent) (e : ShredEvent)
    → deliveries_of k (es ++ (e ∷ [])) ≡ (
        if same_key e.key k
        then deliveries_of k es ++ ((e.source, e.received_at) ∷ [])
        else deliveries_of k es)
unfolding deliveries_of
deliveries_of-snoc k [] e = ground arith
deliveries_of-snoc k (x ∷ es) e = ground (arith, deliveries_of-snoc k es e)

arrivals_of-shreds_in :
    (k : ShredKey) (h : List RegistryOp) → arrivals_of k h ≡ deliveries_of k (shreds_in h)
unfolding arrivals_of shreds_in deliveries_of
arrivals_of-shreds_in k [] = refl
arrivals_of-shreds_in k (shred e ∷ older) =
    rw (deliveries_of-snoc k (shreds_in older) e, arrivals_of-shreds_in k older) refl
arrivals_of-shreds_in k (slot e ∷ older) = arrivals_of-shreds_in k older
arrivals_of-shreds_in k (grpc e ∷ older) = arrivals_of-shreds_in k older

module _ (st : Store) (cs : Channels) (c : Run) (t : Instant) where
  open st use {shred_map}

  -- Where no start slot is configured, under every schedule the record of a shred holds exactly the
  -- deliveries of it that the aggregator took, in their order, if the range and the leader filter
  -- admit its slot, and is absent where there is none.
  pub schedule-records :
      (ms : List Move) (k : ShredKey)
      → c.start_slot_configured ≡ false
      → shred_map.get k (schedule st cs c ms (start_world st cs t)).system.registry.shreds
        ≡ record_of (
            deliveries_of k (
              keep_if
                (admits_shred c)
                (schedule st cs c ms (start_world st cs t)).shred_lane.taken))
  schedule-records ms k h =
      let r = schedule-Recorded st cs c t ms h in
      rw (r.registry, shreds-after st t r.history k, arrivals_of-shreds_in k r.history, r.shreds)
        refl
