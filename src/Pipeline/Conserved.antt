-- ===== src/Pipeline/Conserved.antt =====
-- src/main.rs:140-148, 347-439 and 461-467, with the sources' sends: no event vanishes between a
-- source and the aggregator, whatever the order in which the tasks run.
use orbshred.Prelude.{ℕ, ◌+◌, ◌^◌, ◌%◌, ◌≡◌, sym, List, [], ◌∷◌, Bool-cases, inl, inr, arith}
use orbshred.Registry.{SourceId, Instant, Store, drops_of}
use orbshred.Registry.Drops.{counters_after, drops_in, drops_of-counters_after}
use orbshred.Sender.{source_of_shred, source_of_slot}
use orbshred.Sender.Ledger.{count_by}
use orbshred.Aggregator.{Run, Event, closed, second, grace_over, stop}
use orbshred.Pipeline.Lanes.{open_lane, RecvAnswer, got, over, waits, recv_event}
use orbshred.Pipeline.Lanes.Kept.{Kept, Sound, recv_event-Sound, Sound-Kept, send-Kept, send-Counts}
use orbshred.Pipeline.{
  source_of_grpc, Move, send_shred, send_slot, send_grpc, recv_shred, recv_slot, recv_grpc,
  drop_shred_tx, drop_slot_tx, drop_grpc_tx, monitor_second, grace_ends, stops, Channels, World,
  start_world, tell, on_shred, on_slot, on_grpc, move, schedule,
}

module _ (st : Store) (cs : Channels) where
  open cs use {shred_chan, slot_chan, grpc_chan}

  -- How many of a source's events were refused by the channels.
  unfoldable pub refused_of : SourceId → World st cs → ℕ
  refused_of s w =
      count_by source_of_shred s w.shred_lane.refused
      + count_by source_of_slot s w.slot_lane.refused
      + count_by source_of_grpc s w.grpc_lane.refused

  pub record Conserved (w : World st cs) : Type 0 where
    pub shreds : Kept st source_of_shred shred_chan w.shred_lane
    pub slots : Kept st source_of_slot slot_chan w.slot_lane
    pub grpcs : Kept st source_of_grpc grpc_chan w.grpc_lane
    pub counted : (s : SourceId) → drops_of st s w.drops ≡ refused_of s w % 2 ^ 64

  start_world-Conserved : (t : Instant) → Conserved (start_world st cs t)
  unfolding start_world refused_of open_lane count_by counters_after drops_in
  start_world-Conserved t = record {
    shreds = sym shred_chan.pending-empty;
    slots = sym slot_chan.pending-empty;
    grpcs = sym grpc_chan.pending-empty;
    counted = drops_of-counters_after st [];
  }

  module _ (c : Run) where
    told : (w : World st cs) (ev : Event) → Conserved w → Conserved (tell st cs c ev w)
    unfolding tell refused_of
    told w ev k = record {
      shreds = k.shreds;
      slots = k.slots;
      grpcs = k.grpcs;
      counted = k.counted;
    }

    on_shred-Conserved :
        (w : World st cs) (a : RecvAnswer st source_of_shred shred_chan)
        → Sound st source_of_shred shred_chan w.shred_lane a
        → Conserved w
        → Conserved (on_shred st cs c a w)
    unfolding on_shred tell refused_of
    on_shred-Conserved w (got e l) h k = record {
      shreds = Sound-Kept st source_of_shred shred_chan w.shred_lane l e h k.shreds;
      slots = k.slots;
      grpcs = k.grpcs;
      counted = λ s. rw (h.3) (k.counted s);
    }
    on_shred-Conserved w over h k = told w closed k
    on_shred-Conserved w waits h k = k

    on_slot-Conserved :
        (w : World st cs) (a : RecvAnswer st source_of_slot slot_chan)
        → Sound st source_of_slot slot_chan w.slot_lane a
        → Conserved w
        → Conserved (on_slot st cs c a w)
    unfolding on_slot tell refused_of
    on_slot-Conserved w (got e l) h k = record {
      shreds = k.shreds;
      slots = Sound-Kept st source_of_slot slot_chan w.slot_lane l e h k.slots;
      grpcs = k.grpcs;
      counted = λ s. rw (h.3) (k.counted s);
    }
    on_slot-Conserved w over h k = told w closed k
    on_slot-Conserved w waits h k = k

    on_grpc-Conserved :
        (w : World st cs) (a : RecvAnswer st source_of_grpc grpc_chan)
        → Sound st source_of_grpc grpc_chan w.grpc_lane a
        → Conserved w
        → Conserved (on_grpc st cs c a w)
    unfolding on_grpc tell refused_of
    on_grpc-Conserved w (got e l) h k = record {
      shreds = k.shreds;
      slots = k.slots;
      grpcs = Sound-Kept st source_of_grpc grpc_chan w.grpc_lane l e h k.grpcs;
      counted = λ s. rw (h.3) (k.counted s);
    }
    on_grpc-Conserved w over h k = told w closed k
    on_grpc-Conserved w waits h k = k

    -- The counters go on with a channel's refused events while those of the others stay.
    move-Conserved : (m : Move) (w : World st cs) → Conserved w → Conserved (move st cs c m w)
    unfolding move refused_of
    move-Conserved (send_shred e) w k = record {
      shreds =
          send-Kept st source_of_shred shred_chan w.system.aggregating e w.shred_lane w.drops
            k.shreds;
      slots = k.slots;
      grpcs = k.grpcs;
      counted = λ s. omega (
        arith,
        send-Counts st source_of_shred shred_chan w.system.aggregating e w.shred_lane w.drops s
            (count_by source_of_slot s w.slot_lane.refused
              + count_by source_of_grpc s w.grpc_lane.refused)
            (omega (arith, k.counted s)),
      );
    }
    move-Conserved (send_slot e) w k = record {
      shreds = k.shreds;
      slots =
          send-Kept st source_of_slot slot_chan w.system.aggregating e w.slot_lane w.drops k.slots;
      grpcs = k.grpcs;
      counted = λ s. omega (
        arith,
        send-Counts st source_of_slot slot_chan w.system.aggregating e w.slot_lane w.drops s
            (count_by source_of_shred s w.shred_lane.refused
              + count_by source_of_grpc s w.grpc_lane.refused)
            (omega (arith, k.counted s)),
      );
    }
    move-Conserved (send_grpc e) w k = record {
      shreds = k.shreds;
      slots = k.slots;
      grpcs =
          send-Kept st source_of_grpc grpc_chan w.system.aggregating e w.grpc_lane w.drops k.grpcs;
      counted = λ s. omega (
        arith,
        send-Counts st source_of_grpc grpc_chan w.system.aggregating e w.grpc_lane w.drops s
            (count_by source_of_shred s w.shred_lane.refused
              + count_by source_of_slot s w.slot_lane.refused)
            (omega (arith, k.counted s)),
      );
    }
    move-Conserved recv_shred w k = elim (Bool-cases w.system.aggregating) [
      | inl h ↦ simp h (
          on_shred-Conserved w (recv_event st source_of_shred shred_chan w.shred_lane)
            (recv_event-Sound st source_of_shred shred_chan w.shred_lane) k)
      | inr h ↦ simp h k
    ]
    move-Conserved recv_slot w k = elim (Bool-cases w.system.aggregating) [
      | inl h ↦ simp h (
          on_slot-Conserved w (recv_event st source_of_slot slot_chan w.slot_lane)
            (recv_event-Sound st source_of_slot slot_chan w.slot_lane) k)
      | inr h ↦ simp h k
    ]
    move-Conserved recv_grpc w k = elim (Bool-cases w.system.aggregating) [
      | inl h ↦ simp h (
          on_grpc-Conserved w (recv_event st source_of_grpc grpc_chan w.grpc_lane)
            (recv_event-Sound st source_of_grpc grpc_chan w.grpc_lane) k)
      | inr h ↦ simp h k
    ]
    move-Conserved drop_shred_tx w k = record {
      shreds = k.shreds;
      slots = k.slots;
      grpcs = k.grpcs;
      counted = k.counted;
    }
    move-Conserved drop_slot_tx w k = record {
      shreds = k.shreds;
      slots = k.slots;
      grpcs = k.grpcs;
      counted = k.counted;
    }
    move-Conserved drop_grpc_tx w k = record {
      shreds = k.shreds;
      slots = k.slots;
      grpcs = k.grpcs;
      counted = k.counted;
    }
    move-Conserved monitor_second w k = told w second k
    move-Conserved grace_ends w k = told w grace_over k
    move-Conserved stops w k = told w stop k

    pub schedule-keeps :
        (ms : List Move) (w : World st cs) → Conserved w → Conserved (schedule st cs c ms w)
    unfolding schedule
    schedule-keeps [] w k = k
    schedule-keeps (m ∷ ms) w k = schedule-keeps ms (move st cs c m w) (move-Conserved m w k)

    -- Under every schedule of the sources, the aggregator, the monitor and `main`, the events that a
    -- channel accepted are exactly those that the aggregator took, in that order, followed by those
    -- that still wait, and each source's drop counter is the number of its events that any of the
    -- three channels refused, modulo 2^64.
    pub schedule-Conserved :
        (t : Instant) (ms : List Move) → Conserved (schedule st cs c ms (start_world st cs t))
    schedule-Conserved t ms = schedule-keeps ms (start_world st cs t) (start_world-Conserved t)
