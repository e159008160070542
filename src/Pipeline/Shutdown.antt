-- ===== src/Pipeline/Shutdown.antt =====
-- src/main.rs:347-439 and 461-467: what happens to the events that wait when the run ends.
use orbshred.Prelude.{◌≡◌, refl, sym, subst, ◌∙◌, true, false, List, [], ◌∷◌}
use orbshred.Registry.{Registry, Store}
use orbshred.Sender.{source_of_shred, source_of_slot}
use orbshred.Aggregator.{Run, Event, closed, second, grace_over, stop, step}
use orbshred.Aggregator.Calls.{Left, step-Left}
use orbshred.Pipeline.Lanes.Kept.{send_gone, recv_event_over}
use orbshred.Pipeline.{
  source_of_grpc, Move, send_shred, send_slot, send_grpc, recv_shred, recv_slot, recv_grpc,
  drop_shred_tx, drop_slot_tx, drop_grpc_tx, monitor_second, grace_ends, stops, Channels, World,
  tell, on_shred, on_slot, on_grpc, move, schedule,
}

module _ (st : Store) (cs : Channels) (c : Run) where
  open cs use {shred_chan, slot_chan, grpc_chan}

  -- The aggregator has left, and what waited in the channels then still waits, unrecorded.
  pub record Abandoned (r : Registry st) (q : shred_chan.Queue) (p : slot_chan.Queue)
      (g : grpc_chan.Queue) (w : World st cs) : Type 0 where
    pub left : Left st c 0 r w.system
    pub shreds : w.shred_lane.queue ≡ q
    pub slots : w.slot_lane.queue ≡ p
    pub grpcs : w.grpc_lane.queue ≡ g

  module _ (r : Registry st) (q : shred_chan.Queue) (p : slot_chan.Queue)
      (g : grpc_chan.Queue) where
    told :
        (ev : Event) (w : World st cs) → Abandoned r q p g w → Abandoned r q p g (tell st cs c ev w)
    unfolding tell
    told ev w k = record {
      left = step-Left st c 0 ev r w.system k.left;
      shreds = k.shreds;
      slots = k.slots;
      grpcs = k.grpcs;
    }

    -- A move that keeps the system and the three queues.
    same_queues :
        (w v : World st cs)
        → v.system ≡ w.system
        → v.shred_lane.queue ≡ w.shred_lane.queue
        → v.slot_lane.queue ≡ w.slot_lane.queue
        → v.grpc_lane.queue ≡ w.grpc_lane.queue
        → Abandoned r q p g w
        → Abandoned r q p g v
    same_queues w v e a b d k = record {
      left = subst (Left st c 0 r) (sym e) k.left;
      shreds = a ∙ k.shreds;
      slots = b ∙ k.slots;
      grpcs = d ∙ k.grpcs;
    }

    move-Abandoned :
        (m : Move) (w : World st cs) → Abandoned r q p g w → Abandoned r q p g (move st cs c m w)
    unfolding move tell
    move-Abandoned (send_shred e) w k =
        same_queues w _ refl
          (rw (k.left.1) (send_gone st source_of_shred shred_chan e w.shred_lane w.drops)) refl refl
          k
    move-Abandoned (send_slot e) w k =
        same_queues w _ refl refl
          (rw (k.left.1) (send_gone st source_of_slot slot_chan e w.slot_lane w.drops)) refl k
    move-Abandoned (send_grpc e) w k =
        same_queues w _ refl refl refl
          (rw (k.left.1) (send_gone st source_of_grpc grpc_chan e w.grpc_lane w.drops)) k
    move-Abandoned recv_shred w k = simp (k.left.1) k
    move-Abandoned recv_slot w k = simp (k.left.1) k
    move-Abandoned recv_grpc w k = simp (k.left.1) k
    move-Abandoned drop_shred_tx w k = same_queues w _ refl refl refl refl k
    move-Abandoned drop_slot_tx w k = same_queues w _ refl refl refl refl k
    move-Abandoned drop_grpc_tx w k = same_queues w _ refl refl refl refl k
    move-Abandoned monitor_second w k = told second w k
    move-Abandoned grace_ends w k = told grace_over w k
    move-Abandoned stops w k = told stop w k

    schedule-Abandoned :
        (ms : List Move) (w : World st cs)
        → Abandoned r q p g w
        → Abandoned r q p g (schedule st cs c ms w)
    unfolding schedule
    schedule-Abandoned [] w k = k
    schedule-Abandoned (m ∷ ms) w k =
        schedule-Abandoned ms (move st cs c m w) (move-Abandoned m w k)

  -- The move is the receive on a channel that has ended: its last sender is gone and nothing waits.
  abbrev pub Ended : Move → World st cs → Type 0
  Ended recv_shred w = (w.shred_lane.held ≡ false) × (shred_chan.pending w.shred_lane.queue ≡ [])
  Ended recv_slot w = (w.slot_lane.held ≡ false) × (slot_chan.pending w.slot_lane.queue ≡ [])
  Ended recv_grpc w = (w.grpc_lane.held ≡ false) × (grpc_chan.pending w.grpc_lane.queue ≡ [])
  Ended _ w = ⊥

  recv-closed :
      (m : Move) (w : World st cs)
      → w.system.aggregating ≡ true
      → Ended m w
      → move st cs c m w ≡ tell st cs c closed w
  unfolding move on_shred on_slot on_grpc
  recv-closed recv_shred w on (off, none_waits) =
      simp (on, recv_event_over st source_of_shred shred_chan w.shred_lane off none_waits) refl
  recv-closed recv_slot w on (off, none_waits) =
      simp (on, recv_event_over st source_of_slot slot_chan w.slot_lane off none_waits) refl
  recv-closed recv_grpc w on (off, none_waits) =
      simp (on, recv_event_over st source_of_grpc grpc_chan w.grpc_lane off none_waits) refl
  recv-closed (send_shred e) w on never = absurd never
  recv-closed (send_slot e) w on never = absurd never
  recv-closed (send_grpc e) w on never = absurd never
  recv-closed drop_shred_tx w on never = absurd never
  recv-closed drop_slot_tx w on never = absurd never
  recv-closed drop_grpc_tx w on never = absurd never
  recv-closed monitor_second w on never = absurd never
  recv-closed grace_ends w on never = absurd never
  recv-closed stops w on never = absurd never

  closed-Abandoned :
      (w : World st cs)
      → Abandoned w.system.registry w.shred_lane.queue w.slot_lane.queue w.grpc_lane.queue
          (tell st cs c closed w)
  unfolding tell step
  closed-Abandoned w = record { left = (refl, refl); shreds = refl; slots = refl; grpcs = refl }

  -- The first of the channels to end takes the aggregator with it: as soon as one of the three is
  -- received from whose last sender is gone and in which nothing waits, the aggregator leaves, and
  -- under every later schedule the registry stays what it was and whatever waited in the other
  -- channels stays there, unrecorded.
  pub recv-Abandoned :
      (m : Move) (w : World st cs) (ms : List Move)
      → w.system.aggregating ≡ true
      → Ended m w
      → Abandoned w.system.registry w.shred_lane.queue w.slot_lane.queue w.grpc_lane.queue
          (schedule st cs c (m ∷ ms) w)
  unfolding schedule
  recv-Abandoned m w ms on ended =
      schedule-Abandoned _ _ _ _ ms (move st cs c m w)
        (subst (Abandoned _ _ _ _) (sym (recv-closed m w on ended)) (closed-Abandoned w))
