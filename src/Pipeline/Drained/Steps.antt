-- ===== src/Pipeline/Drained/Steps.antt =====
-- src/main.rs:347-439: what one receive changes, and as many on a channel as events wait in it.
use orbshred.Prelude.{ℕ, zero, suc, ◌≡◌, refl, ◌∙◌, true, List, [], ◌∷◌, length}
use orbshred.Registry.{ShredEvent, SlotEvent, GrpcLatencyEvent, Store}
use orbshred.Sender.{source_of_shred, source_of_slot}
use orbshred.Aggregator.{Run, step}
use orbshred.Pipeline.Lanes.{RecvAnswer, got, over, waits, recv_event}
use orbshred.Pipeline.Lanes.Kept.{Sound, recv_event-Sound, Gives, recv_event-Gives}
use orbshred.Pipeline.{
  source_of_grpc, Move, recv_shred, recv_slot, recv_grpc, Channels, World, tell, on_shred, on_slot,
  on_grpc, move, schedule,
}

-- `n` times the same move.
abbrev pub times : ℕ → Move → List Move
times zero m = []
times (suc n) m = m ∷ times n m

module _ (st : Store) (cs : Channels) (c : Run) where
  open cs use {shred_chan, slot_chan, grpc_chan}

  -- How many events wait in each channel, and what each accepted.
  pub record Waiting (n m k : ℕ) (a : List ShredEvent) (b : List SlotEvent)
      (g : List GrpcLatencyEvent) (w : World st cs) : Type 0 where
    pub on : w.system.aggregating ≡ true
    pub shreds : length (shred_chan.pending w.shred_lane.queue) ≡ n
    pub slots : length (slot_chan.pending w.slot_lane.queue) ≡ m
    pub grpcs : length (grpc_chan.pending w.grpc_lane.queue) ≡ k
    pub same_shreds : w.shred_lane.accepted ≡ a
    pub same_slots : w.slot_lane.accepted ≡ b
    pub same_grpcs : w.grpc_lane.accepted ≡ g

  module _ (a : List ShredEvent) (b : List SlotEvent) (g : List GrpcLatencyEvent) where
    on_shred-Waiting :
        (n m k : ℕ) (w : World st cs) (o : RecvAnswer st source_of_shred shred_chan)
        → Sound st source_of_shred shred_chan w.shred_lane o
        → Gives st source_of_shred shred_chan n o
        → Waiting (suc n) m k a b g w
        → Waiting n m k a b g (on_shred st cs c o w)
    unfolding on_shred tell step
    on_shred-Waiting n m k w (got e l) s h k' = record {
      on = rw (k'.on) refl;
      shreds = h;
      slots = k'.slots;
      grpcs = k'.grpcs;
      same_shreds = s.2 ∙ k'.same_shreds;
      same_slots = k'.same_slots;
      same_grpcs = k'.same_grpcs;
    }
    on_shred-Waiting n m k w over s h k' = absurd h
    on_shred-Waiting n m k w waits s h k' = absurd h

    on_slot-Waiting :
        (n m k : ℕ) (w : World st cs) (o : RecvAnswer st source_of_slot slot_chan)
        → Sound st source_of_slot slot_chan w.slot_lane o
        → Gives st source_of_slot slot_chan m o
        → Waiting n (suc m) k a b g w
        → Waiting n m k a b g (on_slot st cs c o w)
    unfolding on_slot tell step
    on_slot-Waiting n m k w (got e l) s h k' = record {
      on = rw (k'.on) refl;
      shreds = k'.shreds;
      slots = h;
      grpcs = k'.grpcs;
      same_shreds = k'.same_shreds;
      same_slots = s.2 ∙ k'.same_slots;
      same_grpcs = k'.same_grpcs;
    }
    on_slot-Waiting n m k w over s h k' = absurd h
    on_slot-Waiting n m k w waits s h k' = absurd h

    on_grpc-Waiting :
        (n m k : ℕ) (w : World st cs) (o : RecvAnswer st source_of_grpc grpc_chan)
        → Sound st source_of_grpc grpc_chan w.grpc_lane o
        → Gives st source_of_grpc grpc_chan k o
        → Waiting n m (suc k) a b g w
        → Waiting n m k a b g (on_grpc st cs c o w)
    unfolding on_grpc tell step
    on_grpc-Waiting n m k w (got e l) s h k' = record {
      on = rw (k'.on) refl;
      shreds = k'.shreds;
      slots = k'.slots;
      grpcs = h;
      same_shreds = k'.same_shreds;
      same_slots = k'.same_slots;
      same_grpcs = s.2 ∙ k'.same_grpcs;
    }
    on_grpc-Waiting n m k w over s h k' = absurd h
    on_grpc-Waiting n m k w waits s h k' = absurd h

    pub drain_shreds :
        (n m k : ℕ) (w : World st cs)
        → Waiting n m k a b g w
        → Waiting 0 m k a b g (schedule st cs c (times n recv_shred) w)
    unfolding schedule move
    drain_shreds zero m k w h = h
    drain_shreds (suc n) m k w h = drain_shreds n m k (move st cs c recv_shred w) (
        simp (h.on) (
          on_shred-Waiting n m k w (recv_event st source_of_shred shred_chan w.shred_lane)
            (recv_event-Sound st source_of_shred shred_chan w.shred_lane)
            (recv_event-Gives st source_of_shred shred_chan w.shred_lane n h.shreds) h))

    pub drain_slots :
        (m k : ℕ) (w : World st cs)
        → Waiting 0 m k a b g w
        → Waiting 0 0 k a b g (schedule st cs c (times m recv_slot) w)
    unfolding schedule move
    drain_slots zero k w h = h
    drain_slots (suc m) k w h = drain_slots m k (move st cs c recv_slot w) (
        simp (h.on) (
          on_slot-Waiting 0 m k w (recv_event st source_of_slot slot_chan w.slot_lane)
            (recv_event-Sound st source_of_slot slot_chan w.slot_lane)
            (recv_event-Gives st source_of_slot slot_chan w.slot_lane m h.slots) h))

    pub drain_grpcs :
        (k : ℕ) (w : World st cs)
        → Waiting 0 0 k a b g w
        → Waiting 0 0 0 a b g (schedule st cs c (times k recv_grpc) w)
    unfolding schedule move
    drain_grpcs zero w h = h
    drain_grpcs (suc k) w h = drain_grpcs k (move st cs c recv_grpc w) (
        simp (h.on) (
          on_grpc-Waiting 0 0 k w (recv_event st source_of_grpc grpc_chan w.grpc_lane)
            (recv_event-Sound st source_of_grpc grpc_chan w.grpc_lane)
            (recv_event-Gives st source_of_grpc grpc_chan w.grpc_lane k h.grpcs) h))
