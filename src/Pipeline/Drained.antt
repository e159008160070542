-- ===== src/Pipeline/Drained.antt =====
-- src/main.rs:347-439 and 461-463: what the aggregator takes if it is given the time to.
mod Steps
use orbshred.Prelude.{
  ℕ, zero, suc, ◌≡◌, refl, sym, ap, subst, ◌∙◌, true, List, [], ◌∷◌, ◌++◌, length, arith,
}
use mathlib.Core.List.{append-nil}
use orbshred.Registry.{SourceId, Instant, ShredEvent, SlotEvent, GrpcLatencyEvent, Store}
use orbshred.Sender.{source_of_shred, source_of_slot}
use orbshred.Aggregator.{Run, step}
use orbshred.Channel.{Channel}
use orbshred.Pipeline.Lanes.{Lane, RecvAnswer, got, over, waits, recv_event}
use orbshred.Pipeline.Lanes.Kept.{Kept, Sound, recv_event-Sound, Gives, recv_event-Gives}
use orbshred.Pipeline.Conserved.{Conserved, schedule-Conserved, schedule-keeps}
use orbshred.Pipeline.{
  source_of_grpc, Move, recv_shred, recv_slot, recv_grpc, Channels, World, start_world, tell,
  on_shred, on_slot, on_grpc, move, schedule,
}
use Steps.{times, Waiting, drain_shreds, drain_slots, drain_grpcs}

none_left : {E : Type 0} (l : List E) → length l ≡ 0 → l ≡ []
none_left [] h = refl
none_left (e ∷ l) h = absurd (omega (arith, h))

module _ (st : Store) (cs : Channels) (c : Run) where
  open cs use {shred_chan, slot_chan, grpc_chan}

  -- A channel in which nothing waits has given all that it accepted.
  all_taken :
      {E : Type 0} (source_of : E → SourceId) (ch : Channel E) (l : Lane st source_of ch)
      (a : List E)
      → Kept st source_of ch l
      → length (ch.pending l.queue) ≡ 0
      → l.accepted ≡ a
      → (l.taken ≡ a) × (ch.pending l.queue ≡ [])
  all_taken source_of ch l a kept empty same =
      let e = none_left (ch.pending l.queue) empty in
      (sym (append-nil l.taken) ∙ ap (λ q. l.taken ++ q) (sym e) ∙ sym kept ∙ same, e)

  abbrev pub receive_shreds : World st cs → List Move
  receive_shreds w = times (length (shred_chan.pending w.shred_lane.queue)) recv_shred

  abbrev pub receive_slots : World st cs → List Move
  receive_slots w = times (length (slot_chan.pending w.slot_lane.queue)) recv_slot

  abbrev pub receive_grpcs : World st cs → List Move
  receive_grpcs w = times (length (grpc_chan.pending w.grpc_lane.queue)) recv_grpc

  -- As many receives on each channel as events wait in it.
  abbrev pub receive_all : World st cs → List Move
  receive_all w = receive_shreds w ++ (receive_slots w ++ receive_grpcs w)

  abbrev pub drained : World st cs → World st cs
  drained w = schedule st cs c (receive_all w) w

  abbrev in_turn : World st cs → World st cs
  in_turn w =
      schedule st cs c (receive_grpcs w)
        (schedule st cs c (receive_slots w) (schedule st cs c (receive_shreds w) w))

  -- All that a channel ever accepted was taken, in its order, and nothing waits.
  pub record AllTaken (w v : World st cs) : Type 0 where
    pub on : v.system.aggregating ≡ true
    pub shreds :
        (v.shred_lane.taken ≡ w.shred_lane.accepted) × (shred_chan.pending v.shred_lane.queue ≡ [])
    pub slots :
        (v.slot_lane.taken ≡ w.slot_lane.accepted) × (slot_chan.pending v.slot_lane.queue ≡ [])
    pub grpcs :
        (v.grpc_lane.taken ≡ w.grpc_lane.accepted) × (grpc_chan.pending v.grpc_lane.queue ≡ [])

  in_turn-AllTaken :
      (w : World st cs) → w.system.aggregating ≡ true → Conserved st cs w → AllTaken w (in_turn w)
  in_turn-AllTaken w on kept =
      let a = w.shred_lane.accepted in
      let b = w.slot_lane.accepted in
      let g = w.grpc_lane.accepted in
      let k : ℕ = length (grpc_chan.pending w.grpc_lane.queue) in
      let m : ℕ = length (slot_chan.pending w.slot_lane.queue) in
      let n : ℕ = length (shred_chan.pending w.shred_lane.queue) in
      let h = drain_grpcs st cs c a b g k _ (
        drain_slots st cs c a b g m k _ (
          drain_shreds st cs c a b g n m k w (record {
            on = on;
            shreds = refl;
            slots = refl;
            grpcs = refl;
            same_shreds = refl;
            same_slots = refl;
            same_grpcs = refl;
          }))) in
      let last = schedule-keeps st cs c (receive_grpcs w) _ (
        schedule-keeps st cs c (receive_slots w) _
          (schedule-keeps st cs c (receive_shreds w) w kept)) in
      record {
        on = h.on;
        shreds =
            all_taken source_of_shred shred_chan (in_turn w).shred_lane a last.shreds h.shreds
              h.same_shreds;
        slots =
            all_taken source_of_slot slot_chan (in_turn w).slot_lane b last.slots h.slots
              h.same_slots;
        grpcs =
            all_taken source_of_grpc grpc_chan (in_turn w).grpc_lane g last.grpcs h.grpcs
              h.same_grpcs;
      }

  pub schedule-append :
      (ms ns : List Move) (w : World st cs)
      → schedule st cs c (ms ++ ns) w ≡ schedule st cs c ns (schedule st cs c ms w)
  unfolding schedule
  schedule-append [] ns w = refl
  schedule-append (m ∷ ms) ns w = schedule-append ms ns (move st cs c m w)

  drained-in_turn : (w : World st cs) → drained w ≡ in_turn w
  drained-in_turn w =
      schedule-append (receive_shreds w) (receive_slots w ++ receive_grpcs w) w
      ∙ schedule-append (receive_slots w) (receive_grpcs w) (schedule st cs c (receive_shreds w) w)

  pub drained-AllTaken :
      (w : World st cs) → w.system.aggregating ≡ true → Conserved st cs w → AllTaken w (drained w)
  drained-AllTaken w on kept =
      subst (AllTaken w) (sym (drained-in_turn w)) (in_turn-AllTaken w on kept)

  -- As long as the aggregator has not left, it takes every event that was accepted if it is run often
  -- enough: after any schedule, as many receives on each of the three channels as events wait in it
  -- leave none waiting, what the aggregator has taken is all that the channel ever accepted, in its
  -- order, and the aggregator has not left.
  pub receives-taken :
      (t : Instant) (ms : List Move)
      → (schedule st cs c ms (start_world st cs t)).system.aggregating ≡ true
      → let w = schedule st cs c ms (start_world st cs t) in AllTaken w (drained w)
  receives-taken t ms on =
      drained-AllTaken (schedule st cs c ms (start_world st cs t)) on
        (schedule-Conserved st cs c t ms)
