-- ===== src/Pipeline/Recorded.antt =====
-- src/main.rs:347-439: the registry against what the aggregator took from the three channels.
pub mod Histories
use orbshred.Prelude.{
  ℕ, ◌≡◌, refl, sym, ap, ◌∙◌, Bool, true, false, List, [], ◌∷◌, ◌++◌, map, if◌then◌else◌,
  Bool-cases, inl, inr, arith,
}
use orbshred.Shred.{ShredKey, same_key}
use orbshred.Registry.{
  Instant, ShredEvent, SlotEvent, GrpcLatencyEvent, SourceId, Store, RegistryOp, shred, slot, grpc,
  after,
}
use orbshred.Registry.History.{arrivals_of, record_of, shreds-after}
use orbshred.Sender.{source_of_shred, source_of_slot}
use orbshred.Aggregator.{Run, Event, closed, second, grace_over, stop, step, start_system}
use orbshred.Aggregator.Calls.{
  admits, NoStartCheck, step_shred-Going, step_slot-Going, step_grpc-Going, step_tick-Stays, Stays,
  step_grace-Stays,
}
use orbshred.Pipeline.Lanes.{open_lane, RecvAnswer, got, over, waits, send, recv_event}
use orbshred.Pipeline.Lanes.Kept.{Sound, recv_event-Sound, send-taken}
use orbshred.Pipeline.Recorded.Histories.{
  keep_if, shreds_in, slots_in, grpcs_in, admits_shred, admits_slot, put_shred-in, put_shred-slots,
  put_slot-in, put_slot-shreds,
}
use orbshred.Pipeline.{
  source_of_grpc, Move, send_shred, send_slot, send_grpc, recv_shred, recv_slot, recv_grpc,
  drop_shred_tx, drop_slot_tx, drop_grpc_tx, monitor_second, grace_ends, stops, Channels, World,
  start_world, tell, on_shred, on_slot, on_grpc, move, schedule,
}

module _ (st : Store) (cs : Channels) (c : Run) (t : Instant) where
  open cs use {shred_chan, slot_chan, grpc_chan}

  -- The registry is that of a history which is an interleaving of the events taken, the admitted
  -- ones of the first two channels and all of the third.
  pub record Recorded (w : World st cs) : Type 0 where
    pub history : List RegistryOp
    pub registry : w.system.registry ≡ after st t history
    pub unchecked : NoStartCheck c w.system.flags
    pub shreds : shreds_in history ≡ keep_if (admits_shred c) w.shred_lane.taken
    pub slots : slots_in history ≡ keep_if (admits_slot c) w.slot_lane.taken
    pub grpcs : grpcs_in history ≡ w.grpc_lane.taken

  stays :
      (ev : Event) (w : World st cs) (k : Recorded w)
      → Stays st c t k.history (step st c ev w.system)
      → Recorded (tell st cs c ev w)
  unfolding tell
  stays ev w k (r, n) = record {
    history = k.history;
    registry = r;
    unchecked = n;
    shreds = k.shreds;
    slots = k.slots;
    grpcs = k.grpcs;
  }

  ended-Recorded : (w : World st cs) → Recorded w → Recorded (tell st cs c closed w)
  unfolding step
  ended-Recorded w k = stays closed w k (k.registry, k.unchecked)

  told_stop : (w : World st cs) → Recorded w → Recorded (tell st cs c stop w)
  unfolding step
  told_stop w k = stays stop w k (k.registry, k.unchecked)

  on_shred-Recorded :
      (w : World st cs) (a : RecvAnswer st source_of_shred shred_chan)
      → w.system.aggregating ≡ true
      → Sound st source_of_shred shred_chan w.shred_lane a
      → Recorded w
      → Recorded (on_shred st cs c a w)
  unfolding on_shred tell
  on_shred-Recorded w (got e l) on h k =
      let g = step_shred-Going st c t e k.history w.system (on, k.registry, k.unchecked) in
      let (ss, gs) = put_shred-slots c (admits c e.key.slot) e k.history in
      record {
        history = if admits c e.key.slot then shred e ∷ k.history else k.history;
        registry = g.1;
        unchecked = g.2;
        shreds = rw (h.1) (put_shred-in c e k.history w.shred_lane.taken k.shreds);
        slots = ss ∙ k.slots;
        grpcs = gs ∙ k.grpcs;
      }
  on_shred-Recorded w over on h k = ended-Recorded w k
  on_shred-Recorded w waits on h k = k

  on_slot-Recorded :
      (w : World st cs) (a : RecvAnswer st source_of_slot slot_chan)
      → w.system.aggregating ≡ true
      → Sound st source_of_slot slot_chan w.slot_lane a
      → Recorded w
      → Recorded (on_slot st cs c a w)
  unfolding on_slot tell
  on_slot-Recorded w (got e l) on h k =
      let g = step_slot-Going st c t e k.history w.system (on, k.registry, k.unchecked) in
      let (ss, gs) = put_slot-shreds c (admits c e.slot) e k.history in
      record {
        history = if admits c e.slot then slot e ∷ k.history else k.history;
        registry = g.1;
        unchecked = g.2;
        shreds = ss ∙ k.shreds;
        slots = rw (h.1) (put_slot-in c e k.history w.slot_lane.taken k.slots);
        grpcs = gs ∙ k.grpcs;
      }
  on_slot-Recorded w over on h k = ended-Recorded w k
  on_slot-Recorded w waits on h k = k

  on_grpc-Recorded :
      (w : World st cs) (a : RecvAnswer st source_of_grpc grpc_chan)
      → w.system.aggregating ≡ true
      → Sound st source_of_grpc grpc_chan w.grpc_lane a
      → Recorded w
      → Recorded (on_grpc st cs c a w)
  unfolding on_grpc tell shreds_in slots_in grpcs_in
  on_grpc-Recorded w (got e l) on h k =
      let g = step_grpc-Going st c t e k.history w.system (on, k.registry, k.unchecked) in
      record {
        history = grpc e ∷ k.history;
        registry = g.1;
        unchecked = g.2;
        shreds = k.shreds;
        slots = k.slots;
        grpcs = rw (h.1) (ap (λ h. h ++ (e ∷ [])) k.grpcs);
      }
  on_grpc-Recorded w over on h k = ended-Recorded w k
  on_grpc-Recorded w waits on h k = k

  -- Sends and drops of senders change neither the aggregator nor what it took.
  quiet :
      (w v : World st cs)
      → v.system ≡ w.system
      → v.shred_lane.taken ≡ w.shred_lane.taken
      → v.slot_lane.taken ≡ w.slot_lane.taken
      → v.grpc_lane.taken ≡ w.grpc_lane.taken
      → Recorded w
      → Recorded v
  quiet w v s a b d k = record {
    history = k.history;
    registry = rw s k.registry;
    unchecked = rw s k.unchecked;
    shreds = rw a k.shreds;
    slots = rw b k.slots;
    grpcs = rw d k.grpcs;
  }

  move-Recorded : (m : Move) (w : World st cs) → Recorded w → Recorded (move st cs c m w)
  unfolding move
  move-Recorded (send_shred e) w k =
      quiet w _ refl
        (send-taken st source_of_shred shred_chan w.system.aggregating e w.shred_lane w.drops) refl
        refl k
  move-Recorded (send_slot e) w k =
      quiet w _ refl refl
        (send-taken st source_of_slot slot_chan w.system.aggregating e w.slot_lane w.drops) refl k
  move-Recorded (send_grpc e) w k =
      quiet w _ refl refl refl
        (send-taken st source_of_grpc grpc_chan w.system.aggregating e w.grpc_lane w.drops) k
  move-Recorded recv_shred w k = elim (Bool-cases w.system.aggregating) [
    | inl h ↦ simp h (
        on_shred-Recorded w (recv_event st source_of_shred shred_chan w.shred_lane) h
          (recv_event-Sound st source_of_shred shred_chan w.shred_lane) k)
    | inr h ↦ simp h k
  ]
  move-Recorded recv_slot w k = elim (Bool-cases w.system.aggregating) [
    | inl h ↦ simp h (
        on_slot-Recorded w (recv_event st source_of_slot slot_chan w.slot_lane) h
          (recv_event-Sound st source_of_slot slot_chan w.slot_lane) k)
    | inr h ↦ simp h k
  ]
  move-Recorded recv_grpc w k = elim (Bool-cases w.system.aggregating) [
    | inl h ↦ simp h (
        on_grpc-Recorded w (recv_event st source_of_grpc grpc_chan w.grpc_lane) h
          (recv_event-Sound st source_of_grpc grpc_chan w.grpc_lane) k)
    | inr h ↦ simp h k
  ]
  move-Recorded drop_shred_tx w k = quiet w _ refl refl refl refl k
  move-Recorded drop_slot_tx w k = quiet w _ refl refl refl refl k
  move-Recorded drop_grpc_tx w k = quiet w _ refl refl refl refl k
  move-Recorded monitor_second w k =
      stays second w k (step_tick-Stays st c t k.history w.system (k.registry, k.unchecked))
  move-Recorded grace_ends w k =
      stays grace_over w k (step_grace-Stays st c t k.history w.system (k.registry, k.unchecked))
  move-Recorded stops w k = told_stop w k

  -- Where no start slot is configured, under every schedule the registry is that of a history in
  -- which the shreds are exactly the admitted ones that the aggregator took, in their order, the entry
  -- events likewise and the overhead samples all those it took.
  pub schedule-Recorded :
      (ms : List Move)
      → c.start_slot_configured ≡ false
      → Recorded (schedule st cs c ms (start_world st cs t))
  unfolding schedule start_world start_system open_lane after shreds_in slots_in grpcs_in keep_if
  schedule-Recorded ms h = go ms (start_world st cs t) (record {
    history = [];
    registry = refl;
    unchecked = rw h refl;
    shreds = refl;
    slots = refl;
    grpcs = refl;
  })
    where
      go : (ms : List Move) (w : World st cs) → Recorded w → Recorded (schedule st cs c ms w)
      go [] w k = k
      go (m ∷ ms) w k = go ms (move st cs c m w) (move-Recorded m w k)
