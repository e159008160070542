-- ===== src/Pipeline/Delivered.antt =====
-- From the datagrams and frames of a thread's socket to the records of the registry: a thread of
-- Pipeline/Threads, the shreds' channel of src/main.rs:145 and the aggregator's receives of
-- src/main.rs:347-439.
use orbshred.Prelude.{
  ◌+◌, ◌≤◌, ◌≡◌, refl, sym, ap, subst, ◌∙◌, true, false, List, [], ◌∷◌, ◌++◌, length, length-append,
  arith,
}
use mathlib.Core.List.{append-nil, append_assoc}
use orbshred.Exec.{ok}
use orbshred.Shred.{ShredKey}
use orbshred.Registry.{Instant, ShredEvent, Store}
use orbshred.Registry.History.{record_of}
use orbshred.Sender.{source_of_shred}
use orbshred.KernelTs.{ClockAnchor, Kernel}
use orbshred.Aggregator.{Run}
use orbshred.Pipeline.Lanes.Kept.{send-Joins}
use orbshred.Pipeline.Recorded.Histories.{keep_if, admits_shred}
use orbshred.Pipeline.Records.{deliveries_of, schedule-records}
use orbshred.Pipeline.Drained.{drained, receive_all, AllTaken, schedule-append, receives-taken}
use orbshred.Pipeline.Threads.{Thread, Fits, events_of, at_most, run_thread}
use orbshred.Pipeline.Sources.{sender_of, sends, run_thread-sends}
use orbshred.Pipeline.{Move, send_shred, Channels, World, start_world, move, schedule}

module _ (st : Store) (cs : Channels) (c : Run) where
  open cs use {shred_chan}

  -- The events joined the shreds' channel, and nothing else happened.
  record AllJoined (es : List ShredEvent) (w v : World st cs) : Type 0 where
    waiting : shred_chan.pending v.shred_lane.queue ≡ shred_chan.pending w.shred_lane.queue ++ es
    accepted : v.shred_lane.accepted ≡ w.shred_lane.accepted ++ es
    on : v.system.aggregating ≡ true
    alive : v.shred_lane.held ≡ true
    drops : v.drops ≡ w.drops

  one_joins :
      (e : ShredEvent) (w : World st cs)
      → w.system.aggregating ≡ true
      → w.shred_lane.held ≡ true
      → length (shred_chan.pending w.shred_lane.queue) + 1 ≤ shred_chan.capacity
      → AllJoined (e ∷ []) w (move st cs c (send_shred e) w)
  unfolding move
  one_joins e w on alive room =
      let (p, a, h, d) =
        send-Joins st source_of_shred shred_chan w.system.aggregating e w.shred_lane w.drops on
          alive (omega (arith, room)) in
      record { waiting = p; accepted = a; on = on; alive = h; drops = d }

  sends-AllJoined :
      (es : List ShredEvent) (w : World st cs)
      → w.system.aggregating ≡ true
      → w.shred_lane.held ≡ true
      → length (shred_chan.pending w.shred_lane.queue) + length es ≤ shred_chan.capacity
      → AllJoined es w (schedule st cs c (sends st cs c es) w)
  unfolding schedule
  sends-AllJoined [] w on alive room = record {
    waiting = sym (append-nil _);
    accepted = sym (append-nil _);
    on = on;
    alive = alive;
    drops = refl;
  }
  sends-AllJoined (e ∷ es) w on alive room =
      let one = one_joins e w on alive (omega (arith, room)) in
      let longer = length-append (shred_chan.pending w.shred_lane.queue) (e ∷ []) in
      let rest =
        sends-AllJoined es (move st cs c (send_shred e) w) (one.on) (one.alive)
          (omega (arith, room, longer, ap length one.waiting)) in
      record {
        waiting = rest.waiting ∙ ap (λ l. l ++ es) one.waiting ∙ append_assoc _ (e ∷ []) es;
        accepted = rest.accepted ∙ ap (λ l. l ++ es) one.accepted ∙ append_assoc _ (e ∷ []) es;
        on = rest.on;
        alive = rest.alive;
        drops = rest.drops ∙ one.drops;
      }

  -- The world after the sends of `es` and enough receives.
  abbrev pub received_all : List ShredEvent → World st cs → World st cs
  received_all es w = drained st cs c (schedule st cs c (sends st cs c es) w)

  module _ (t : Instant) (ms : List Move) (open_ended : c.start_slot_configured ≡ false) where
    -- The world before the thread starts.
    abbrev before : World st cs
    before = schedule st cs c ms (start_world st cs t)

    sent-recorded :
        (es : List ShredEvent)
        → before.system.aggregating ≡ true
        → before.shred_lane.held ≡ true
        → length (shred_chan.pending before.shred_lane.queue) + length es ≤ shred_chan.capacity
        → (key : ShredKey)
        → st.shred_map.get key (received_all es before).system.registry.shreds
          ≡ record_of
              (deliveries_of key (keep_if (admits_shred c) (before.shred_lane.accepted ++ es)))
    sent-recorded es on alive room key =
        let all = sends-AllJoined es before on alive room in
        let v : World st cs = schedule st cs c (sends st cs c es) before in
        let reached = schedule-append st cs c ms (sends st cs c es) (start_world st cs t) in
        let taken =
          subst
            (λ (x : World st cs).
              x.system.aggregating ≡ true → AllTaken st cs c x (drained st cs c x))
            reached (receives-taken st cs c t (ms ++ sends st cs c es)) (all.on) in
        let drains =
          schedule-append st cs c (ms ++ sends st cs c es) (receive_all st cs c v)
            (start_world st cs t)
          ∙ ap (schedule st cs c (receive_all st cs c v)) reached in
        subst
          (λ (x : World st cs).
            st.shred_map.get key x.system.registry.shreds
            ≡ record_of (deliveries_of key (keep_if (admits_shred c) x.shred_lane.taken)))
          drains (schedule-records st cs c t _ key open_ended)
        ∙ ap (λ l. record_of (deliveries_of key (keep_if (admits_shred c) l)))
            (taken.shreds.0 ∙ all.accepted)

    -- From the sockets to the registry: the thread of a raw UDP, Jito or DoubleZero source or of a
    -- packet capture runs while the aggregator receives, the sender is alive and the channel has room
    -- for all that the thread can send. Then it sends the shreds that it hears, in their order, none of
    -- them is dropped, and as soon as the aggregator has received what waits, the record of every key
    -- holds exactly the earlier accepted deliveries of it followed by those that the thread heard, in
    -- their order and with their times, if the range and the leader filter admit its slot, and there is
    -- no record if there is no delivery. No start slot is configured, no batch exceeds the slots, and
    -- the control messages fit.
    pub run_thread-recorded :
        (k : Kernel) (anchor : ClockAnchor) (th : Thread)
        → before.system.aggregating ≡ true
        → before.shred_lane.held ≡ true
        → length (shred_chan.pending before.shred_lane.queue) + at_most k st shred_chan anchor th
          ≤ shred_chan.capacity
        → Fits k st shred_chan anchor th
        → (es : List ShredEvent) × (events_of k st shred_chan anchor th ≡ ok es)
          × (run_thread k st shred_chan anchor th (sender_of st cs c before)
              ≡ ok (sender_of st cs c (schedule st cs c (sends st cs c es) before)))
          × ((schedule st cs c (sends st cs c es) before).drops ≡ before.drops)
          × ((key : ShredKey)
              → st.shred_map.get key (received_all es before).system.registry.shreds
                ≡ record_of (
                    deliveries_of key
                      (keep_if (admits_shred c) (before.shred_lane.accepted ++ es))))
    run_thread-recorded k anchor th on alive room fit =
        let (es, e, few, s) = run_thread-sends st cs c k anchor th before on alive fit in
        let enough : length (shred_chan.pending before.shred_lane.queue) + length es
            ≤ shred_chan.capacity =
          omega (arith, room, few) in
        (
          es,
          e,
          s,
          (sends-AllJoined es before on alive enough).drops,
          sent-recorded es on alive enough,
        )
