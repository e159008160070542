-- ===== src/Pipeline/Sources.antt =====
-- The shred sources' threads as tasks of the pipeline: what a thread does with what it hears is a
-- sequence of sends.
use orbshred.Prelude.{
  ◌≤◌, ◌≡◌, refl, sym, ap, ◌∙◌, true, Option, none, some, List, [], ◌∷◌, map, length,
}
use orbshred.Exec.{ok}
use orbshred.Registry.{ShredEvent, Store, DropCounters}
use orbshred.Sender.{source_of_shred, after_offer, offer_event}
use orbshred.Sender.Ledger.{offer_all}
use orbshred.KernelTs.{ClockAnchor, Kernel}
use orbshred.Receive.Listener.{Listener}
use orbshred.Aggregator.{Run}
use orbshred.Pipeline.Threads.{Thread, Fits, events_of, at_most, run_thread, run_thread-Offers}
use orbshred.Pipeline.Lanes.{Lane, answer, keep_account, put, send}
use orbshred.Pipeline.{Move, send_shred, Channels, World, move, schedule}

module _ (st : Store) (cs : Channels) (c : Run) where
  open cs use {shred_chan}

  -- The shreds' sender, with the shared counters.
  abbrev pub sender_of : World st cs → Listener st shred_chan
  sender_of w = record { tx = w.shred_lane.queue; drops = w.drops }

  -- The aggregator receives and the sender is alive.
  abbrev pub Open : World st cs → Type 0
  Open w = (w.system.aggregating ≡ true) × (w.shred_lane.held ≡ true)

  put-after_offer :
      (e : ShredEvent) (o : Option shred_chan.Queue) (l : Lane st source_of_shred shred_chan)
      (d : DropCounters st)
      → ◌≡◌ {A = Listener st shred_chan}
          (record {
            tx = (put st source_of_shred shred_chan e o l d).0.queue;
            drops = (put st source_of_shred shred_chan e o l d).1;
          })
          (after_offer st source_of_shred shred_chan e.source o
            (record { tx = l.queue; drops = d }))
  unfolding put keep_account after_offer
  put-after_offer e none l d = refl
  put-after_offer e (some q) l d = refl

  put-held :
      (e : ShredEvent) (o : Option shred_chan.Queue) (l : Lane st source_of_shred shred_chan)
      (d : DropCounters st)
      → (put st source_of_shred shred_chan e o l d).0.held ≡ l.held
  unfolding put keep_account
  put-held e none l d = refl
  put-held e (some q) l d = refl

  send_shred-offer_event :
      (e : ShredEvent) (w : World st cs)
      → Open w
      → (sender_of (move st cs c (send_shred e) w)
          ≡ offer_event st source_of_shred shred_chan e (sender_of w))
        × Open (move st cs c (send_shred e) w)
  unfolding move send answer offer_event
  send_shred-offer_event e w (on, alive) =
      let o = shred_chan.try_send e w.shred_lane.queue in
      (
        simp (on, alive) (put-after_offer e o w.shred_lane w.drops),
        (on, simp (on, alive) (put-held e o w.shred_lane w.drops ∙ alive)),
      )

  abbrev pub sends : List ShredEvent → List Move
  sends es = map (λ e. send_shred e) es

  -- Offering events is what sending them does to the channel and the counters.
  sends-offer_all :
      (es : List ShredEvent) (w : World st cs)
      → Open w
      → offer_all st source_of_shred shred_chan es (sender_of w)
        ≡ sender_of (schedule st cs c (sends es) w)
  unfolding offer_all schedule
  sends-offer_all [] w h = refl
  sends-offer_all (e ∷ es) w h =
      let (same, h') = send_shred-offer_event e w h in
      ap (offer_all st source_of_shred shred_chan es) (sym same)
      ∙ sends-offer_all es (move st cs c (send_shred e) w) h'

  -- A thread is a task of the pipeline: as long as the aggregator receives and the sender is alive,
  -- the whole of it leaves the channel and the counters just as the sends of its events do.
  pub run_thread-sends :
      (k : Kernel) (anchor : ClockAnchor) (th : Thread) (w : World st cs)
      → w.system.aggregating ≡ true
      → w.shred_lane.held ≡ true
      → Fits k st shred_chan anchor th
      → (es : List ShredEvent) × (events_of k st shred_chan anchor th ≡ ok es)
        × length es ≤ at_most k st shred_chan anchor th
        × (run_thread k st shred_chan anchor th (sender_of w)
            ≡ ok (sender_of (schedule st cs c (sends es) w)))
  run_thread-sends k anchor th w on alive fit =
      let (es, e, few, h) = run_thread-Offers k st shred_chan anchor th (sender_of w) fit in
      (es, e, few, h ∙ ap ok (sends-offer_all es w (on, alive)))
