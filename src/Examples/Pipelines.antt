-- ===== src/Examples/Pipelines.antt =====
-- Concrete schedules of the whole program, over channels of two places.
use orbshred.Prelude.{arith, ◌≡◌, refl, none, List, [], ◌∷◌, ◌++◌}
use orbshred.Channel.{bounded}
use orbshred.Registry.History.{record_of}
use orbshred.Aggregator.{Run, run_of, step, start_system}
use orbshred.Pipeline.{
  Move, send_shred, send_slot, recv_shred, recv_grpc, drop_grpc_tx, stops, Channels, World,
  start_world, move, schedule,
}
use orbshred.Pipeline.Conserved.{Conserved, schedule-Conserved}
use orbshred.Pipeline.Recorded.{Recorded, schedule-Recorded}
use orbshred.Pipeline.Records.{schedule-records, deliveries_of}
use orbshred.Pipeline.Recorded.Histories.{keep_if, admits_shred}
use orbshred.Pipeline.Shutdown.{Abandoned, recv-Abandoned}
use orbshred.Pipeline.Drained.{AllTaken, receive_all}
use orbshred.Main.Wait.{stop_run, stop_run-AllTaken}
use orbshred.Exec.{ok}
use orbshred.Registry.{ShredEvent}
use orbshred.RawUdp.Accounts.{heard}
use orbshred.Shred.{ShredKey}
use orbshred.Receive.Sockets.{socket_frames}
use orbshred.Receive.Handled.{batched_frames, answer_frames, stamped}
use orbshred.Pipeline.Threads.{Thread, raw_udp, events_of, at_most, run_thread}
use orbshred.Pipeline.Sources.{sender_of, sends}
use orbshred.Pipeline.Delivered.{received_all, run_thread-recorded}
use orbshred.Examples.Datagrams.{copying, anchor, udp_calls, socket}
use orbshred.Examples.Records.{store, key, first_call, second_call, entry_call}

abbrev pub channels : Channels
channels = record { shred_chan = bounded 2; slot_chan = bounded 2; grpc_chan = bounded 2 }

abbrev endless : Run
endless = run_of none none none 30

-- Three shreds are offered to a channel of two places; the aggregator takes the first one.
abbrev busy : List Move
busy =
    send_shred first_call
    ∷ send_shred second_call
    ∷ send_slot entry_call
    ∷ send_shred first_call
    ∷ recv_shred
    ∷ []

-- `main` stops the run, and the channel of the samples ends first.
abbrev ending : List Move
ending = stops ∷ drop_grpc_tx ∷ []

abbrev world : World store channels
world = schedule store channels endless busy (start_world store channels 0)

schedule-Conserved_example : Conserved store channels world
schedule-Conserved_example = schedule-Conserved store channels endless 0 busy

schedule-Recorded_example : Recorded store channels endless 0 world
unfolding run_of
schedule-Recorded_example = schedule-Recorded store channels endless 0 busy refl

schedule-records_example :
    store.shred_map.get key world.system.registry.shreds
    ≡ record_of (deliveries_of key (keep_if (admits_shred endless) world.shred_lane.taken))
unfolding run_of
schedule-records_example = schedule-records store channels endless 0 busy key refl

abbrev stopped : World store channels
stopped = schedule store channels endless ending world

-- The second shred, accepted before the end, is lost.
recv-Abandoned_example :
    Abandoned store channels endless stopped.system.registry stopped.shred_lane.queue
      stopped.slot_lane.queue stopped.grpc_lane.queue
      (schedule store channels endless (recv_grpc ∷ recv_shred ∷ []) stopped)
unfolding schedule move step start_world start_system
recv-Abandoned_example =
    recv-Abandoned store channels endless recv_grpc stopped (recv_shred ∷ []) refl (refl, refl)

lost : stopped.shred_lane.queue ≡ second_call ∷ []
unfolding schedule move start_world start_system
lost = refl

stop_run-AllTaken_example :
    AllTaken store channels endless world (
      schedule store channels endless
        (stop_run (receive_all store channels endless world) [])
        world)
unfolding schedule move step start_world start_system
stop_run-AllTaken_example = stop_run-AllTaken store channels endless 0 busy refl

-- A raw UDP source that hears two datagrams while the program runs, the first of them a shred.
abbrev earlier : List Move
earlier = send_shred second_call ∷ recv_shred ∷ []

abbrev running : World store channels
running = schedule store channels endless earlier (start_world store channels 0)

abbrev thread : Thread
thread = raw_udp 1 udp_calls socket

heard_two : at_most copying store channels.shred_chan anchor thread ≡ 2
unfolding heard socket_frames batched_frames answer_frames stamped
heard_two = refl

run_thread-recorded_example :
    (es : List ShredEvent) × (events_of copying store channels.shred_chan anchor thread ≡ ok es)
    × (run_thread copying store channels.shred_chan anchor thread
          (sender_of store channels endless running)
        ≡ ok (
            sender_of store channels endless
              (schedule store channels endless (sends store channels endless es) running)))
    × ((schedule store channels endless (sends store channels endless es) running).drops
        ≡ running.drops)
    × ((k : ShredKey)
        → store.shred_map.get k
            (received_all store channels endless es running).system.registry.shreds
          ≡ record_of (
              deliveries_of k (keep_if (admits_shred endless) (running.shred_lane.accepted ++ es))))
unfolding run_of schedule move step start_world start_system
run_thread-recorded_example =
    run_thread-recorded store channels endless 0 earlier refl copying anchor thread refl refl
      (omega (arith, heard_two)) ((omega arith, (omega arith, (omega arith, tt))), (tt, tt))
