-- ===== src/Pipeline.antt =====
-- src/main.rs:140-148, 307-439 and 461-467: the sources, the three channels and the aggregator as one
-- program. A move is what one task does between two suspensions; a schedule is the order in which
-- they run.
pub mod Lanes
pub mod Conserved
pub mod Recorded
pub mod Records
pub mod Shutdown
pub mod Drained
pub mod Threads
pub mod Sources
pub mod Delivered
use orbshred.Prelude.{List, [], ◌∷◌, false, if◌then◌else◌}
use orbshred.Channel.{Channel}
use orbshred.Registry.{
  SourceId, Instant, ShredEvent, SlotEvent, GrpcLatencyEvent, Store, DropCounters,
}
use orbshred.Sender.{source_of_shred, source_of_slot}
use orbshred.Aggregator.{
  Run, Event, shred_msg, slot_msg, grpc_msg, closed, second, grace_over, stop, System, start_system,
  step,
}
use Lanes.{Lane, open_lane, send, RecvAnswer, got, over, waits, recv_event}

abbrev pub source_of_grpc : GrpcLatencyEvent → SourceId
source_of_grpc e = e.source

-- What the tasks can do. The last clone of a sender is dropped once: by `main` or by a source that
-- ends after it.
pub data Move : Type 0 where
  send_shred : ShredEvent → Move
  send_slot : SlotEvent → Move
  send_grpc : GrpcLatencyEvent → Move
  recv_shred recv_slot recv_grpc : Move
  drop_shred_tx drop_slot_tx drop_grpc_tx : Move
  monitor_second grace_ends stops : Move

-- The channels of `main`.
pub record Channels : Type 1 where
  pub shred_chan : Channel ShredEvent
  pub slot_chan : Channel SlotEvent
  pub grpc_chan : Channel GrpcLatencyEvent

module _ (st : Store) (cs : Channels) where
  abbrev pub ShredLane : Type 0
  ShredLane = Lane st source_of_shred cs.shred_chan

  abbrev pub SlotLane : Type 0
  SlotLane = Lane st source_of_slot cs.slot_chan

  abbrev pub GrpcLane : Type 0
  GrpcLane = Lane st source_of_grpc cs.grpc_chan

  pub record World : Type 0 where
    pub shred_lane : ShredLane
    pub slot_lane : SlotLane
    pub grpc_lane : GrpcLane
    pub drops : DropCounters st
    pub system : System st

  open st use {counter_map}

  unfoldable pub start_world : Instant → World
  unfolding open_lane
  start_world t = record {
    shred_lane = open_lane st source_of_shred cs.shred_chan;
    slot_lane = open_lane st source_of_slot cs.slot_chan;
    grpc_lane = open_lane st source_of_grpc cs.grpc_chan;
    drops = counter_map.empty;
    system = start_system st t;
  }

  -- What the aggregator does with an event of its own.
  unfoldable pub tell : Run → Event → World → World
  tell c ev w = record w { system = step st c ev w.system }

  -- The branches of the `select!`.
  unfoldable pub on_shred : Run → RecvAnswer st source_of_shred cs.shred_chan → World → World
  unfolding tell
  on_shred c (got e l) w = tell c (shred_msg e) (record w { shred_lane = l })
  on_shred c over w = tell c closed w
  on_shred c waits w = w

  unfoldable pub on_slot : Run → RecvAnswer st source_of_slot cs.slot_chan → World → World
  unfolding tell
  on_slot c (got e l) w = tell c (slot_msg e) (record w { slot_lane = l })
  on_slot c over w = tell c closed w
  on_slot c waits w = w

  unfoldable pub on_grpc : Run → RecvAnswer st source_of_grpc cs.grpc_chan → World → World
  unfolding tell
  on_grpc c (got e l) w = tell c (grpc_msg e) (record w { grpc_lane = l })
  on_grpc c over w = tell c closed w
  on_grpc c waits w = w

  -- A move that cannot happen changes nothing.
  unfoldable pub move : Run → Move → World → World
  unfolding send recv_event on_shred on_slot on_grpc tell
  move c (send_shred e) w =
      let (l, d) =
        send st source_of_shred cs.shred_chan w.system.aggregating e w.shred_lane w.drops in
      record w { shred_lane = l; drops = d }
  move c (send_slot e) w =
      let (l, d) = send st source_of_slot cs.slot_chan w.system.aggregating e w.slot_lane w.drops in
      record w { slot_lane = l; drops = d }
  move c (send_grpc e) w =
      let (l, d) = send st source_of_grpc cs.grpc_chan w.system.aggregating e w.grpc_lane w.drops in
      record w { grpc_lane = l; drops = d }
  move c recv_shred w =
      if w.system.aggregating
      then on_shred c (recv_event st source_of_shred cs.shred_chan w.shred_lane) w
      else w
  move c recv_slot w =
      if w.system.aggregating
      then on_slot c (recv_event st source_of_slot cs.slot_chan w.slot_lane) w
      else w
  move c recv_grpc w =
      if w.system.aggregating
      then on_grpc c (recv_event st source_of_grpc cs.grpc_chan w.grpc_lane) w
      else w
  move c drop_shred_tx w = record w { shred_lane = record (w.shred_lane) { held = false } }
  move c drop_slot_tx w = record w { slot_lane = record (w.slot_lane) { held = false } }
  move c drop_grpc_tx w = record w { grpc_lane = record (w.grpc_lane) { held = false } }
  move c monitor_second w = tell c second w
  move c grace_ends w = tell c grace_over w
  move c stops w = tell c stop w

  -- A schedule, the first move first.
  unfoldable pub schedule : Run → List Move → World → World
  schedule c [] w = w
  schedule c (m ∷ ms) w = schedule c ms (move c m w)
