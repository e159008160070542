-- ===== src/Examples/Streams.antt =====
-- A concrete stream of updates for src/sources/yellowstone.rs.
use orbshred.Prelude.{◌≡◌, false, some, List, [], ◌∷◌}
use orbshred.Channel.{Channel, bounded}
use orbshred.DashMap.{lookup_by}
use orbshred.Registry.{SlotEvent, GrpcLatencyEvent, same_id}
use orbshred.Yellowstone.{
  EntryRecord, slot_update, entry_update, account_update, Message, update_msg, end_msg, stream_loop,
  start_stream,
}
use orbshred.Yellowstone.Entries.{entries-kept, received, kept}
use orbshred.Examples.Records.{store}

abbrev slots : Channel SlotEvent
slots = bounded 4

abbrev overheads : Channel GrpcLatencyEvent
overheads = bounded 4

abbrev messages : List Message
messages =
    update_msg (entry_update 1000 0 3) 10
    ∷ update_msg (account_update 1000 false) 12
    ∷ update_msg (entry_update 1400 0 1) 20
    ∷ update_msg (slot_update 3 1401) 30
    ∷ end_msg
    ∷ []

entries-kept_example :
    lookup_by same_id 1000
      (stream_loop store slots overheads 4
        (some 5)
        messages
        (start_stream store slots overheads [] [] [])).0.entry_map
    ≡ kept 1000 (received messages [])
entries-kept_example = entries-kept store slots overheads 4 (some 5) messages [] [] [] 1000

abbrev entries : List EntryRecord
entries =
    record { starting_tx_index = 0; tx_count = 3; received_at = 10 }
    ∷ record { starting_tx_index = 3; tx_count = 1; received_at = 15 }
    ∷ []
