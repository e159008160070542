-- ===== src/Jito/Entries.antt =====
-- src/sources/jito.rs:429-464: the entries of the proxy's gRPC stream. A message is an entry with its
-- receive time, an error, or the end of the stream or of the run.
pub mod Sessions
use orbshred.Prelude.{ℕ, List, [], ◌∷◌}
use orbshred.Channel.{Channel}
use orbshred.Registry.{SourceId, Instant, SlotEvent, Store}
use orbshred.Sender.{Sender, source_of_slot, offer_event}
use orbshred.Yellowstone.{Ended, finished, failed}
use orbshred.Reconnect.{reconnect}

pub data EntryMessage : Type 0 where
  entry_msg : (slot : ℕ) → Instant → EntryMessage
  entry_error entry_end : EntryMessage

-- Connecting and subscribing fail, or the stream brings messages.
pub data Session : Type 0 where
  refused : Session
  opened : List EntryMessage → Session

module _ (st : Store) (slots : Channel SlotEvent) where
  abbrev pub SlotSender : Type 0
  SlotSender = Sender st source_of_slot slots

  unfoldable pub entry_loop : SourceId → List EntryMessage → SlotSender → SlotSender × Ended
  entry_loop src [] x = (x, finished)
  entry_loop src (entry_msg slot t ∷ ms) x =
      let e : SlotEvent = record { source = src; slot = slot; received_at = t } in
      entry_loop src ms (offer_event st source_of_slot slots e x)
  entry_loop src (entry_error ∷ ms) x = (x, failed)
  entry_loop src (entry_end ∷ ms) x = (x, finished)

  unfoldable pub run_grpc_entries : SourceId → Session → SlotSender → SlotSender × Ended
  unfolding entry_loop
  run_grpc_entries src refused x = (x, failed)
  run_grpc_entries src (opened ms) x = entry_loop src ms x

  unfoldable pub run_entries : SourceId → List Session → SlotSender → SlotSender
  unfolding run_grpc_entries
  run_entries src = reconnect (run_grpc_entries src)
