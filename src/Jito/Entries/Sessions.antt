-- ===== src/Jito/Entries/Sessions.antt =====
-- src/sources/jito.rs:105-118 and 429-464: the entries of all connections.
use orbshred.Prelude.{◌≡◌, List, [], ◌∷◌, ◌++◌}
use orbshred.Channel.{Channel}
use orbshred.Registry.{SourceId, SlotEvent, Store}
use orbshred.Sender.{source_of_slot}
use orbshred.Sender.Ledger.{offer_all}
use orbshred.Yellowstone.{Ended, finished, failed}
use orbshred.Reconnect.{on_end}
use orbshred.Jito.Entries.{
  EntryMessage, entry_msg, entry_error, entry_end, Session, refused, opened, SlotSender,
}

-- The entries before the stream's first error or end, and how the stream ends.
unfoldable pub stream_entries : SourceId → List EntryMessage → List SlotEvent × Ended
stream_entries src [] = ([], finished)
stream_entries src (entry_msg slot t ∷ ms) =
    let rest = stream_entries src ms in
    (record { source = src; slot = slot; received_at = t } ∷ rest.0, rest.1)
stream_entries src (entry_error ∷ ms) = ([], failed)
stream_entries src (entry_end ∷ ms) = ([], finished)

unfoldable pub session_entries : SourceId → Session → List SlotEvent × Ended
unfolding stream_entries
session_entries src refused = ([], failed)
session_entries src (opened ms) = stream_entries src ms

-- Those of each connection up to the first that does not fail.
unfoldable pub all_entries : SourceId → List Session → List SlotEvent
unfolding session_entries on_end
all_entries src [] = []
all_entries src (c ∷ cs) =
    let r = session_entries src c in let more = all_entries src cs in on_end r.1 r.0 (r.0 ++ more)

module _ (st : Store) (slots : Channel SlotEvent) where
  -- The entries were offered to the channel one after the other.
  abbrev Offered : List SlotEvent → SlotSender st slots → SlotSender st slots → Type 0
  Offered es x y = y ≡ offer_all st source_of_slot slots es x
