-- ===== src/Sender.antt =====
-- `if tx.try_send(event).is_err() { drops.inc(source); }`, which the sources share: an event goes
-- into its channel or counts as a drop of its source.
pub mod Ledger
use orbshred.Prelude.{Option, none, some}
use orbshred.Channel.{Channel}
use orbshred.Registry.{SourceId, ShredEvent, SlotEvent, Store, DropCounters, inc}

abbrev pub source_of_shred : ShredEvent → SourceId
source_of_shred e = e.source

abbrev pub source_of_slot : SlotEvent → SourceId
source_of_slot e = e.source

module _ (st : Store) {E : Type 0} (source_of : E → SourceId) (ch : Channel E) where
  open ch use {Queue, try_send}

  pub record Sender : Type 0 where
    pub tx : Queue
    pub drops : DropCounters st

  -- What the answer of `try_send` leads to.
  unfoldable pub after_offer : SourceId → Option Queue → Sender → Sender
  after_offer src none s = record s { drops = inc st src s.drops }
  after_offer src (some q) s = record s { tx = q }

  unfoldable pub offer_event : E → Sender → Sender
  unfolding after_offer
  offer_event e s = after_offer (source_of e) (try_send e s.tx) s
