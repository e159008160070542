-- ===== src/Receive/Listener.antt =====
-- What src/sources/raw_udp.rs:91-99, src/sources/jito.rs:226-234 and src/sources/doublezero.rs do
-- with a datagram that parses: one event goes into the channel or counts as a drop.
pub mod Ledger
use orbshred.Prelude.{Option, none, some}
use orbshred.Exec.{Exec, ok, ◌>>=◌, Bytes}
use orbshred.Shred.{ShredKey, parse_shred_key}
use orbshred.Channel.{Channel}
use orbshred.Registry.{SourceId, Instant, ShredEvent, Store}
use orbshred.Sender.{Sender, source_of_shred, offer_event}

module _ (st : Store) (ch : Channel ShredEvent) where
  abbrev pub Listener : Type 0
  Listener = Sender st source_of_shred ch

  unfoldable pub offer_key : SourceId → Instant → Option ShredKey → Listener → Listener
  offer_key src t none s = s
  offer_key src t (some key) s =
      offer_event st source_of_shred ch (record { source = src; key = key; received_at = t }) s

  unfoldable pub on_datagram : SourceId → Bytes → Instant → Listener → Exec Listener
  unfolding offer_key
  on_datagram src f t s = do key ← parse_shred_key f; ok (offer_key src t key s)
