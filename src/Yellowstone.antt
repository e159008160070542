-- ===== src/Yellowstone.antt =====
-- src/sources/yellowstone.rs: what `connect_and_stream` does with each update of the subscription.
-- Connecting is `Sessions`; the request is not modelled. A message is an update with its
-- receive time, an error, or the end of the stream or of the run.
pub mod Entries
pub mod Baseline
pub mod Sessions
use orbshred.Prelude.{
  ℕ, ◌+◌, ◌-◌, ◌%◌, ◌^◌, Bool, true, false, not, Option, none, some, List, [], ◌∷◌, ◌++◌, ltb, leb,
  ◌==◌, if◌then◌else◌, max,
}
use orbshred.Channel.{Channel}
use orbshred.DashMap.{lookup_by, upsert_by}
use orbshred.Registry.{
  SourceId, Instant, same_id, SlotEvent, GrpcLatencyEvent, Store, DropCounters, inc,
}
use orbshred.Stats.{since}

pub record EntryRecord : Type 0 where
  pub starting_tx_index : ℕ
  pub tx_count : ℕ
  pub received_at : Instant

-- The kinds of update that are looked at, with the fields that are read.
pub data Update : Type 0 where
  slot_update : (status slot : ℕ) → Update
  entry_update : (slot starting_tx_index tx_count : ℕ) → Update
  account_update : (slot : ℕ) → (is_startup : Bool) → Update
  other_update : Update

pub data Message : Type 0 where
  update_msg : Update → Instant → Message
  error_msg : Message
  end_msg : Message

-- Whether the function returns `Ok` or the stream's error.
pub data Ended : Type 0 where
  finished failed : Ended

-- `SlotStatus::SlotFirstShredReceived as i32`, of proto/yellowstone/geyser.proto.
abbrev pub slot_first_shred_received : ℕ
slot_first_shred_received = 3

abbrev pub EntryMap : Type 0
EntryMap = List (ℕ × List EntryRecord)

-- `retain(|&s, _| s >= bound)`
unfoldable pub retain : ℕ → EntryMap → EntryMap
retain bound [] = []
retain bound ((s, es) ∷ m) = if leb bound s then (s, es) ∷ retain bound m else retain bound m

unfoldable pub add_entry : ℕ → EntryRecord → ℕ → EntryMap → EntryMap
unfolding retain
add_entry slot e max_slot_seen m =
    let added = upsert_by same_id slot (λ es. es ++ (e ∷ [])) (e ∷ []) m in
    if ltb 300 max_slot_seen then retain (max_slot_seen - 300) added else added

-- `filter(|e| e.received_at <= t).max_by_key(|e| e.received_at)`, which takes the last of several
-- equal ones, from the best one so far.
unfoldable pub latest_from : Instant → Option EntryRecord → List EntryRecord → Option EntryRecord
latest_from t best [] = best
latest_from t none (e ∷ es) = latest_from t (if leb e.received_at t then some e else none) es
latest_from t (some b) (e ∷ es) =
    let newer = if leb b.received_at e.received_at then e else b in
    latest_from t (some (if leb e.received_at t then newer else b)) es

module _ (st : Store) (slots : Channel SlotEvent) (grpc : Channel GrpcLatencyEvent) where
  pub record Stream : Type 0 where
    pub tx : slots.Queue
    pub grpc_tx : grpc.Queue
    pub drops : DropCounters st
    pub entry_map : EntryMap
    pub max_slot_seen : ℕ

  unfoldable pub start_stream : slots.Queue → grpc.Queue → DropCounters st → Stream
  start_stream tx grpc_tx drops = record {
    tx = tx;
    grpc_tx = grpc_tx;
    drops = drops;
    entry_map = [];
    max_slot_seen = 0;
  }

  unfoldable pub after_slot_send : SourceId → Option slots.Queue → Stream → Stream
  after_slot_send src none x = record x { drops = inc st src x.drops }
  after_slot_send src (some q) x = record x { tx = q }

  unfoldable pub send_slot : SlotEvent → Stream → Stream
  unfolding after_slot_send
  send_slot e x = after_slot_send e.source (slots.try_send e x.tx) x

  unfoldable pub after_grpc_send : SourceId → Option grpc.Queue → Stream → Stream
  after_grpc_send src none x = record x { drops = inc st src x.drops }
  after_grpc_send src (some q) x = record x { grpc_tx = q }

  unfoldable pub send_grpc : GrpcLatencyEvent → Stream → Stream
  unfolding after_grpc_send
  send_grpc e x = after_grpc_send e.source (grpc.try_send e x.grpc_tx) x

  -- The overhead sample, if an entry of the slot came before.
  unfoldable pub sample_overhead : SourceId → Instant → Option EntryRecord → Stream → Stream
  unfolding send_grpc
  sample_overhead aid t none x = x
  sample_overhead aid t (some e) x =
      send_grpc (record { source = aid; latency_ns = since t e.received_at }) x

  unfoldable pub entries_for : ℕ → Stream → List EntryRecord
  entries_for slot x = elim (lookup_by same_id slot x.entry_map) [ none ↦ [] | some es ↦ es ]

  unfoldable pub on_account : Option SourceId → ℕ → Instant → Stream → Stream
  unfolding send_slot sample_overhead latest_from entries_for
  on_account none slot t x = x
  on_account (some aid) slot t x =
      sample_overhead aid t (latest_from t none (entries_for slot x))
        (send_slot (record { source = aid; slot = slot; received_at = t }) x)

  unfoldable pub on_update : SourceId → Option SourceId → Update → Instant → Stream → Stream
  unfolding add_entry on_account send_slot
  on_update src account (slot_update status slot) t x =
      if status == slot_first_shred_received
      then send_slot (record { source = src; slot = slot; received_at = t }) x
      else x
  on_update src account (entry_update slot start count) t x =
      let e : EntryRecord = record {
        starting_tx_index = start;
        tx_count = count;
        received_at = t;
      } in
      record x {
        entry_map = add_entry slot e (max x.max_slot_seen slot) x.entry_map;
        max_slot_seen = max x.max_slot_seen slot;
      }
  on_update src account (account_update slot is_startup) t x =
      if not is_startup then on_account account slot t x else x
  on_update src account other_update t x = x

  unfoldable pub stream_loop : SourceId → Option SourceId → List Message → Stream → Stream × Ended
  unfolding on_update
  stream_loop src account [] x = (x, finished)
  stream_loop src account (update_msg u t ∷ ms) x =
      stream_loop src account ms (on_update src account u t x)
  stream_loop src account (error_msg ∷ ms) x = (x, failed)
  stream_loop src account (end_msg ∷ ms) x = (x, finished)
