-- ===== src/Yellowstone/Sessions.antt =====
-- src/sources/yellowstone.rs:26-56 and 67-146: the connections of a Yellowstone source. Whether the
-- calls up to the subscription succeed, and the messages of the stream, are inputs. The entry map
-- starts empty with every connection.
use orbshred.Prelude.{ℕ, ◌≡◌, Option, List, []}
use orbshred.DashMap.{lookup_by}
use orbshred.Channel.{Channel}
use orbshred.Registry.{SourceId, same_id, SlotEvent, GrpcLatencyEvent, Store}
use orbshred.Yellowstone.{Stream, start_stream, Message, Ended, failed, stream_loop}
use orbshred.Yellowstone.Entries.{received, kept, entries-kept}
use orbshred.Reconnect.{reconnect}

pub data Connection : Type 0 where
  refused : Connection
  subscribed : List Message → Connection

module _ (st : Store) (slots : Channel SlotEvent) (grpc : Channel GrpcLatencyEvent) where
  unfoldable pub connect_and_stream :
      SourceId → Option SourceId → Connection → Stream st slots grpc → Stream st slots grpc × Ended
  connect_and_stream src account refused x = (x, failed)
  connect_and_stream src account (subscribed ms) x =
      stream_loop st slots grpc src account ms (start_stream st slots grpc x.tx x.grpc_tx x.drops)

  unfoldable pub run :
      SourceId → Option SourceId → List Connection → Stream st slots grpc → Stream st slots grpc
  unfolding connect_and_stream
  run src account = reconnect (connect_and_stream src account)

  -- After a connection the entry map holds what that connection brought, and nothing of an earlier
  -- one.
  connect_and_stream-entries :
      (src : SourceId) (account : Option SourceId) (ms : List Message) (x : Stream st slots grpc)
      (k : ℕ)
      → lookup_by same_id k (connect_and_stream src account (subscribed ms) x).0.entry_map
        ≡ kept k (received ms [])
  unfolding connect_and_stream
  connect_and_stream-entries src account ms x k =
      entries-kept st slots grpc src account ms x.tx x.grpc_tx x.drops k
