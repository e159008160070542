-- ===== src/DoubleZero.antt =====
-- src/sources/doublezero.rs: the DoubleZero source. Of the thread's set-up the calls that can fail are
-- inputs. `last_log` only decides when a line is logged and has no part here.
pub mod Packets
pub mod InterfaceIp
use orbshred.Prelude.{
  ℕ, Bool, not, ◌&&◌, Option, none, some, List, [], length, min, ◌==◌, if◌then◌else◌,
}
use orbshred.Exec.{Exec, ok, ◌>>=◌, Bytes, slice}
use orbshred.Shred.{ShredKey, parse_shred_key}
use orbshred.Channel.{Channel}
use orbshred.Registry.{SourceId, Instant, ShredEvent, Store, DropCounters}
use orbshred.Stats.{add_u64}
use orbshred.KernelTs.{ClockAnchor, Kernel}
use orbshred.Receive.{Socket, recv_loop}
use orbshred.Receive.Listener.{Listener}
use orbshred.Sender.{source_of_shred, offer_event}

-- The calls of `join_multicast_by_index`: whether the name is a C string, the interface's index, and
-- whether `setsockopt` returns 0.
pub record JoinCalls : Type 0 where
  pub name_ok : Bool
  pub iface_index : ℕ
  pub joins : Bool

-- Whether each call that can fail succeeds.
pub record MulticastCalls : Type 0 where
  pub group_parses : Bool
  pub creates : Bool
  pub binds : Bool
  pub join : JoinCalls
  pub kernel_timestamps : Bool

unfoldable pub join_multicast_by_index : JoinCalls → Bool
join_multicast_by_index c = c.name_ok && not (c.iface_index == 0) && c.joins

module _ (st : Store) (ch : Channel ShredEvent) where
  pub record DzListener : Type 0 where
    pub listener : Listener st ch
    pub raw_count : ℕ
    pub parsed_count : ℕ

  unfoldable pub count_key : SourceId → Instant → Option ShredKey → DzListener → DzListener
  count_key src t none s = s
  count_key src t (some key) s = record s {
    parsed_count = add_u64 s.parsed_count 1;
    listener =
        offer_event st source_of_shred ch (record { source = src; key = key; received_at = t })
          s.listener;
  }

  unfoldable pub on_packet : SourceId → Bytes → Instant → DzListener → Exec DzListener
  unfolding count_key
  on_packet src f t s = do
    let counted = record s { raw_count = add_u64 s.raw_count 1 }
    dump ← if counted.raw_count == 1 then slice f 0 (min (length f) 96) else ok []
    key ← parse_shred_key f
    ok (count_key src t key counted)

  module _ (k : Kernel) where
    unfoldable pub run_dz_recv_loop :
        SourceId → ClockAnchor → Bool → Socket → DzListener → Exec DzListener
    unfolding on_packet
    run_dz_recv_loop src = recv_loop k (on_packet src)

    -- The counters start at 0.
    unfoldable pub run :
        SourceId → ClockAnchor → MulticastCalls → Socket → Listener st ch → Exec DzListener
    unfolding run_dz_recv_loop join_multicast_by_index
    run src anchor calls sock s =
        let start : DzListener = record { listener = s; raw_count = 0; parsed_count = 0 } in
        if calls.group_parses && calls.creates && calls.binds && join_multicast_by_index calls.join
        then run_dz_recv_loop src anchor calls.kernel_timestamps sock start
        else ok start
