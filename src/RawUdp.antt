-- ===== src/RawUdp.antt =====
-- src/sources/raw_udp.rs: the raw UDP source. Of the thread's set-up the calls that can fail are
-- inputs; pinning, the buffer size and the read timeout have no effect that the code looks at.
pub mod Accounts
use orbshred.Prelude.{Bool, if◌then◌else◌}
use orbshred.Exec.{Exec, ok}
use orbshred.Channel.{Channel}
use orbshred.Registry.{SourceId, ShredEvent, Store}
use orbshred.KernelTs.{ClockAnchor, Kernel, replicate, new_batch}
use orbshred.Receive.{Socket, Arrival, datagram_size, recv_loop}
use orbshred.Receive.Listener.{Listener, on_datagram}

-- Whether `UdpSocket::bind` and the timestamps' `setsockopt` succeed.
pub record UdpCalls : Type 0 where
  pub binds : Bool
  pub kernel_timestamps : Bool

module _ (k : Kernel) (st : Store) (ch : Channel ShredEvent) where
  unfoldable pub run_recv_loop :
      SourceId → ClockAnchor → Bool → Socket → Listener st ch → Exec (Listener st ch)
  run_recv_loop src = recv_loop k (on_datagram st ch src)

  unfoldable pub run :
      SourceId → ClockAnchor → UdpCalls → Socket → Listener st ch → Exec (Listener st ch)
  unfolding run_recv_loop
  run src anchor calls sock s =
      if calls.binds then run_recv_loop src anchor calls.kernel_timestamps sock s else ok s
