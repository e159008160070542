-- ===== src/RawUdp/Accounts.antt =====
-- src/sources/raw_udp.rs:19-150: what becomes of the shreds of a raw UDP source.
use orbshred.Prelude.{◌≡◌, refl, List, [], if◌then◌else◌, Bool-cases, inl, inr}
use orbshred.Exec.{ok}
use orbshred.Channel.{Channel}
use orbshred.Registry.{SourceId, ShredEvent, Store}
use orbshred.KernelTs.{ClockAnchor, Kernel}
use orbshred.Sender.{source_of_shred}
use orbshred.Sender.Ledger.{Accounted-refl, offer_all}
use orbshred.Receive.{Socket}
use orbshred.Receive.Handled.{Frames}
use orbshred.Receive.Sockets.{SocketFits, socket_frames, recv_loop_handled}
use orbshred.Receive.Listener.{Listener, on_datagram}
use orbshred.Receive.Listener.Ledger.{shred_events, Accounts, handle_all-Accounts}
use orbshred.RawUdp.{UdpCalls, run_recv_loop, run}

module _ (k : Kernel) (st : Store) (ch : Channel ShredEvent) where
  -- The datagrams that the source gets to handle.
  unfoldable pub heard : ClockAnchor → UdpCalls → Socket → Frames
  heard anchor calls sock =
      if calls.binds then socket_frames k anchor calls.kernel_timestamps sock else []

  -- A raw UDP source never panics, whatever arrives: it comes back when it is cancelled, and each
  -- datagram that parses as a shred, cut to 1280 bytes, became an event of the source with its key and
  -- time; these events, and nothing else, were offered to the channel in their order, and each is in
  -- it or counted as a drop (modulo 2^64). If
  -- the socket does not bind, nothing happens. No batch exceeds the slots, and the control messages
  -- fit.
  pub run-Accounts :
      (src : SourceId) (anchor : ClockAnchor) (calls : UdpCalls) (sock : Socket)
      (x : Listener st ch)
      → SocketFits k sock
      → (es : List ShredEvent) × (shred_events src (heard anchor calls sock) ≡ ok es)
        × Accounts st ch (run k st ch src anchor calls sock x) es x
  unfolding run run_recv_loop heard shred_events offer_all
  run-Accounts src anchor calls sock x fit = elim (Bool-cases calls.binds) [
    | inl bound ↦
        let on = calls.kernel_timestamps in
        rw (bound, recv_loop_handled k (on_datagram st ch src) anchor on sock x fit)
          (handle_all-Accounts st ch src (socket_frames k anchor on sock) x)
    | inr unbound ↦ rw unbound ([], refl, (refl, Accounted-refl st source_of_shred ch x))
  ]
