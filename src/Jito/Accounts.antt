-- ===== src/Jito/Accounts.antt =====
-- src/sources/jito.rs:59-288: which modes run, and what becomes of the shreds of their listeners.
use orbshred.Prelude.{◌≡◌, List}
use orbshred.Exec.{ok}
use orbshred.Channel.{Channel}
use orbshred.Registry.{SourceId, ShredEvent, Store}
use orbshred.KernelTs.{ClockAnchor, Kernel}
use orbshred.Receive.{Socket}
use orbshred.Receive.Sockets.{SocketFits}
use orbshred.Receive.Listener.{Listener}
use orbshred.Receive.Listener.Ledger.{shred_events, Accounts}
use orbshred.RawUdp
use orbshred.RawUdp.{UdpCalls}
use orbshred.RawUdp.Accounts.{heard, run-Accounts}
use orbshred.Jito.{udp_recv_loop, udp_listener}

module _ (k : Kernel) (st : Store) (ch : Channel ShredEvent) where
  -- A UDP listener of Jito never panics, whatever arrives: it comes back when it is cancelled, and
  -- each datagram that parses as a shred, cut to 1280 bytes, became an event of the source with its
  -- key and time; these events, and nothing else, were offered to the channel in their order, and each
  -- is in it or counted as a drop (modulo 2^64). If the socket does not bind, nothing happens. No
  -- batch exceeds the slots, and the control messages fit.
  pub udp_listener-Accounts :
      (src : SourceId) (anchor : ClockAnchor) (calls : UdpCalls) (sock : Socket)
      (x : Listener st ch)
      → SocketFits k sock
      → (es : List ShredEvent) × (shred_events src (heard k st ch anchor calls sock) ≡ ok es)
        × Accounts st ch (udp_listener k st ch src anchor calls sock x) es x
  unfolding udp_listener udp_recv_loop RawUdp.run RawUdp.run_recv_loop
  udp_listener-Accounts = run-Accounts k st ch
