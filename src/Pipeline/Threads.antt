-- ===== src/Pipeline/Threads.antt =====
-- The shred sources' threads of src/sources/raw_udp.rs, src/sources/jito.rs, src/sources/doublezero.rs
-- and src/sources/pcap.rs, as tasks that `main` starts. Each thread is the whole of its set-up and its
-- receive loop.
use Prim.Native.String.{String}
use orbshred.Prelude.{
  ℕ, ◌*◌, ◌≤◌, ◌≡◌, refl, ap, subst, ◌∙◌, Bool, ◌&&◌, Option, none, some, List, [], ◌∷◌, length,
  Bool-cases, inl, inr, arith,
}
use orbshred.Exec.{Exec, ok, ◌>>=◌, Bytes}
use orbshred.Channel.{Channel}
use orbshred.Registry.{SourceId, Instant, ShredEvent, Store}
use orbshred.KernelTs.{ClockAnchor, Kernel, replicate}
use orbshred.Sender.{source_of_shred}
use orbshred.Sender.Ledger.{offer_all}
use orbshred.Receive.{Socket}
use orbshred.Receive.Handled.{handle_all}
use orbshred.Receive.Sockets.{SocketFits, socket_frames, recv_loop_handled, length-replicate}
use orbshred.Receive.Listener.{Listener, on_datagram}
use orbshred.Receive.Listener.Ledger.{shred_events, handle_all-Offers}
use orbshred.RawUdp
use orbshred.RawUdp.{UdpCalls}
use orbshred.RawUdp.Accounts
use orbshred.Jito.{udp_listener, udp_recv_loop}
use orbshred.DoubleZero
use orbshred.DoubleZero.{MulticastCalls, DzListener, join_multicast_by_index, on_packet}
use orbshred.DoubleZero.Packets
use orbshred.DoubleZero.Packets.{handle_all-listener}
use orbshred.Pcap.Route.{PcapRoute}
use orbshred.Pcap.Capture.{start_capture, zero_counts}
use orbshred.Pcap.Capture.Offers.{all_offers, all_offers-Few}
use orbshred.Pcap.Capture.Ledger.{capture_loop-Handled}
use orbshred.Pcap.Capture.Ledger
use orbshred.Pcap.Socket.{
  CaptureCalls, CaptureError, Reception, frame_buf_size, open_socket, after_open, run_capture,
}
use orbshred.Pcap.Socket.Closed.{received, frames_after, receive_loop-capture_loop}

-- A thread with what its calls meet.
pub data Thread : Type 0 where
  raw_udp jito_udp : SourceId → UdpCalls → Socket → Thread
  doublezero : SourceId → MulticastCalls → Socket → Thread
  pcap_capture : CaptureCalls → String → List PcapRoute → List Reception → Thread

zero_counts-length : (routes : List PcapRoute) → length routes ≤ length (zero_counts routes)
unfolding zero_counts
zero_counts-length [] = omega arith
zero_counts-length (r ∷ rs) = omega (arith, zero_counts-length rs)

module _ (k : Kernel) (st : Store) (ch : Channel ShredEvent) (anchor : ClockAnchor) where
  -- No batch exceeds the slots, and the control messages fit.
  abbrev pub Fits : Thread → Type 0
  Fits (raw_udp src calls sock) = SocketFits k sock
  Fits (jito_udp src calls sock) = SocketFits k sock
  Fits (doublezero src calls sock) = SocketFits k sock
  Fits (pcap_capture calls interface routes rs) = Unit {0}

  abbrev frames_of : CaptureCalls → String → List Reception → List (Bytes × Instant)
  frames_of calls interface rs =
      frames_after k st ch (open_socket calls interface 0).0
        (received k st ch anchor calls.kernel_timestamps rs)

  -- The shreds among what a thread hears, in their order; those of a captured frame once for each
  -- route that takes it.
  abbrev pub events_of : Thread → Exec (List ShredEvent)
  events_of (raw_udp src calls sock) =
      shred_events src (RawUdp.Accounts.heard k st ch anchor calls sock)
  events_of (jito_udp src calls sock) =
      shred_events src (RawUdp.Accounts.heard k st ch anchor calls sock)
  events_of (doublezero src calls sock) =
      shred_events src (DoubleZero.Packets.heard k st ch anchor calls sock)
  events_of (pcap_capture calls interface routes rs) =
      all_offers routes (frames_of calls interface rs)

  -- How many events a thread can send at most: one for each datagram that it hears, or one for each
  -- frame and route.
  abbrev pub at_most : Thread → ℕ
  at_most (raw_udp src calls sock) = length (RawUdp.Accounts.heard k st ch anchor calls sock)
  at_most (jito_udp src calls sock) = length (RawUdp.Accounts.heard k st ch anchor calls sock)
  at_most (doublezero src calls sock) = length (DoubleZero.Packets.heard k st ch anchor calls sock)
  at_most (pcap_capture calls interface routes rs) =
      length (frames_of calls interface rs) * length routes

  -- From the shared sender on; its counters start at 0.
  abbrev pub run_thread : Thread → Listener st ch → Exec (Listener st ch)
  run_thread (raw_udp src calls sock) s = RawUdp.run k st ch src anchor calls sock s
  run_thread (jito_udp src calls sock) s = udp_listener k st ch src anchor calls sock s
  run_thread (doublezero src calls sock) s = do
    y ← DoubleZero.run st ch k src anchor calls sock s
    ok y.listener
  run_thread (pcap_capture calls interface routes rs) s = do
    p ←
        run_capture k st ch anchor calls interface routes rs
          (start_capture st ch routes s.tx s.drops) 0
    ok (Ledger.sender_of st ch p.capture)

  raw_udp-handled :
      (src : SourceId) (calls : UdpCalls) (sock : Socket) (s : Listener st ch)
      → SocketFits k sock
      → RawUdp.run k st ch src anchor calls sock s
        ≡ handle_all (on_datagram st ch src) (RawUdp.Accounts.heard k st ch anchor calls sock) s
  unfolding RawUdp.run RawUdp.run_recv_loop RawUdp.Accounts.heard handle_all
  raw_udp-handled src calls sock s fit = elim (Bool-cases calls.binds) [
    | inl bound ↦
        rw bound
          (recv_loop_handled k (on_datagram st ch src) anchor calls.kernel_timestamps sock s fit)
    | inr unbound ↦ rw unbound refl
  ]

  jito_udp-handled :
      (src : SourceId) (calls : UdpCalls) (sock : Socket) (s : Listener st ch)
      → SocketFits k sock
      → udp_listener k st ch src anchor calls sock s
        ≡ handle_all (on_datagram st ch src) (RawUdp.Accounts.heard k st ch anchor calls sock) s
  unfolding udp_listener udp_recv_loop RawUdp.run RawUdp.run_recv_loop
  jito_udp-handled = raw_udp-handled

  doublezero-handled :
      (src : SourceId) (calls : MulticastCalls) (sock : Socket) (s : Listener st ch)
      → SocketFits k sock
      → (do y ← DoubleZero.run st ch k src anchor calls sock s; ok y.listener)
        ≡ handle_all (on_datagram st ch src) (DoubleZero.Packets.heard k st ch anchor calls sock) s
  unfolding DoubleZero.run DoubleZero.run_dz_recv_loop DoubleZero.Packets.heard handle_all
  doublezero-handled src calls sock s fit =
      let start : DzListener st ch = record { listener = s; raw_count = 0; parsed_count = 0 } in
      let on = calls.kernel_timestamps in
      let joined = join_multicast_by_index calls.join in
      let set_up = calls.group_parses && calls.creates && calls.binds && joined in
      let (y, e, l) = handle_all-listener st ch src (socket_frames k anchor on sock) start in
      elim (Bool-cases set_up) [
        | inl done ↦
            rw (done, recv_loop_handled k (on_packet st ch src) anchor on sock start fit, e, l) refl
        | inr failed ↦ rw failed refl
      ]

  -- A thread offers the shreds among what it hears, one after the other, and comes back.
  abbrev pub Offers : Thread → Listener st ch → Type 0
  Offers th s =
      (es : List ShredEvent) × (events_of th ≡ ok es)
      × length es ≤ at_most th
      × (run_thread th s ≡ ok (offer_all st source_of_shred ch es s))

  after_open-Offers :
      (on : Bool) (routes : List PcapRoute) (rs : List Reception) (o : Option CaptureError × ℕ)
      (s : Listener st ch)
      → let fs = frames_after k st ch o.0 (received k st ch anchor on rs) in
        (es : List ShredEvent) × (all_offers routes fs ≡ ok es)
        × length es ≤ length fs * length routes
        × ((after_open k st ch anchor on routes rs (start_capture st ch routes s.tx s.drops) o
              >>= λ p. ok (Ledger.sender_of st ch p.capture))
            ≡ ok (offer_all st source_of_shred ch es s))
  unfolding after_open frames_after start_capture all_offers offer_all
  after_open-Offers on routes rs (some e, fds) s = ([], refl, omega arith, refl)
  after_open-Offers on routes rs (none, fds) s =
      let fs = received k st ch anchor on rs in
      let x = start_capture st ch routes s.tx s.drops in
      let (all, o, few) = all_offers-Few routes fs in
      let (es, o', (y, e, _, (offered, _))) =
        capture_loop-Handled st ch routes fs x (zero_counts-length routes) in
      let same : all ≡ es = cc (o, o') in
      (
        es,
        o',
        subst (λ l. length l ≤ length fs * length routes) same few,
        rw
            (
              receive_loop-capture_loop k st ch anchor on routes rs (replicate frame_buf_size 0) x
                  (length-replicate {A = ℕ} frame_buf_size 0),
              e,
            )
            (ap ok offered),
      )

  pub run_thread-Offers : (th : Thread) (s : Listener st ch) → Fits th → Offers th s
  unfolding run_capture
  run_thread-Offers (raw_udp src calls sock) s fit =
      let (es, e, few, h) =
        handle_all-Offers st ch src (RawUdp.Accounts.heard k st ch anchor calls sock) s in
      (es, e, few, raw_udp-handled src calls sock s fit ∙ h)
  run_thread-Offers (jito_udp src calls sock) s fit =
      let (es, e, few, h) =
        handle_all-Offers st ch src (RawUdp.Accounts.heard k st ch anchor calls sock) s in
      (es, e, few, jito_udp-handled src calls sock s fit ∙ h)
  run_thread-Offers (doublezero src calls sock) s fit =
      let (es, e, few, h) =
        handle_all-Offers st ch src (DoubleZero.Packets.heard k st ch anchor calls sock) s in
      (es, e, few, doublezero-handled src calls sock s fit ∙ h)
  run_thread-Offers (pcap_capture calls interface routes rs) s fit =
      after_open-Offers calls.kernel_timestamps routes rs (open_socket calls interface 0) s
