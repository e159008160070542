-- ===== src/Pcap/Socket/Closed.antt =====
-- src/sources/pcap.rs:134-327: when a capture leaves its socket open, and what it hands on.
use Prim.Native.String.{String}
use orbshred.Prelude.{
  ℕ, suc, ◌≤◌, ◌≡◌, refl, ap, ◌∙◌, Bool, true, false, not, ◌||◌, ◌↔◌, ◌&&◌, Option, none, some,
  List, [], ◌∷◌, length, take, if◌then◌else◌, arith, Bool-cases, inl, inr, ◌==◌, ◌⊎◌,
}
use orbshred.Prelude.Text.{blank}
use orbshred.Exec.{ok, Bytes, bind_cong}
use orbshred.Channel.{Channel}
use orbshred.Registry.{Instant, ShredEvent, Store}
use orbshred.KernelTs.{ClockAnchor, Kernel, replicate}
use orbshred.KernelTs.Batch.{written_slice}
use orbshred.Receive.Sockets.{length-replicate}
use orbshred.Pcap.Route.{PcapRoute}
use orbshred.Pcap.Capture.{Capture, on_frame, capture_loop}
use orbshred.Pcap.Capture.Offers.{all_offers}
use orbshred.Pcap.Capture.Ledger.{Ledger, Ledger-refl, capture_loop-Handled}
use orbshred.Pcap.Socket.{
  CaptureCalls, CaptureError, os_error, bad_name, interface_not_found, Reception, got, nothing,
  frame_buf_size, close, bind_interface, open_socket, receive_time, receive_loop, Process,
  after_open, run_capture,
}

-- The set-up returns between opening the socket and closing it: the interface's name is no C string.
unfoldable pub leaks : CaptureCalls → String → Bool
leaks calls interface = calls.opens && calls.attaches && not (blank interface) && not calls.name_ok

-- The descriptors after a part of the set-up: `kept` if it fails, `held` if it works.
abbrev Held : ℕ → ℕ → Option CaptureError × ℕ → Type 0
Held kept held r = ((e : CaptureError) × (r ≡ (some e, kept))) ⊎ (r ≡ (none, held))

closed_again : (e : CaptureError) (fds : ℕ) → Held fds (suc fds) (some e, close (suc fds))
closed_again e fds = inl (e, ap (λ n. (some e, n)) (omega arith))

-- With the socket open.
bind_interface-Held :
    (calls : CaptureCalls) (interface : String) (fds : ℕ)
    → Held
        (if not (blank interface) && not calls.name_ok then suc fds else fds)
        (suc fds)
        (bind_interface calls interface (suc fds))
unfolding bind_interface
bind_interface-Held calls interface fds = elim (Bool-cases (blank interface)) [
  | inl all ↦ rw all (inr refl)
  | inr named ↦ elim (Bool-cases calls.name_ok) [
    | inr bad ↦ rw (named, bad) (inl (bad_name, refl))
    | inl good ↦ elim (Bool-cases (calls.ifindex == 0)) [
      | inl unknown ↦ rw (named, good, unknown) (closed_again interface_not_found fds)
      | inr known ↦ elim (Bool-cases calls.binds) [
        | inr unbound ↦ rw (named, good, known, unbound) (closed_again os_error fds)
        | inl bound ↦ rw (named, good, known, bound) (inr refl)
      ]
    ]
  ]
]

open_socket-Held :
    (calls : CaptureCalls) (interface : String) (fds : ℕ)
    → Held
        (if leaks calls interface then suc fds else fds)
        (suc fds)
        (open_socket calls interface fds)
unfolding open_socket leaks
open_socket-Held calls interface fds = elim (Bool-cases calls.opens) [
  | inr unopened ↦ rw unopened (inl (_, refl))
  | inl opened ↦ elim (Bool-cases calls.attaches) [
    | inr refused ↦ rw (opened, refused) (closed_again os_error fds)
    | inl attached ↦ rw (opened, attached) (bind_interface-Held calls interface fds)
  ]
]

-- A set-up that leaks fails.
open_socket-leaks :
    (calls : CaptureCalls) (interface : String) (fds : ℕ)
    → open_socket calls interface fds ≡ (none, suc fds)
    → leaks calls interface ≡ false
unfolding open_socket bind_interface leaks
open_socket-leaks calls interface fds h = ground arith

-- Every call that the set-up needs succeeds. With an interface these are the look-up of its name and
-- the binding too.
unfoldable pub works : CaptureCalls → String → Bool
works calls interface =
    calls.opens
    && calls.attaches
    && (blank interface || (calls.name_ok && not (calls.ifindex == 0) && calls.binds))

open_socket-works :
    (calls : CaptureCalls) (interface : String) (fds : ℕ)
    → works calls interface ≡ true
    → open_socket calls interface fds ≡ (none, suc fds)
unfolding open_socket bind_interface works
open_socket-works calls interface fds h = ground arith

open_socket-fails :
    (calls : CaptureCalls) (interface : String) (fds : ℕ)
    → open_socket calls interface fds ≡ (none, suc fds)
    → works calls interface ≡ true
unfolding open_socket bind_interface works
open_socket-fails calls interface fds h = ground arith

module _ (k : Kernel) (st : Store) (ch : Channel ShredEvent) where
  -- The frames of a capture, cut to the buffer's size, with their times.
  unfoldable pub received : ClockAnchor → Bool → List Reception → List (Bytes × Instant)
  received anchor on [] = []
  received anchor on (got d now ∷ rest) =
      (take frame_buf_size d.bytes, receive_time k st ch anchor on d now) ∷ received anchor on rest
  received anchor on (nothing ∷ rest) = received anchor on rest

  pub receive_loop-capture_loop :
      (anchor : ClockAnchor) (on : Bool) (routes : List PcapRoute) (rs : List Reception)
      (buf : Bytes) (s : Capture st ch)
      → length buf ≡ frame_buf_size
      → receive_loop k st ch anchor on routes rs buf s
        ≡ capture_loop st ch routes (received anchor on rs) s
  unfolding receive_loop capture_loop received
  receive_loop-capture_loop anchor on routes [] buf s h = refl
  receive_loop-capture_loop anchor on routes (got d now ∷ rest) buf s h =
      let written = k.fill d.bytes buf in
      let f : Bytes × Instant =
        (take frame_buf_size d.bytes, receive_time k st ch anchor on d now) in
      rw (written_slice k d.bytes buf frame_buf_size h) (
        bind_cong (on_frame st ch routes f s) (λ s'.
          receive_loop-capture_loop anchor on routes rest written.0 s'
            (k.length-fill d.bytes buf ∙ h)))
  receive_loop-capture_loop anchor on routes (nothing ∷ rest) buf s h =
      receive_loop-capture_loop anchor on routes rest buf s h

  -- The frames that count: none if the set-up fails.
  unfoldable pub frames_after :
      Option CaptureError → List (Bytes × Instant) → List (Bytes × Instant)
  frames_after none fs = fs
  frames_after (some e) fs = []

  -- A capture comes back whatever its calls answer, and closes its socket on every way out but one:
  -- if the socket is open and filtered and the interface's name is no C string, one descriptor stays
  -- open. It reports an error exactly if a call that its set-up needs fails: the socket, the filter,
  -- and with an interface its name, its index or the binding. Otherwise the frames, cut to 2048 bytes,
  -- become events as in the loop over frames, which are all sent or counted as drops (modulo 2^64);
  -- after an error none does. There is a counter for each route.
  pub run_capture-Closed :
      (anchor : ClockAnchor) (calls : CaptureCalls) (interface : String) (routes : List PcapRoute)
      (rs : List Reception) (x : Capture st ch) (fds : ℕ)
      → length routes ≤ length x.route_counts
      → (p : Process k st ch) × (es : List ShredEvent) × (run_capture k st ch anchor calls interface
            routes rs x fds
          ≡ ok p)
        × (p.open_fds ≡ (if leaks calls interface then suc fds else fds))
        × ((p.error ≡ none) ↔ (works calls interface ≡ true))
        × (all_offers routes
              (if works calls interface then received anchor calls.kernel_timestamps rs else [])
            ≡ ok es)
        × Ledger st ch es x p.capture
  unfolding run_capture after_open all_offers
  run_capture-Closed anchor calls interface routes rs x fds h =
      let on = calls.kernel_timestamps in
      elim (open_socket-Held calls interface fds) [
        | inl (e, failed) ↦
            let broken : works calls interface ≡ false = elim (Bool-cases (works calls interface)) [
              | inr w ↦ w
              | inl w ↦ absurd (cc (failed, open_socket-works calls interface fds w))
            ] in
            rw (failed, broken)
              (
                _,
                [],
                refl,
                refl,
                ((λ z. absurd (cc z)), λ z. absurd (cc z)),
                refl,
                Ledger-refl st ch x,
              )
        | inr held ↦
            let all = open_socket-fails calls interface fds held in
            let (es, o, (y, e, l, g)) =
              capture_loop-Handled st ch routes (received anchor on rs) x h in
            rw
              (
                held,
                all,
                receive_loop-capture_loop anchor on routes rs (replicate frame_buf_size 0) x
                    (length-replicate {A = ℕ} frame_buf_size 0),
                e,
                open_socket-leaks calls interface fds held,
              )
              (_, es, refl, omega arith, ((λ _. refl), λ _. refl), o, g)
      ]
