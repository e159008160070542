-- ===== src/Examples/Datagrams.antt =====
-- Concrete sockets for src/sources/kernel_ts.rs, src/sources/raw_udp.rs and
-- src/sources/doublezero.rs, and a kernel that copies what fits.
use orbshred.Prelude.{
  some, ℕ, ◌+◌, ◌*◌, ◌≤◌, ◌≡◌, refl, true, List, [], ◌∷◌, ◌++◌, length, length-append, length-take,
  length-drop, take, drop, take-append, min, leb, if◌then◌else◌, arith,
}
use orbshred.Prelude.Int.{pos, negsuc, ◌+ℤ◌, ◌-ℤ◌, ◌*ℤ◌}
use orbshred.Exec.{Exec, ok, Bytes}
use orbshred.Channel.{Channel, bounded}
use orbshred.Registry.{Instant, ShredEvent}
use orbshred.KernelTs.Single.{recv_with_timestamp, recv_with_timestamp-recvmmsg}
use orbshred.KernelTs.{
  BatchRecv, Datagram, received, recvmmsg, frame, timestamp, ClockAnchor, ControlMessage, Kernel,
  Slot, Answer, datagrams, timed_out, stamp, kernel_time, instant_from_realtime_ns, shift_instant,
}
use orbshred.KernelTs.Clock.{instant_distances}
use orbshred.Receive.{Clock, Arrival, arrived, quiet, Socket, batched_loop, single_loop}
use orbshred.Receive.Handled.{batched_frames, answer_frames, stamped, single_frames, loops_agree}
use orbshred.Receive.Listener.{Listener}
use orbshred.Receive.Listener.Ledger.{shred_events, Accounts}
use orbshred.RawUdp
use orbshred.RawUdp.{UdpCalls}
use orbshred.RawUdp.Accounts.{run-Accounts}
use orbshred.DoubleZero
use orbshred.DoubleZero.{JoinCalls, MulticastCalls, DzListener}
use orbshred.DoubleZero.Packets.{Counts, run-Counts}
use orbshred.Examples.Packets.{datagram}
use orbshred.Examples.Records.{store}

pub length-copied : (p b : Bytes) → length (take (length b) p ++ drop (length p) b) ≡ length b
length-copied p b = omega (
  arith,
  length-append (take (length b) p) (drop (length p) b),
  length-take (length b) p,
  length-drop (length p) b,
)

pub take-copied :
    (p b : Bytes)
    → take (min (length b) (length p)) (take (length b) p ++ drop (length p) b) ≡ take (length b) p
take-copied p b =
    take-append (take (length b) p) (drop (length p) b) (min (length b) (length p))
      (omega (arith, length-take (length b) p))

pub controls_fit :
    (cs : List ControlMessage) (n : ℕ)
    → 32 * length cs ≤ n
    → (if leb (32 * length cs) n then cs else []) ≡ cs
controls_fit cs n h = ground arith

abbrev pub copying : Kernel
copying = record {
  sol_socket = 1;
  scm_timestampns = 35;
  fill = λ p b. (take (length b) p ++ drop (length p) b, min (length b) (length p));
  control_size = λ cs. 32 * length cs;
  fill_control = λ cs n. (if leb (32 * length cs) n then cs else [], n);
  length-fill = length-copied;
  fill_bound = λ p b. omega arith;
  take-fill = take-copied;
  fill_control_fits = controls_fit;
}

abbrev pub anchor : ClockAnchor
anchor = record { instant = 100; realtime_ns = pos 10000000000 }

abbrev stamped_at : ℕ → ControlMessage
stamped_at ns = record { cmsg_level = 1; cmsg_type = 35; tv_sec = pos 10; tv_nsec = pos ns }

abbrev clock : Clock
clock i = 200 + i

-- A stamped datagram and one without a timestamp, then a timeout.
abbrev answers : List (Answer × Clock)
answers =
    (
      datagrams (
          record { bytes = datagram; messages = stamped_at 5 ∷ [] }
          ∷ record { bytes = 1 ∷ 2 ∷ []; messages = [] }
          ∷ []),
      clock,
    )
    ∷ (timed_out, clock)
    ∷ []

abbrev arrivals : List Arrival
arrivals = arrived datagram 105 ∷ quiet ∷ arrived (1 ∷ 2 ∷ []) 201 ∷ []

abbrev slot : Slot
slot = record { buf = 9 ∷ 9 ∷ []; msg_len = 0; msg_controllen = 128; control = [] }

same_frames : batched_frames copying anchor 2 answers ≡ single_frames 2 arrivals
unfolding batched_frames answer_frames stamped single_frames stamp kernel_time
    instant_from_realtime_ns shift_instant ◌+ℤ◌ ◌-ℤ◌ ◌*ℤ◌
same_frames = refl

-- Keeping every datagram is enough to tell two runs apart.
abbrev note : Bytes → Instant → List (Bytes × Instant) → Exec (List (Bytes × Instant))
note f t s = ok ((f, t) ∷ s)

loops_agree_example :
    batched_loop copying note anchor answers (record { slots = slot ∷ slot ∷ [] }) []
    ≡ single_loop copying note arrivals (7 ∷ 7 ∷ []) []
loops_agree_example =
    loops_agree copying note 2 anchor 2 answers (record { slots = slot ∷ slot ∷ [] }) arrivals
      (7 ∷ 7 ∷ []) [] (refl, (refl, (refl, tt)))
      ((omega arith, (omega arith, (omega arith, tt))), (tt, tt)) refl same_frames

in_window :
    (pos 10000000005 -ℤ pos 10000000000 ≡ pos 5) × (pos 9999999990 -ℤ pos 10000000000 ≡ negsuc 9)
unfolding ◌-ℤ◌
in_window = (refl, refl)

instant_distances_example :
    pos (instant_from_realtime_ns anchor (pos 10000000005))
      -ℤ pos (instant_from_realtime_ns anchor (pos 9999999990))
    ≡ pos 10000000005 -ℤ pos 9999999990
instant_distances_example =
    instant_distances anchor (pos 9999999990) (pos 10000000005)
      (rw (in_window.1) (omega arith, omega arith, omega arith))
      (rw (in_window.0) (omega arith, omega arith, omega arith))

abbrev pub socket : Socket
socket = record { batches = answers; arrivals = arrivals }

abbrev channel : Channel ShredEvent
channel = bounded 1

abbrev listener : Listener store channel
listener = record { tx = []; drops = [] }

abbrev pub udp_calls : UdpCalls
udp_calls = record { binds = true; kernel_timestamps = true }

run-Accounts_example :
    (es : List ShredEvent) × (shred_events 1
        (RawUdp.Accounts.heard copying store channel anchor udp_calls socket)
      ≡ ok es)
    × Accounts store channel
        (RawUdp.run copying store channel 1 anchor udp_calls socket listener)
        es
        listener
run-Accounts_example =
    run-Accounts copying store channel 1 anchor udp_calls socket listener
      ((omega arith, (omega arith, (omega arith, tt))), (tt, tt))

abbrev multicast_calls : MulticastCalls
multicast_calls = record {
  group_parses = true;
  creates = true;
  binds = true;
  join = record { name_ok = true; iface_index = 3; joins = true };
  kernel_timestamps = true;
}

run-Counts_example :
    let heard = DoubleZero.Packets.heard copying store channel anchor multicast_calls socket in
    (es : List ShredEvent) × (shred_events 1 heard ≡ ok es)
    × Counts store channel
        (DoubleZero.run store channel copying 1 anchor multicast_calls socket listener)
        heard
        es
        (record { listener = listener; raw_count = 0; parsed_count = 0 })
run-Counts_example =
    run-Counts copying store channel 1 anchor multicast_calls socket listener
      ((omega arith, (omega arith, (omega arith, tt))), (tt, tt))

abbrev lone : Datagram
lone = record { bytes = 7 ∷ 8 ∷ 9 ∷ []; messages = stamped_at 30 ∷ [] }

abbrev used : Slot
used = record { buf = 1 ∷ 1 ∷ []; msg_len = 2; msg_controllen = 0; control = [] }

recv_with_timestamp-recvmmsg_example :
    let b : BatchRecv = record { slots = used ∷ [] } in
    let batched = recvmmsg copying (datagrams (lone ∷ [])) b in
    let single = recv_with_timestamp copying anchor 200 (some lone) used.buf in
    (batched.0 ≡ received 1)
    × ((n : ℕ) × (t : ℕ) × (single.0 ≡ some (n, t))
        × (take n single.1 ≡ take 2 lone.bytes)
        × (frame batched.1 0 ≡ ok (take 2 lone.bytes))
        × (timestamp copying anchor 200 batched.1 0 ≡ ok t))
recv_with_timestamp-recvmmsg_example = recv_with_timestamp-recvmmsg copying anchor 200 lone used []
